-- ===== src/Probe/Detect/Report.antt =====
-- From the output of `nvidia-smi` to what `detect` of agent/internal/gpu/detect.go reports.
use gridlink.Prelude.{
  ℕ, true, false, ◌≡◌, ◌≢◌, refl, ap, ◌∙◌, ◌<◌, ◌^◌, ◌%◌, List, [], ◌∷◌, ◌++◌, none, some, ok,
  length, arith, ◌==◌,
}
use gridlink.Bytes.{Bytes, bytes_eq, codes}
use gridlink.Bytes.Fields.{
  begins_space, split, join, trim_space, NoSpace, trim_space-NoSpace, Lacks, split_first,
}
use gridlink.Bytes.Decimal.{
  is_digit, format, AllDigits, format-AllDigits, parse_uint64, parse_uint64-format,
}
use gridlink.Probe.{parse_uint}
use gridlink.Probe.Smi.{keep_line, trimmed_lines, non_empty_lines}
use gridlink.Probe.Smi.Lines.{IsPart, AllParts, comma_space, split_smi_line-join}
use gridlink.Probe.Detect.{Machine, report_of, detect_smi, queried, cuda_version, detect}

pub digit_no_space : (b : ℕ) → is_digit b ≡ true → begins_space b ≡ false
unfolding is_digit begins_space
digit_no_space b h = ground arith

pub AllDigits-NoSpace : (s : Bytes) → AllDigits s → NoSpace s
AllDigits-NoSpace [] h = tt
AllDigits-NoSpace (b ∷ s) (hb, hs) = (digit_no_space b hb, AllDigits-NoSpace s hs)

digit_no_comma : (b : ℕ) → is_digit b ≡ true → (b == 44) ≡ false
unfolding is_digit
digit_no_comma b h = ground arith

AllDigits-Lacks : (s : Bytes) → AllDigits s → Lacks 44 s
AllDigits-Lacks [] h = tt
AllDigits-Lacks (b ∷ s) (hb, hs) = (digit_no_comma b hb, AllDigits-Lacks s hs)

format-IsPart : (n : ℕ) → IsPart (format n)
format-IsPart n =
    let all = format-AllDigits n in
    (
      AllDigits-Lacks (format n) all,
      trim_space-NoSpace (format n) (AllDigits-NoSpace (format n) all),
    )

-- A number that a tool prints is read back.
pub parse_uint-format : (n : ℕ) → n < 2 ^ 64 → parse_uint (format n) ≡ n
unfolding parse_uint
parse_uint-format n lt =
    ap (λ s. elim (parse_uint64 s) [ none ↦ 0 | some v ↦ v ])
      (trim_space-NoSpace (format n) (AllDigits-NoSpace (format n) (format-AllDigits n)))
    ∙ ap (λ o. elim o [ none ↦ 0 | some v ↦ v ]) (parse_uint64-format n lt)

-- A line that is printed: not empty, no white space around it, and no newline in it.
abbrev pub IsLine : Bytes → Type 0
IsLine line = Lacks 10 line × (trim_space line ≡ line) × (line ≢ [])

abbrev pub AllLines : List Bytes → Type 0
AllLines [] = Unit
AllLines (line ∷ lines) = IsLine line × AllLines lines

-- Each line with its newline.
abbrev pub unlines : List Bytes → Bytes
unlines [] = []
unlines (line ∷ lines) = line ++ 10 ∷ unlines lines

split-unlines : (lines : List Bytes) → AllLines lines → split 10 (unlines lines) ≡ lines ++ [] ∷ []
unfolding split
split-unlines [] h = refl
split-unlines (line ∷ lines) ((lacks, _, _), rest) =
    split_first 10 line (unlines lines) lacks ∙ ap (λ ls. line ∷ ls) (split-unlines lines rest)

keep_line-ne : (line : Bytes) (rest : List Bytes) → line ≢ [] → keep_line line rest ≡ line ∷ rest
unfolding keep_line
keep_line-ne [] rest ne = absurd (ne refl)
keep_line-ne (b ∷ line) rest ne = refl

trimmed_lines-ends :
    (lines : List Bytes) → AllLines lines → trimmed_lines (lines ++ [] ∷ []) ≡ lines
unfolding trimmed_lines keep_line trim_space
trimmed_lines-ends [] h = refl
trimmed_lines-ends (line ∷ lines) ((_, tight, ne), rest) =
    ap (λ s. keep_line s (trimmed_lines (lines ++ [] ∷ []))) tight
    ∙ keep_line-ne line (trimmed_lines (lines ++ [] ∷ [])) ne
    ∙ ap (λ ls. line ∷ ls) (trimmed_lines-ends lines rest)

-- Lines that are printed are read back.
pub non_empty_lines-unlines :
    (lines : List Bytes) → AllLines lines → non_empty_lines (unlines lines) ≡ lines
unfolding non_empty_lines
non_empty_lines-unlines lines h =
    ap trimmed_lines (split-unlines lines h) ∙ trimmed_lines-ends lines h

-- On a machine with the tool, `detect` reports of the first device that the tool prints the name,
-- with its commas, the memory and the driver, and with them the number of devices.
pub detect-unlines :
    (m : Machine) (n : Bytes) (names : List Bytes) (vram : ℕ) (driver : Bytes) (others : List Bytes)
    → let line = join comma_space (n ∷ (names ++ format vram ∷ driver ∷ [])) in
      bytes_eq m.fake_gpu (codes "1") ≡ false
      → bytes_eq m.goos (codes "darwin") ≡ false
      → m.query ≡ some (unlines (line ∷ others))
      → AllLines (line ∷ others)
      → AllParts (n ∷ names)
      → IsPart driver
      → vram < 2 ^ 64
      → detect m
        ≡ ok (record {
          vendor = codes "nvidia";
          model = join comma_space (n ∷ names);
          vram_total_mb = vram;
          driver_version = driver;
          cuda_version = cuda_version m.banner;
          gpu_count = length (line ∷ others) % 2 ^ 32;
        })
unfolding detect queried detect_smi report_of
detect-unlines m n names vram driver others real here q lines parts part lt =
    let line = join comma_space (n ∷ (names ++ format vram ∷ driver ∷ [])) in
    rw real (
      rw here (
        ap (λ o. queried o m.banner) q
        ∙ ap (detect_smi m.banner) (non_empty_lines-unlines (line ∷ others) lines)
        ∙ ap (report_of (length (line ∷ others)) m.banner)
            (split_smi_line-join n names (format vram) driver parts (format-IsPart vram) part)
        ∙ λ i. ok (record {
          vendor = codes "nvidia";
          model = join comma_space (n ∷ names);
          vram_total_mb = parse_uint-format vram lt i;
          driver_version = driver;
          cuda_version = cuda_version m.banner;
          gpu_count = length (line ∷ others) % 2 ^ 32;
        })))
