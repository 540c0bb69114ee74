-- ===== src/Probe/Host/Memory.antt =====
-- The memory that agent/internal/sysinfo/sysinfo.go reads of `/proc/meminfo`.
use gridlink.Prelude.{
  ℕ, true, false, ◌≡◌, ◌≢◌, refl, ap, ◌∙◌, ◌<◌, ◌^◌, ◌/◌, List, [], ◌∷◌, ◌++◌, some,
}
use gridlink.Bytes.{Bytes, codes}
use gridlink.Bytes.Search.{has_prefix}
use gridlink.Bytes.Fields.{
  is_space, begins_space, no_space_at, ascii_space_at, space_at, wide_at, split, NoSpace,
}
use gridlink.Bytes.Decimal.{format, format-AllDigits, format-ne}
use gridlink.Probe.Detect.Report.{AllDigits-NoSpace, parse_uint-format}
use gridlink.Probe.Host.{
  onto_field, starts_field, fields_from, fields, second_field_mb, mem_total, mem_total_of,
  linux_ram,
}

abbrev pub AllSpace : Bytes → Type 0
AllSpace [] = Unit
AllSpace (b ∷ s) = (is_space b ≡ true) × AllSpace s

-- White space in front of a text.
fields_space : (s t : Bytes) → AllSpace s → fields (s ++ t) ≡ fields t
unfolding fields fields_from
fields_space [] t h = refl
fields_space (b ∷ s) t (hb, hs) =
    rw (ascii_space_at b (s ++ t) hb, fields_from) (fields_space s t hs)

-- A word in front of a text that begins with no field.
fields_word :
    (b : ℕ) (word t : Bytes)
    → NoSpace (b ∷ word)
    → starts_field t ≡ false
    → fields ((b ∷ word) ++ t) ≡ (b ∷ word) ∷ fields t
unfolding fields fields_from onto_field starts_field
fields_word b [] t (hb, _) bare =
    rw (no_space_at b t hb, fields_from) (ap (λ x. onto_field x b (fields t)) bare)
fields_word b (c ∷ word) t (hb, (hc, hs)) bare =
    rw (no_space_at b ((c ∷ word) ++ t) hb, fields_from)
      (ap (λ fs. onto_field (starts_field ((c ∷ word) ++ t)) b fs)
          (fields_word c word t (hc, hs) bare)
        ∙ ap (λ x. onto_field x b ((c ∷ word) ∷ fields t)) (starts_word c (word ++ t) hc))
  where
    starts_word : (c : ℕ) (s : Bytes) → begins_space c ≡ false → starts_field (c ∷ s) ≡ true
    starts_word c s h = rw (no_space_at c s h, starts_field) refl

fields_number :
    (word t : Bytes)
    → word ≢ []
    → NoSpace word
    → starts_field t ≡ false
    → fields (word ++ t) ≡ word ∷ fields t
fields_number [] t ne h bare = absurd (ne refl)
fields_number (b ∷ word) t ne h bare = fields_word b word t h bare

starts_space : (b : ℕ) (s : Bytes) → is_space b ≡ true → starts_field (b ∷ s) ≡ false
unfolding starts_field
starts_space b s h = rw (ascii_space_at b s h, starts_field) refl

-- `MemTotal:`, white space, a number and its unit.
abbrev pub mem_line : ℕ → Bytes → ℕ → Bytes
mem_line b spaces n = mem_total ++ ((b ∷ spaces) ++ (format n ++ codes " kB"))

mem_total-NoSpace : NoSpace mem_total
unfolding begins_space
mem_total-NoSpace = (refl, (refl, (refl, (refl, (refl, (refl, (refl, (refl, (refl, tt)))))))))

fields_unit : (starts_field (codes " kB") ≡ false) × (fields (codes " kB") ≡ codes "kB" ∷ [])
unfolding fields fields_from starts_field onto_field space_at wide_at is_space
fields_unit = (refl, refl)

fields-mem_line :
    (b : ℕ) (spaces : Bytes) (n : ℕ)
    → AllSpace (b ∷ spaces)
    → fields (mem_line b spaces n) ≡ mem_total ∷ format n ∷ codes "kB" ∷ []
fields-mem_line b spaces n (hb, hs) =
    let number = format n ++ codes " kB" in
    fields_number mem_total ((b ∷ spaces) ++ number) (λ e. absurd (cc)) mem_total-NoSpace
      (starts_space b (spaces ++ number) hb)
    ∙ ap (λ fs. mem_total ∷ fs)
        (fields_space (b ∷ spaces) number (hb, hs)
          ∙ fields_number (format n) (codes " kB") (format-ne n)
              (AllDigits-NoSpace (format n) (format-AllDigits n)) (fields_unit.0)
          ∙ ap (λ fs. format n ∷ fs) fields_unit.1)

-- No line of these is the one that is looked for.
abbrev pub NoneTotal : List Bytes → Type 0
NoneTotal [] = Unit
NoneTotal (line ∷ lines) = (has_prefix line mem_total ≡ false) × NoneTotal lines

mem_line-prefix :
    (b : ℕ) (spaces : Bytes) (n : ℕ) → has_prefix (mem_line b spaces n) mem_total ≡ true
unfolding has_prefix
mem_line-prefix b spaces n = refl

mem_total_of-past :
    (noise lines : List Bytes)
    → NoneTotal noise
    → mem_total_of (noise ++ lines) ≡ mem_total_of lines
unfolding mem_total_of
mem_total_of-past [] lines h = refl
mem_total_of-past (line ∷ noise) lines (hl, hn) = rw hl (mem_total_of-past noise lines hn)

mem_total_of-here :
    (line : Bytes) (lines : List Bytes)
    → has_prefix line mem_total ≡ true
    → mem_total_of (line ∷ lines) ≡ second_field_mb (fields line)
unfolding mem_total_of
mem_total_of-here line lines h = rw h refl

-- Of a file that has, behind other lines, one that gives the total in kilobytes, the memory that is
-- reported is that total in megabytes.
pub linux_ram-mem_line :
    (out : Bytes) (noise lines : List Bytes) (b : ℕ) (spaces : Bytes) (n : ℕ)
    → split 10 out ≡ noise ++ mem_line b spaces n ∷ lines
    → NoneTotal noise
    → AllSpace (b ∷ spaces)
    → n < 2 ^ 64
    → linux_ram (some out) ≡ n / 1024
unfolding linux_ram second_field_mb
linux_ram-mem_line out noise lines b spaces n cut quiet blank lt =
    ap mem_total_of cut
    ∙ mem_total_of-past noise (mem_line b spaces n ∷ lines) quiet
    ∙ mem_total_of-here (mem_line b spaces n) lines (mem_line-prefix b spaces n)
    ∙ ap second_field_mb (fields-mem_line b spaces n blank)
    ∙ ap (λ v. v / 1024) (parse_uint-format n lt)
