-- ===== src/Probe/Smi/Lines.antt =====
-- The fields of a line of `nvidia-smi`, as agent/internal/gpu/detect.go cuts them.
use mathlib.Core.List.{append_assoc}
use mathlib.Core.Path.{subst}
use gridlink.Prelude.{
  ℕ, zero, suc, true, false, ◌≡◌, refl, ap, ◌∙◌, sym, ◌+◌, ◌-◌, ◌≤◌, ◌<◌, List, [], ◌∷◌, ◌++◌,
  Option, none, some, ltb, map, length, arith, Bool-cases, inl, inr, ltb→lt, length-append,
  length-map,
}
use gridlink.Bytes.{Bytes}
use gridlink.Bytes.Fields.{
  split, join, trim_space, Lacks, Lacks-append, split_first, split_alone, trim_space_leading,
}
use gridlink.Probe.Smi.{first_parts, other_parts, from_right, take_fields, split_smi_line}

length-other_parts : (k : ℕ) (parts : List Bytes) → length (other_parts k parts) ≡ length parts - k
unfolding other_parts
length-other_parts zero parts = omega arith
length-other_parts (suc k) [] = omega arith
length-other_parts (suc k) (p ∷ parts) = omega (arith, length-other_parts k parts)

length-from_right :
    (parts : List Bytes) (want : ℕ)
    → 1 ≤ want
    → want < length parts
    → length (from_right parts want) ≡ want
unfolding from_right
length-from_right parts want one more =
    omega (arith, length-other_parts (length parts - (want - 1)) parts)

between : (m n : ℕ) → ltb m n ≡ false → ltb n m ≡ false → m ≡ n
between m n f g = ground arith

at_least : (m n : ℕ) → ltb m n ≡ false → n ≤ m
at_least m n f = ground arith

-- The result has as many fields as are wanted, or there is none, and then the line has fewer parts.
abbrev pub HasFields : ℕ → ℕ → Option (List Bytes) → Type 0
HasFields parts want none = parts < want
HasFields parts want (some fields) = (length fields ≡ want) × (want ≤ parts)

take_fields-HasFields :
    (parts : List Bytes) (want : ℕ)
    → 1 ≤ want
    → HasFields (length parts) want (take_fields parts want)
unfolding take_fields
take_fields-HasFields parts want one = elim (Bool-cases (ltb (length parts) want)) [
  | inl t ↦ rw t (ltb→lt (length parts) want t)
  | inr f ↦ rw f (elim (Bool-cases (ltb want (length parts))) [
    | inl t ↦ rw t (
      length-from_right parts want one (ltb→lt want (length parts) t),
      at_least (length parts) want f,
    )
    | inr g ↦ rw g (between (length parts) want f g, at_least (length parts) want f)
  ])
]

-- A line is cut into as many fields as are wanted, unless it has fewer parts between its commas.
pub split_smi_line-HasFields :
    (line : Bytes) (want : ℕ)
    → 1 ≤ want
    → HasFields (length (split 44 line)) want (split_smi_line line want)
unfolding split_smi_line
split_smi_line-HasFields line want one =
    subst (λ n. HasFields n want (split_smi_line line want)) (length-map trim_space (split 44 line))
      (take_fields-HasFields (map trim_space (split 44 line)) want one)

-- The parts of a field that is printed: no comma, and no white space around it.
abbrev pub IsPart : Bytes → Type 0
IsPart p = Lacks 44 p × (trim_space p ≡ p)

abbrev pub AllParts : List Bytes → Type 0
AllParts [] = Unit
AllParts (p ∷ ps) = IsPart p × AllParts ps

abbrev pub comma_space : Bytes
comma_space = 44 ∷ 32 ∷ []

split_joined :
    (lead p : Bytes) (ps : List Bytes)
    → Lacks 44 lead
    → AllParts (p ∷ ps)
    → split 44 (lead ++ join comma_space (p ∷ ps)) ≡ (lead ++ p) ∷ map (λ q. 32 ∷ q) ps
unfolding join
split_joined lead p [] h ((lacks, _), _) =
    split_alone 44 (lead ++ p) (Lacks-append 44 lead p h lacks)
split_joined lead p (q ∷ ps) h ((lacks, _), rest) =
    ap (split 44) (
      sym (append_assoc lead (p ++ comma_space) (join comma_space (q ∷ ps)))
      ∙ ap (λ s. s ++ join comma_space (q ∷ ps)) (sym (append_assoc lead p comma_space))
      ∙ append_assoc (lead ++ p) comma_space (join comma_space (q ∷ ps)))
    ∙ split_first 44 (lead ++ p) (32 ∷ join comma_space (q ∷ ps)) (Lacks-append 44 lead p h lacks)
    ∙ ap (λ parts. (lead ++ p) ∷ parts) (split_joined (32 ∷ []) q ps (refl, tt) rest)

trim_spaced : (ps : List Bytes) → AllParts ps → map trim_space (map (λ q. 32 ∷ q) ps) ≡ ps
trim_spaced [] h = refl
trim_spaced (p ∷ ps) ((_, tight), rest) =
    λ i. (trim_space_leading p ∙ tight) i ∷ trim_spaced ps rest i

-- What is cut and trimmed of a line that is printed.
trimmed_joined :
    (p : Bytes) (ps : List Bytes)
    → AllParts (p ∷ ps)
    → map trim_space (split 44 (join comma_space (p ∷ ps))) ≡ p ∷ ps
trimmed_joined p ps ((lacks, tight), rest) =
    ap (map trim_space) (split_joined [] p ps tt ((lacks, tight), rest))
    ∙ (λ i. tight i ∷ trim_spaced ps rest i)

first_parts-append : (xs ys : List Bytes) → first_parts (length xs) (xs ++ ys) ≡ xs
unfolding first_parts
first_parts-append [] ys = refl
first_parts-append (x ∷ xs) ys = ap (λ zs. x ∷ zs) (first_parts-append xs ys)

other_parts-append : (xs ys : List Bytes) → other_parts (length xs) (xs ++ ys) ≡ ys
unfolding other_parts
other_parts-append [] ys = refl
other_parts-append (x ∷ xs) ys = other_parts-append xs ys

from_right-append :
    (names : List Bytes) (b c : Bytes)
    → from_right (names ++ b ∷ c ∷ []) 3 ≡ join comma_space names ∷ b ∷ c ∷ []
unfolding from_right
from_right-append names b c =
    let k : length (names ++ b ∷ c ∷ []) - (3 - 1) ≡ length names =
      omega (arith, length-append names (b ∷ c ∷ [])) in
    (λ i.
      join comma_space (first_parts (k i) (names ++ b ∷ c ∷ []))
      ∷ other_parts (k i) (names ++ b ∷ c ∷ []))
    ∙ (λ i.
        join comma_space (first_parts-append names (b ∷ c ∷ []) i)
        ∷ other_parts-append names (b ∷ c ∷ []) i)

take_fields_of :
    (n : Bytes) (names : List Bytes) (b c : Bytes)
    → take_fields (n ∷ (names ++ b ∷ c ∷ [])) 3 ≡ some (join comma_space (n ∷ names) ∷ b ∷ c ∷ [])
unfolding take_fields join
take_fields_of n [] b c = refl
take_fields_of n (m ∷ names) b c =
    let total : length (names ++ b ∷ c ∷ []) ≡ length names + 2 =
      length-append names (b ∷ c ∷ []) in
    rw (not_few (length (n ∷ m ∷ (names ++ b ∷ c ∷ []))) (omega (arith, total))) (
      rw (many (length (n ∷ m ∷ (names ++ b ∷ c ∷ []))) (omega (arith, total)))
        (ap some (from_right-append (n ∷ m ∷ names) b c)))
  where
    not_few : (k : ℕ) → 3 < k → ltb k 3 ≡ false
    not_few k lt = ground arith

    many : (k : ℕ) → 3 < k → ltb 3 k ≡ true
    many k lt = ground arith

AllParts-append : (xs ys : List Bytes) → AllParts xs → AllParts ys → AllParts (xs ++ ys)
AllParts-append [] ys hx hy = hy
AllParts-append (x ∷ xs) ys (px, hx) hy = (px, AllParts-append xs ys hx hy)

-- The line of a device whose name is printed with commas in it, its two other fields having none,
-- is read back as these three fields.
pub split_smi_line-join :
    (n : Bytes) (names : List Bytes) (b c : Bytes)
    → AllParts (n ∷ names)
    → IsPart b
    → IsPart c
    → split_smi_line (join comma_space (n ∷ (names ++ b ∷ c ∷ []))) 3
      ≡ some (join comma_space (n ∷ names) ∷ b ∷ c ∷ [])
unfolding split_smi_line
split_smi_line-join n names b c hn hb hc =
    ap (λ parts. take_fields parts 3)
      (trimmed_joined n (names ++ b ∷ c ∷ [])
        (AllParts-append (n ∷ names) (b ∷ c ∷ []) hn (hb, (hc, tt))))
    ∙ take_fields_of n names b c
