-- ===== src/Bytes.antt =====
-- A Go string as the sequence of its bytes, with the operations on headers and lines.
pub mod Search
pub mod Utf8
pub mod Decimal
pub mod Fields
use Prim.Native.Char.{code}
use Prim.Native.String.{String}
use gridlink.Prelude.{
  ℕ, zero, suc, Bool, true, false, ◌≡◌, refl, ap, ◌+◌, ◌≤◌, ◌&&◌, List, [], ◌∷◌, ◌++◌, map, leb,
  ◌==◌, if◌then◌else◌, length, arith,
}

abbrev pub Bytes : Type 0
Bytes = List ℕ

-- `s == ""`
abbrev pub is_nil : Bytes → Bool
is_nil [] = true
is_nil (b ∷ s) = false

-- The bytes of a literal that is ASCII.
abbrev pub codes : String → Bytes
codes String.[] = []
codes (String.◌∷◌ c s) = code c ∷ codes s

-- `strings.EqualFold` on a text whose letters fold to ASCII letters only.
unfoldable pub lower : ℕ → ℕ
lower b = if leb 65 b && leb b 90 then b + 32 else b

unfoldable pub bytes_eq : Bytes → Bytes → Bool
bytes_eq [] [] = true
bytes_eq (a ∷ xs) (b ∷ ys) = (a == b) && bytes_eq xs ys
bytes_eq _ _ = false

unfoldable pub equal_fold : Bytes → Bytes → Bool
unfolding lower bytes_eq
equal_fold xs ys = bytes_eq (map lower xs) (map lower ys)

-- `s[:n]` and `s[n:]`
unfoldable pub take : Bytes → ℕ → Bytes
take [] n = []
take (b ∷ ys) zero = []
take (b ∷ ys) (suc n) = b ∷ take ys n

unfoldable pub drop : Bytes → ℕ → Bytes
drop [] n = []
drop (b ∷ ys) zero = b ∷ ys
drop (b ∷ ys) (suc n) = drop ys n

pub bytes_eq_sound : (xs ys : Bytes) → bytes_eq xs ys ≡ true → xs ≡ ys
unfolding bytes_eq
bytes_eq_sound [] [] h = refl
bytes_eq_sound [] (b ∷ ys) h = absurd (ground arith)
bytes_eq_sound (a ∷ xs) [] h = absurd (ground arith)
bytes_eq_sound (a ∷ xs) (b ∷ ys) h = ground (arith, bytes_eq_sound xs ys)

pub bytes_eq_refl : (xs : Bytes) → bytes_eq xs xs ≡ true
unfolding bytes_eq
bytes_eq_refl [] = refl
bytes_eq_refl (a ∷ xs) = ground (arith, bytes_eq_refl xs)

pub take-drop : (ys : Bytes) (n : ℕ) → take ys n ++ drop ys n ≡ ys
unfolding take drop
take-drop [] n = refl
take-drop (b ∷ ys) zero = refl
take-drop (b ∷ ys) (suc n) = ap (λ zs. b ∷ zs) (take-drop ys n)

pub take-append : (xs ys : Bytes) → take (xs ++ ys) (length xs) ≡ xs
unfolding take
take-append [] [] = refl
take-append [] (b ∷ ys) = refl
take-append (a ∷ xs) ys = ap (λ zs. a ∷ zs) (take-append xs ys)

pub drop-append : (xs ys : Bytes) → drop (xs ++ ys) (length xs) ≡ ys
unfolding drop
drop-append [] [] = refl
drop-append [] (b ∷ ys) = refl
drop-append (a ∷ xs) ys = drop-append xs ys

pub length-map-lower : (xs : Bytes) → length (map lower xs) ≡ length xs
length-map-lower [] = refl
length-map-lower (x ∷ xs) = ap suc (length-map-lower xs)

pub length-take_le : (ys : Bytes) (n : ℕ) → length (take ys n) ≤ n
unfolding take
length-take_le [] n = omega arith
length-take_le (b ∷ ys) zero = omega arith
length-take_le (b ∷ ys) (suc n) = omega (arith, length-take_le ys n)
