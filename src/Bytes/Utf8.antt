-- ===== src/Bytes/Utf8.antt =====
-- Invalid UTF-8 in a Go string: `json.Marshal` writes U+FFFD for each byte at which
-- `utf8.DecodeRuneInString` finds no character.
use gridlink.Prelude.{
  ℕ, zero, suc, Bool, true, false, ◌≡◌, ◌&&◌, refl, ap, List, [], ◌∷◌, ◌++◌, Option, none, some,
  ltb, leb, ◌==◌, if◌then◌else◌, length, arith,
}
use gridlink.Bytes.{Bytes}

-- The least and the greatest byte that may follow, for each of those that do.
abbrev pub Followers : Type 0
Followers = List (ℕ × ℕ)

-- What follows the first byte of a character.
unfoldable pub followers : ℕ → Option Followers
followers b =
    if ltb b 128
    then some []
    else if ltb b 194
    then none
    else if ltb b 224
    then some ((128, 191) ∷ [])
    else if b == 224
    then some ((160, 191) ∷ (128, 191) ∷ [])
    else if b == 237
    then some ((128, 159) ∷ (128, 191) ∷ [])
    else if ltb b 240
    then some ((128, 191) ∷ (128, 191) ∷ [])
    else if b == 240
    then some ((144, 191) ∷ (128, 191) ∷ (128, 191) ∷ [])
    else if ltb b 244
    then some ((128, 191) ∷ (128, 191) ∷ (128, 191) ∷ [])
    else if b == 244
    then some ((128, 143) ∷ (128, 191) ∷ (128, 191) ∷ [])
    else none

unfoldable pub fits : Followers → Bytes → Bool
fits [] s = true
fits (r ∷ rs) [] = false
fits ((low, high) ∷ rs) (b ∷ s) = leb low b && leb b high && fits rs s

unfoldable pub width_at : Option Followers → Bytes → Option ℕ
unfolding fits
width_at none s = none
width_at (some rs) s = if fits rs s then some (length rs) else none

-- How many bytes follow the first of the character with which the text begins, if it is one.
unfoldable pub rest_of_char : ℕ → Bytes → Option ℕ
unfolding followers width_at
rest_of_char b s = width_at (followers b) s

-- With so many bytes left of the character before.
unfoldable pub to_valid_from : ℕ → Bytes → Bytes
unfolding rest_of_char
to_valid_from k [] = []
to_valid_from (suc k) (b ∷ s) = b ∷ to_valid_from k s
to_valid_from zero (b ∷ s) = elim (rest_of_char b s) [
  | none ↦ 239 ∷ 191 ∷ 189 ∷ to_valid_from zero s
  | some k ↦ b ∷ to_valid_from k s
]

unfoldable pub to_valid : Bytes → Bytes
unfolding to_valid_from
to_valid s = to_valid_from zero s

-- The text is made of whole characters, behind so many bytes of one.
abbrev pub IsText : ℕ → Bytes → Type 0
IsText zero [] = Unit
IsText (suc k) [] = ⊥
IsText (suc k) (b ∷ s) = IsText k s
IsText zero (b ∷ s) = (k : ℕ) × (rest_of_char b s ≡ some k) × IsText k s

fits-append : (rs : Followers) (s t : Bytes) → fits rs s ≡ true → fits rs (s ++ t) ≡ true
unfolding fits
fits-append [] s t h = refl
fits-append (r ∷ rs) [] t h = absurd (ground arith)
fits-append ((low, high) ∷ rs) (b ∷ s) t h = ground (arith, fits-append rs s t)

width_at-append :
    (o : Option Followers) (s t : Bytes) (k : ℕ)
    → width_at o s ≡ some k
    → width_at o (s ++ t) ≡ some k
unfolding width_at
width_at-append none s t k h = absurd (cc)
width_at-append (some rs) s t k h = ground (arith, fits-append rs s t)

pub IsText-append : (k : ℕ) (x y : Bytes) → IsText k x → IsText zero y → IsText k (x ++ y)
unfolding rest_of_char
IsText-append zero [] y h hy = hy
IsText-append (suc k) [] y h hy = absurd h
IsText-append (suc k) (b ∷ x) y h hy = IsText-append k x y h hy
IsText-append zero (b ∷ x) y (k, e, h) hy =
    (k, width_at-append (followers b) x y k e, IsText-append k x y h hy)

to_valid_from-IsText : (k : ℕ) (s : Bytes) → IsText k s → to_valid_from k s ≡ s
unfolding to_valid_from
to_valid_from-IsText zero [] h = refl
to_valid_from-IsText (suc k) [] h = absurd h
to_valid_from-IsText (suc k) (b ∷ s) h = ap (λ t. b ∷ t) (to_valid_from-IsText k s h)
to_valid_from-IsText zero (b ∷ s) (k, e, h) =
    rw (e, to_valid_from) (ap (λ t. b ∷ t) (to_valid_from-IsText k s h))

pub to_valid-IsText : (s : Bytes) → IsText zero s → to_valid s ≡ s
unfolding to_valid
to_valid-IsText s h = to_valid_from-IsText zero s h
