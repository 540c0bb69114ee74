-- ===== src/Bytes/Fields.antt =====
-- Cutting a Go string: `strings.TrimSpace`, `strings.Split` at one byte, `strings.Join`.
use mathlib.Core.List.{append-nil}
use gridlink.Prelude.{
  ℕ, zero, suc, Bool, true, Option, none, some, false, ◌≡◌, ◌≢◌, refl, ap, ◌∙◌, sym, ◌||◌, ◌&&◌,
  List, [], ◌∷◌, ◌++◌, ◌==◌, leb, if◌then◌else◌, arith,
}
use gridlink.Bytes.{Bytes}

unfoldable pub is_space : ℕ → Bool
is_space b = (b == 32) || (leb 9 b && leb b 13)

-- The characters of `unicode.IsSpace` beyond ASCII, by their two or three bytes.
abbrev pub wide_two : ℕ → ℕ → Bool
wide_two b c = (b == 194) && ((c == 133) || (c == 160))

abbrev pub wide_three : ℕ → ℕ → ℕ → Bool
wide_three b c d =
    ((b == 225) && (c == 154) && (d == 128))
    || ((b == 226)
        && (c == 128)
        && ((leb 128 d && leb d 138) || (d == 168) || (d == 169) || (d == 175)))
    || ((b == 226) && (c == 129) && (d == 159))
    || ((b == 227) && (c == 128) && (d == 128))

-- How many bytes follow the first of the white space with which a text begins, if it does.
unfoldable pub wide_at : ℕ → Bytes → Option ℕ
wide_at b [] = none
wide_at b (c ∷ []) = if wide_two b c then some 1 else none
wide_at b (c ∷ d ∷ s) = if wide_two b c then some 1 else if wide_three b c d then some 2 else none

unfoldable pub space_at : ℕ → Bytes → Option ℕ
unfolding is_space wide_at
space_at b s = if is_space b then some 0 else wide_at b s

-- With so many bytes left of the white space before.
unfoldable pub trim_left_from : ℕ → Bytes → Bytes
unfolding space_at
trim_left_from k [] = []
trim_left_from (suc k) (b ∷ s) = trim_left_from k s
trim_left_from zero (b ∷ s) = elim (space_at b s) [ none ↦ b ∷ s | some k ↦ trim_left_from k s ]

unfoldable pub trim_left : Bytes → Bytes
unfolding trim_left_from
trim_left s = trim_left_from zero s

-- The text is one character of white space.
unfoldable pub is_white : ℕ → Bytes → Bool
unfolding is_space
is_white b [] = is_space b
is_white b (c ∷ []) = wide_two b c
is_white b (c ∷ d ∷ []) = wide_three b c d
is_white b (c ∷ d ∷ e ∷ s) = false

-- A byte in front of what is kept of the text behind it.
unfoldable pub keep : ℕ → Bytes → Bytes
unfolding is_white
keep b s = if is_white b s then [] else b ∷ s

unfoldable pub trim_right : Bytes → Bytes
unfolding keep
trim_right [] = []
trim_right (b ∷ s) = keep b (trim_right s)

unfoldable pub trim_space : Bytes → Bytes
unfolding trim_left trim_right
trim_space s = trim_right (trim_left s)

-- `strings.Split(s, sep)` for a separator of one byte.
unfoldable pub onto : ℕ → List Bytes → List Bytes
onto b [] = (b ∷ []) ∷ []
onto b (part ∷ parts) = (b ∷ part) ∷ parts

unfoldable pub split : ℕ → Bytes → List Bytes
unfolding onto
split sep [] = [] ∷ []
split sep (b ∷ s) = let rest = split sep s in if b == sep then [] ∷ rest else onto b rest

unfoldable pub join : Bytes → List Bytes → Bytes
join sep [] = []
join sep (p ∷ []) = p
join sep (p ∷ q ∷ ps) = p ++ sep ++ join sep (q ∷ ps)

-- The byte is white space, or the first of white space beyond ASCII.
unfoldable pub begins_space : ℕ → Bool
unfolding is_space
begins_space b = is_space b || (b == 194) || (b == 225) || (b == 226) || (b == 227)

-- The text has no such byte.
abbrev pub NoSpace : Bytes → Type 0
NoSpace [] = Unit
NoSpace (b ∷ s) = (begins_space b ≡ false) × NoSpace s

pub no_ascii_space : (b : ℕ) → begins_space b ≡ false → is_space b ≡ false
unfolding begins_space
no_ascii_space b h = ground arith

abbrev pub Lacks : ℕ → Bytes → Type 0
Lacks sep [] = Unit
Lacks sep (b ∷ s) = ((b == sep) ≡ false) × Lacks sep s

not_white : (b : ℕ) (s : Bytes) → begins_space b ≡ false → is_white b s ≡ false
unfolding begins_space is_white
not_white b [] h = ground arith
not_white b (c ∷ []) h = ground arith
not_white b (c ∷ d ∷ []) h = ground arith
not_white b (c ∷ d ∷ e ∷ s) h = refl

pub no_space_at : (b : ℕ) (s : Bytes) → begins_space b ≡ false → space_at b s ≡ none
unfolding begins_space space_at wide_at
no_space_at b [] h = ground arith
no_space_at b (c ∷ []) h = ground arith
no_space_at b (c ∷ d ∷ s) h = ground arith

pub ascii_space_at : (b : ℕ) (s : Bytes) → is_space b ≡ true → space_at b s ≡ some 0
unfolding space_at
ascii_space_at b s h = rw h refl

keep_lem : (b : ℕ) (s : Bytes) → begins_space b ≡ false → keep b s ≡ b ∷ s
unfolding keep
keep_lem b s h = rw (not_white b s h) refl

self_eq : (b : ℕ) → (b == b) ≡ true
self_eq b = ground arith

trim_right-NoSpace : (s : Bytes) → NoSpace s → trim_right s ≡ s
unfolding trim_right
trim_right-NoSpace [] h = refl
trim_right-NoSpace (b ∷ s) (hb, hs) = ap (keep b) (trim_right-NoSpace s hs) ∙ keep_lem b s hb

trim_left-NoSpace : (s : Bytes) → NoSpace s → trim_left s ≡ s
unfolding trim_left trim_left_from
trim_left-NoSpace [] h = refl
trim_left-NoSpace (b ∷ s) (hb, hs) = rw (no_space_at b s hb, trim_left_from) refl

-- A text without white space is left as it is.
pub trim_space-NoSpace : (s : Bytes) → NoSpace s → trim_space s ≡ s
unfolding trim_space
trim_space-NoSpace s h = rw (trim_left-NoSpace s h) (trim_right-NoSpace s h)

pub NoSpace-append : (s t : Bytes) → NoSpace s → NoSpace t → NoSpace (s ++ t)
NoSpace-append [] t hs ht = ht
NoSpace-append (b ∷ s) t (hb, hs) ht = (hb, NoSpace-append s t hs ht)

-- White space behind a text without it is taken off.
trim_right_behind : (s t : Bytes) → NoSpace s → trim_right t ≡ [] → trim_right (s ++ t) ≡ s
unfolding trim_right
trim_right_behind [] t hs ht = ht
trim_right_behind (b ∷ s) t (hb, hs) ht =
    ap (keep b) (trim_right_behind s t hs ht) ∙ keep_lem b s hb

trim_left_behind : (s t : Bytes) → NoSpace s → s ≢ [] → trim_left (s ++ t) ≡ s ++ t
unfolding trim_left trim_left_from
trim_left_behind [] t hs ne = absurd (ne refl)
trim_left_behind (b ∷ s) t (hb, hs) ne = rw (no_space_at b (s ++ t) hb, trim_left_from) refl

pub trim_space_behind :
    (s t : Bytes) → NoSpace s → s ≢ [] → trim_right t ≡ [] → trim_space (s ++ t) ≡ s
unfolding trim_space
trim_space_behind s t hs ne ht = rw (trim_left_behind s t hs ne) (trim_right_behind s t hs ht)

-- A text without the separator is one part, in front of what follows it.
split-Lacks :
    (sep : ℕ) (s t : Bytes)
    → Lacks sep s
    → (first : Bytes) (more : List Bytes) → split sep t ≡ first ∷ more
    → split sep (s ++ t) ≡ (s ++ first) ∷ more
unfolding split
split-Lacks sep [] t h first more e = e
split-Lacks sep (b ∷ s) t (hb, hs) first more e =
    rw hb (ap (onto b) (split-Lacks sep s t hs first more e) ∙ unfold onto in refl)

pub split_at_sep : (sep : ℕ) (t : Bytes) → split sep (sep ∷ t) ≡ [] ∷ split sep t
unfolding split
split_at_sep sep t = rw (self_eq sep) refl

pub split_alone : (sep : ℕ) (s : Bytes) → Lacks sep s → split sep s ≡ s ∷ []
unfolding split
split_alone sep s h =
    ap (split sep) (sym (append-nil s))
    ∙ split-Lacks sep s [] h [] [] refl
    ∙ ap (λ x. x ∷ []) (append-nil s)

pub split_first : (sep : ℕ) (s t : Bytes) → Lacks sep s → split sep (s ++ sep ∷ t) ≡ s ∷ split sep t
split_first sep s t h =
    split-Lacks sep s (sep ∷ t) h [] (split sep t) (split_at_sep sep t)
    ∙ ap (λ x. x ∷ split sep t) (append-nil s)

pub Lacks-append : (sep : ℕ) (s t : Bytes) → Lacks sep s → Lacks sep t → Lacks sep (s ++ t)
Lacks-append sep [] t hs ht = ht
Lacks-append sep (b ∷ s) t (hb, hs) ht = (hb, Lacks-append sep s t hs ht)

pub trim_space_leading : (s : Bytes) → trim_space (32 ∷ s) ≡ trim_space s
unfolding trim_space trim_left trim_left_from space_at is_space
trim_space_leading s = refl
