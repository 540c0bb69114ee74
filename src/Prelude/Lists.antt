-- ===== src/Prelude/Lists.antt =====
-- List functions over the native numbers and texts.
use Prim.Native.Nat.{ℕ, zero, suc, ◌+◌}
use Prim.Native.String.{String}
use mathlib.Core.Path.{◌≡◌, refl, ap, ◌∙◌, sym}
use mathlib.Core.Logic.{◌⊎◌, inl, inr}
use mathlib.Core.Bool.{Bool, true, false, ◌||◌}
use mathlib.Core.Option.{Option, none, some}
use mathlib.Core.List.{List, [], ◌∷◌, ◌++◌, map, Memᴰ}
use native.Mathlib.Omega.{arith}
use text.Mathlib.TextEquality.{eq_iff}
use text.Mathlib.Text.{◌==◌ as str_eq}
use gridlink.Prelude.Tests.{Option-cases, String-cases}

module _ {ℓ} {A : Type ℓ} where
  abbrev pub length : List A → ℕ
  length [] = 0
  length (x ∷ xs) = suc (length xs)

  abbrev pub get_elem? : List A → ℕ → Option A
  get_elem? [] i = none
  get_elem? (x ∷ xs) zero = some x
  get_elem? (x ∷ xs) (suc i) = get_elem? xs i

  pub length-append : (xs ys : List A) → length (xs ++ ys) ≡ length xs + length ys
  length-append [] ys = omega arith
  length-append (x ∷ xs) ys = omega (arith, length-append xs ys)

pub length-map {ℓ κ} :
    {A : Type ℓ} {B : Type κ} (f : A → B) (xs : List A) → length (map f xs) ≡ length xs
length-map f [] = refl
length-map f (x ∷ xs) = ap suc (length-map f xs)

-- A Go set of texts built from a slice, `map[string]bool`, read at a key.
unfoldable pub contains : String → List String → Bool
contains k [] = false
contains k (j ∷ js) = str_eq j k || contains k js

pub mem-cons_split {ℓ} :
    {A : Type ℓ} {a x : A} {xs : List A} → Memᴰ a (x ∷ xs) → (a ≡ x) ⊎ Memᴰ a xs
mem-cons_split (Memᴰ.head e) = inl e
mem-cons_split (Memᴰ.tail m) = inr m

-- A loop that appends what `f` yields, and skips where it yields nothing.
module _ {ℓ κ} {A : Type ℓ} {B : Type κ} (f : A → Option B) where
  unfoldable pub collect : List A → List B
  collect [] = []
  collect (x ∷ xs) = let rest = collect xs in elim (f x) [ none ↦ rest | some b ↦ b ∷ rest ]

  pub mem-collect :
      (b : B) (xs : List A) → Memᴰ b (collect xs) → (a : A) × Memᴰ a xs × (f a ≡ some b)
  unfolding collect
  mem-collect b [] h = elim h [ ]
  mem-collect b (x ∷ xs) h = elim (Option-cases (f x)) [
    | inl e ↦ let (a, at, p) = mem-collect b xs (rw (e, collect) at h) in (a, Memᴰ.tail at, p)
    | inr (c, e) ↦ elim (mem-cons_split (rw (e, collect) at h)) [
      | inl p ↦ (x, Memᴰ.head refl, e ∙ ap some (sym p))
      | inr m ↦ let (a, at, p) = mem-collect b xs m in (a, Memᴰ.tail at, p)
    ]
  ]

  pub collect_of_mem :
      (a : A) (b : B) (xs : List A) → Memᴰ a xs → f a ≡ some b → Memᴰ b (collect xs)
  unfolding collect
  collect_of_mem a b [] h e = elim h [ ]
  collect_of_mem a b (x ∷ xs) (Memᴰ.head p) e = rw (← p) (rw (e, collect) (Memᴰ.head refl))
  collect_of_mem a b (x ∷ xs) (Memᴰ.tail m) e = elim (Option-cases (f x)) [
    | inl q ↦ rw (q, collect) (collect_of_mem a b xs m e)
    | inr (c, q) ↦ rw (q, collect) (Memᴰ.tail (collect_of_mem a b xs m e))
  ]

pub contains_of_mem : (k : String) (xs : List String) → Memᴰ k xs → contains k xs ≡ true
unfolding contains
contains_of_mem k [] h = elim h [ ]
contains_of_mem k (x ∷ xs) (Memᴰ.head e) = ground (arith, eq_iff x k)
contains_of_mem k (x ∷ xs) (Memᴰ.tail h) = ground (arith, contains_of_mem k xs h)

pub mem_of_contains : (k : String) (xs : List String) → contains k xs ≡ true → Memᴰ k xs
unfolding contains
mem_of_contains k [] h = absurd (ground arith)
mem_of_contains k (x ∷ xs) h = elim (String-cases x k) [
  | inl (p, t) ↦ Memᴰ.head (sym p)
  | inr (p, t) ↦ Memᴰ.tail (mem_of_contains k xs (ground arith))
]

module _ {ℓ} {A : Type ℓ} (a : A) where
  pub mem-append_left : (xs ys : List A) → Memᴰ a xs → Memᴰ a (xs ++ ys)
  mem-append_left [] ys h = elim h [ ]
  mem-append_left (x ∷ xs) ys (Memᴰ.head e) = Memᴰ.head e
  mem-append_left (x ∷ xs) ys (Memᴰ.tail h) = Memᴰ.tail (mem-append_left xs ys h)

  pub mem-append_right : (xs ys : List A) → Memᴰ a ys → Memᴰ a (xs ++ ys)
  mem-append_right [] ys h = h
  mem-append_right (x ∷ xs) ys h = Memᴰ.tail (mem-append_right xs ys h)

  pub mem-append_split : (xs ys : List A) → Memᴰ a (xs ++ ys) → Memᴰ a xs ⊎ Memᴰ a ys
  mem-append_split [] ys h = inr h
  mem-append_split (x ∷ xs) ys (Memᴰ.head e) = inl (Memᴰ.head e)
  mem-append_split (x ∷ xs) ys (Memᴰ.tail h) = elim (mem-append_split xs ys h) [
    | inl m ↦ inl (Memᴰ.tail m)
    | inr m ↦ inr m
  ]
