-- ===== src/Bytes/Search.antt =====
-- The search in a Go string: `strings.HasPrefix`, `strings.Index` and `strings.Contains`.
use gridlink.Prelude.{
  ℕ, zero, suc, Bool, true, false, ◌≡◌, ◌≢◌, refl, ◌<◌, [], ◌∷◌, Option, none, some, if◌then◌else◌,
  ◌==◌, ◌&&◌, arith, Bool-cases, inl, inr,
}
use gridlink.Bytes.{Bytes, drop}

-- `strings.HasPrefix`
unfoldable pub has_prefix : Bytes → Bytes → Bool
has_prefix s [] = true
has_prefix [] (b ∷ p) = false
has_prefix (a ∷ s) (b ∷ p) = (a == b) && has_prefix s p

abbrev later : Option ℕ → Option ℕ
later none = none
later (some i) = some (suc i)

-- `strings.Index`, with -1 as `none`
unfoldable pub index : Bytes → Bytes → Option ℕ
unfolding has_prefix
index [] sub = if has_prefix [] sub then some 0 else none
index (b ∷ s) sub = let rest = index s sub in if has_prefix (b ∷ s) sub then some 0 else later rest

-- `strings.Contains`
unfoldable pub has_text : Bytes → Bytes → Bool
unfolding index
has_text s sub = elim (index s sub) [ none ↦ false | some i ↦ true ]

-- The text has the sequence at the place.
abbrev pub OccursAt : Bytes → Bytes → ℕ → Type 0
OccursAt s stop i = (stop ≢ []) × (has_prefix (drop s i) stop ≡ true)

abbrev pub Absent : Bytes → Bytes → ℕ → Type 0
Absent s stop bound = (i : ℕ) → i < bound → has_prefix (drop s i) stop ≡ true → stop ≡ []

-- Of the search for one sequence that is not empty.
abbrev pub IsFirst : Bytes → Bytes → Option ℕ → Type 0
IsFirst s stop none = (i : ℕ) → has_prefix (drop s i) stop ≡ true → stop ≡ []
IsFirst s stop (some i) = (has_prefix (drop s i) stop ≡ true) × Absent s stop i

nil_prefix : (stop : Bytes) (i : ℕ) → has_prefix (drop [] i) stop ≡ true → stop ≡ []
unfolding has_prefix drop
nil_prefix [] i h = refl
nil_prefix (b ∷ stop) i h = absurd (ground arith)

later_none :
    (b : ℕ) (s stop : Bytes)
    → has_prefix (b ∷ s) stop ≡ false
    → IsFirst s stop none
    → (i : ℕ) → has_prefix (drop (b ∷ s) i) stop ≡ true
    → stop ≡ []
unfolding drop
later_none b s stop f h zero p = absurd (cc)
later_none b s stop f h (suc j) p = h j p

later_some :
    (b : ℕ) (s stop : Bytes) (k : ℕ)
    → has_prefix (b ∷ s) stop ≡ false
    → Absent s stop k
    → Absent (b ∷ s) stop (suc k)
unfolding drop
later_some b s stop k f h zero lt p = absurd (cc)
later_some b s stop k f h (suc j) lt p = h j (omega arith) p

later-IsFirst :
    (b : ℕ) (s stop : Bytes) (o : Option ℕ)
    → has_prefix (b ∷ s) stop ≡ false
    → IsFirst s stop o
    → IsFirst (b ∷ s) stop (later o)
unfolding drop
later-IsFirst b s stop none f h = later_none b s stop f h
later-IsFirst b s stop (some k) f (at, before) = (at, later_some b s stop k f before)

pub index-IsFirst : (s stop : Bytes) → IsFirst s stop (index s stop)
unfolding index drop
index-IsFirst [] [] = (refl, λ i lt p. refl)
index-IsFirst [] (b ∷ stop) = λ i p. nil_prefix (b ∷ stop) i p
index-IsFirst (b ∷ s) stop = elim (Bool-cases (has_prefix (b ∷ s) stop)) [
  | inl t ↦ rw t (t, λ i lt p. absurd (omega arith))
  | inr f ↦ rw f (later-IsFirst b s stop (index s stop) f (index-IsFirst s stop))
]
