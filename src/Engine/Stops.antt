-- ===== src/Engine/Stops.antt =====
-- `indexAnyStop` of agent/internal/engine/engine.go.
use mathlib.Core.List.{Memᴰ}
use gridlink.Prelude.{
  ℕ, true, ◌≡◌, ◌≢◌, ◌⊎◌, inl, inr, refl, ◌∙◌, ◌≤◌, List, [], ◌∷◌, Option, none, some, ltb,
  if◌then◌else◌, arith, Bool-cases, mem-cons_split,
}
use gridlink.Bytes.{Bytes, is_nil, drop}
use gridlink.Bytes.Search.{has_prefix, index, OccursAt, Absent, IsFirst, index-IsFirst}

-- `if i >= 0 && (best < 0 || i < best) { best = i }`
unfoldable pub better : Option ℕ → Option ℕ → Option ℕ
better best none = best
better none (some i) = some i
better (some b) (some i) = if ltb i b then some i else some b

unfoldable pub index_from : Bytes → List Bytes → Option ℕ → Option ℕ
unfolding index better
index_from s [] best = best
index_from s (stop ∷ stops) best =
    let skipped = index_from s stops best in
    let searched = index_from s stops (better best (index s stop)) in
    if is_nil stop then skipped else searched

unfoldable pub index_any_stop : Bytes → List Bytes → Option ℕ
unfolding index_from
index_any_stop s stops = index_from s stops none

-- What is known of the best place once the sequences `seen` are searched.
abbrev pub IsBest : Bytes → List Bytes → Option ℕ → Type 0
IsBest s seen none =
    (stop : Bytes) → Memᴰ stop seen → (i : ℕ) → has_prefix (drop s i) stop ≡ true → stop ≡ []
IsBest s seen (some i) =
    ((stop : Bytes) × Memᴰ stop seen × OccursAt s stop i)
    × ((stop : Bytes) → Memᴰ stop seen → Absent s stop i)

IsBest-none :
    (s stop : Bytes) (seen : List Bytes)
    → IsFirst s stop none
    → IsBest s seen none
    → IsBest s (stop ∷ seen) none
IsBest-none s stop seen h all other (Memᴰ.head e) i p = e ∙ h i (rw (← e) p)
IsBest-none s stop seen h all other (Memᴰ.tail m) i p = all other m i p

-- A sequence that does not occur before a place is added to those that do not.
Absent-cons :
    (s stop : Bytes) (seen : List Bytes) (k : ℕ)
    → Absent s stop k
    → ((other : Bytes) → Memᴰ other seen → Absent s other k)
    → (other : Bytes) → Memᴰ other (stop ∷ seen)
    → Absent s other k
Absent-cons s stop seen k h all other (Memᴰ.head e) i lt p = e ∙ h i lt (rw (← e) p)
Absent-cons s stop seen k h all other (Memᴰ.tail m) i lt p = all other m i lt p

Absent-below : (s stop : Bytes) (k n : ℕ) → k ≤ n → Absent s stop n → Absent s stop k
Absent-below s stop k n le h i lt p = h i (omega arith) p

better-IsBest :
    (s stop : Bytes) (seen : List Bytes) (best o : Option ℕ)
    → stop ≢ []
    → IsFirst s stop o
    → IsBest s seen best
    → IsBest s (stop ∷ seen) (better best o)
unfolding better
better-IsBest s stop seen none none ne h all = IsBest-none s stop seen h all
better-IsBest s stop seen (some b) none ne h ((at, mem, occ), before) =
    ((at, Memᴰ.tail mem, occ), Absent-cons s stop seen b (λ i lt p. h i p) before)
better-IsBest s stop seen none (some i) ne (at, before) all = (
  (stop, Memᴰ.head refl, (ne, at)),
  Absent-cons s stop seen i before (λ other m j lt p. all other m j p),
)
better-IsBest s stop seen (some b) (some i) ne (at, before) ((other, mem, occ), rest) =
    elim (Bool-cases (ltb i b)) [
      | inl t ↦ rw t (
        (stop, Memᴰ.head refl, (ne, at)),
        Absent-cons s stop seen i before (λ o m. Absent-below s o i b (ground arith) (rest o m)),
      )
      | inr f ↦ rw f (
        (other, Memᴰ.tail mem, occ),
        Absent-cons s stop seen b (Absent-below s stop b i (ground arith) before) rest,
      )
    ]

-- An empty sequence is passed over.
skipped-IsBest :
    (s : Bytes) (seen : List Bytes) (best : Option ℕ)
    → IsBest s seen best
    → IsBest s ([] ∷ seen) best
skipped-IsBest s seen none all =
    λ other m i p. elim (mem-cons_split m) [ inl e ↦ e | inr n ↦ all other n i p ]
skipped-IsBest s seen (some b) ((other, mem, occ), rest) =
    ((other, Memᴰ.tail mem, occ), Absent-cons s [] seen b (λ i lt p. refl) rest)

behind : List Bytes → List Bytes → List Bytes
behind [] seen = seen
behind (x ∷ xs) seen = behind xs (x ∷ seen)

from_IsBest :
    (s : Bytes) (stops seen : List Bytes) (best : Option ℕ)
    → IsBest s seen best
    → IsBest s (behind stops seen) (index_from s stops best)
unfolding index_from behind
from_IsBest s [] seen best h = h
from_IsBest s ([] ∷ stops) seen best h = from_IsBest s stops _ best (skipped-IsBest s seen best h)
from_IsBest s ((b ∷ p) ∷ stops) seen best h = from_IsBest s stops _ _ (
    better-IsBest s (b ∷ p) seen best (index s (b ∷ p)) (λ e. absurd (cc)) (index-IsFirst s (b ∷ p))
      h)

mem-behind : (x : Bytes) (xs seen : List Bytes) → Memᴰ x (behind xs seen) → Memᴰ x xs ⊎ Memᴰ x seen
unfolding behind
mem-behind x [] seen h = inr h
mem-behind x (y ∷ xs) seen h = elim (mem-behind x xs (y ∷ seen) h) [
  | inl m ↦ inl (Memᴰ.tail m)
  | inr m ↦ elim (mem-cons_split m) [ inl e ↦ inl (Memᴰ.head e) | inr n ↦ inr n ]
]

behind_right : (x : Bytes) (xs seen : List Bytes) → Memᴰ x seen → Memᴰ x (behind xs seen)
unfolding behind
behind_right x [] seen h = h
behind_right x (y ∷ xs) seen h = behind_right x xs (y ∷ seen) (Memᴰ.tail h)

behind_left : (x : Bytes) (xs seen : List Bytes) → Memᴰ x xs → Memᴰ x (behind xs seen)
unfolding behind
behind_left x [] seen h = elim h [ ]
behind_left x (y ∷ xs) seen (Memᴰ.head e) = behind_right x xs (y ∷ seen) (Memᴰ.head e)
behind_left x (y ∷ xs) seen (Memᴰ.tail m) = behind_left x xs (y ∷ seen) m

IsBest-of_behind :
    (s : Bytes) (stops : List Bytes) (o : Option ℕ)
    → IsBest s (behind stops []) o
    → IsBest s stops o
IsBest-of_behind s stops none h = λ stop m i p. h stop (behind_left stop stops [] m) i p
IsBest-of_behind s stops (some i) ((stop, mem, occ), rest) = (
  (stop, elim (mem-behind stop stops [] mem) [ inl m ↦ m | inr m ↦ elim m [ ] ], occ),
  λ other m. rest other (behind_left other stops [] m),
)

-- The place that is found is the first at which the text has one of the sequences, those that are
-- empty left out; none is found exactly if the text has none of them.
pub index_any_stop-IsBest :
    (s : Bytes) (stops : List Bytes) → IsBest s stops (index_any_stop s stops)
unfolding index_any_stop
index_any_stop-IsBest s stops =
    IsBest-of_behind s stops _ (from_IsBest s stops [] none (λ stop m i p. elim m [ ]))
