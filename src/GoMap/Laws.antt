-- ===== src/GoMap/Laws.antt =====
-- Lookup laws of Go maps, in `if` form, and the rules for iteration.
use mathlib.Core.Option
use mathlib.Core.List.{Memᴰ}
use gridlink.Prelude.{
  String, [], ◌∷◌, none, some, str_eq, if◌then◌else◌, ◌≡◌, ◌≢◌, refl, inl, inr, arith, eq_iff,
  String-cases,
}
use gridlink.GoMap.{GoMap, get, put, delete, values, Distinct, map_values}

module _ {ℓ} {V : Type ℓ} where
  pub get-put :
      (k j : String) (v : V) (m : GoMap V)
      → get j (put k v m) ≡ (if str_eq k j then some v else get j m)
  unfolding get put
  get-put k j v [] = refl
  get-put k j v ((i, w) ∷ m) = ground (arith, eq_iff k j, eq_iff i k, eq_iff i j, get-put k j v m)

  pub get-delete :
      (k j : String) (m : GoMap V) → get j (delete k m) ≡ (if str_eq k j then none else get j m)
  unfolding get delete
  get-delete k j [] = ground arith
  get-delete k j ((i, w) ∷ m) = ground (arith, eq_iff k j, eq_iff i k, eq_iff i j, get-delete k j m)

  pub get-put_self : (k : String) (v : V) (m : GoMap V) → get k (put k v m) ≡ some v
  get-put_self k v m = ground (arith, get-put k k v m, eq_iff k k)

  pub get-put_other : (k j : String) (v : V) (m : GoMap V) → k ≢ j → get j (put k v m) ≡ get j m
  get-put_other k j v m h = ground (arith, get-put k j v m, eq_iff k j)

  pub get-delete_self : (k : String) (m : GoMap V) → get k (delete k m) ≡ none
  get-delete_self k m = ground (arith, get-delete k k m, eq_iff k k)

  pub get-delete_other : (k j : String) (m : GoMap V) → k ≢ j → get j (delete k m) ≡ get j m
  get-delete_other k j m h = ground (arith, get-delete k j m, eq_iff k j)

  -- A new key that is taken back leaves no trace.
  pub get-delete-put :
      (k j : String) (v : V) (m : GoMap V) → get k m ≡ none → get j (delete k (put k v m)) ≡ get j m
  get-delete-put k j v m h = ground (arith, get-delete k j (put k v m), get-put k j v m, eq_iff k j)

  pub put-Distinct : (k : String) (v : V) (m : GoMap V) → Distinct m → Distinct (put k v m)
  unfolding put get
  put-Distinct k v [] d = (refl, tt)
  put-Distinct k v ((i, w) ∷ m) d =
      ground (arith, eq_iff i k, eq_iff k i, get-put k i v m, put-Distinct k v m d.1)

  pub delete-Distinct : (k : String) (m : GoMap V) → Distinct m → Distinct (delete k m)
  unfolding delete
  delete-Distinct k [] d = tt
  delete-Distinct k ((i, w) ∷ m) d =
      ground (arith, eq_iff k i, get-delete k i m, delete-Distinct k m d.1)

  -- A lookup hits a value that iteration visits.
  pub mem_of_get : (k : String) (v : V) (m : GoMap V) → get k m ≡ some v → Memᴰ v (values m)
  unfolding get values
  mem_of_get k v [] e = absurd (ground arith)
  mem_of_get k v ((i, w) ∷ m) e = elim (String-cases i k) [
    | inl (_, t) ↦ Memᴰ.head (ground arith)
    | inr (_, f) ↦ Memᴰ.tail (mem_of_get k v m (ground arith))
  ]

  -- Iteration visits only values that some lookup hits.
  pub get_of_mem :
      (v : V) (m : GoMap V) → Distinct m → Memᴰ v (values m) → (k : String) × (get k m ≡ some v)
  unfolding get values
  get_of_mem v [] d h = elim h [ ]
  get_of_mem v ((i, w) ∷ m) d (Memᴰ.head e) = (i, ground (arith, eq_iff i i))
  get_of_mem v ((i, w) ∷ m) d (Memᴰ.tail h) =
      let (k, e) = get_of_mem v m d.1 h in (k, ground (arith, eq_iff i k, d.0))

module _ {ℓ κ} {V : Type ℓ} {W : Type κ} (f : V → W) where
  pub get-map_values : (k : String) (m : GoMap V) → get k (map_values f m) ≡ Option.map f (get k m)
  unfolding get map_values
  get-map_values k [] = refl
  get-map_values k ((i, w) ∷ m) = ground (arith, get-map_values k m)

  pub map_values-Distinct : (m : GoMap V) → Distinct m → Distinct (map_values f m)
  unfolding map_values
  map_values-Distinct [] d = tt
  map_values-Distinct ((i, w) ∷ m) d = ground (arith, get-map_values i m, map_values-Distinct m d.1)
