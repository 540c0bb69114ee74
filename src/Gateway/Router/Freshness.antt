-- ===== src/Gateway/Router/Freshness.antt =====
-- The cache of gateway/internal/router/router.go and the age of what is in it.
use mathlib.Core.Path.{subst}
use mathlib.Core.List.{Memᴰ}
use gridlink.Prelude.{
  String, ◌≡◌, refl, sym, ap, ◌∙◌, ◌+◌, ◌==◌, ◌<◌, inl, inr, List, [], ◌∷◌, Option, none, some,
  some_inj, Time, length, Bool-cases, Option-cases, String-cases, Result-cases, ok, arith,
}
use gridlink.GoMap.{get, put}
use gridlink.GoMap.Laws.{get-put, get-put_self}
use gridlink.Deployments.Queries.{Route}
use gridlink.Gateway.Router.{
  Entry, Router, Lookup, cache_ttl, cached, some_ready, refreshed, refresh, replicas, choose, pick,
  pick_excluding, invalidate,
}

-- A call of the router. Each comes with what it finds outside and its model.
pub data Call : Type 0 where
  picks : Call
  excludes : String → Call
  invalidates : Call

abbrev pub History : Type 0
History = List (Lookup × String × Call)

unfoldable pub step : Router → Lookup × String × Call → Router
step r (l, model, picks) = (pick l r model).0
step r (l, model, excludes id) = (pick_excluding l r model id).0
step r (l, model, invalidates) = invalidate r model

unfoldable pub run : Router → History → Router
unfolding step
run r [] = r
run r (c ∷ cs) = run (step r c) cs

-- A call of the history was answered with these replicas of the model at that time.
pub record IsAnswer (h : History) (model : String) (reps : List Route) (t : Time) : Type 0 where
  pub lookup : Lookup
  pub call : Call
  pub made : Memᴰ (lookup, model, call) h
  pub answer : lookup.answer ≡ ok reps
  pub time : lookup.answered_at ≡ t

-- Every entry of the cache is an answer that the coordinator gave.
abbrev pub IsBacked : History → Router → Type 0
IsBacked h r =
    (model : String) (e : Entry)
    → get model r.cache ≡ some e
    → IsAnswer h model e.replicas e.fetched_at

put-IsBacked :
    (h : History) (r : Router) (model : String) (e : Entry)
    → IsBacked h r
    → IsAnswer h model e.replicas e.fetched_at
    → IsBacked h (record r { cache = put model e r.cache })
put-IsBacked h r model e b a m x q = elim (String-cases model m) [
  | inl (p, t) ↦ rw (← p) (
      subst (λ y. IsAnswer h model y.replicas y.fetched_at)
        (some_inj (sym (get-put_self model e r.cache) ∙ (rw (← p) at q))) a)
  | inr (p, f) ↦ b m x (ground (arith, get-put model m e r.cache))
]

refreshed_lem :
    (now : Time) (reps : List Route) (o : Option Entry)
    → ((refreshed now reps o).replicas ≡ reps) × ((refreshed now reps o).fetched_at ≡ now)
unfolding refreshed
refreshed_lem now reps none = (refl, refl)
refreshed_lem now reps (some e) = (refl, refl)

refresh-IsBacked :
    (h : History) (l : Lookup) (c : Call) (r : Router) (model : String)
    → Memᴰ (l, model, c) h
    → IsBacked h r
    → IsBacked h (refresh l r model).0
unfolding refresh
refresh-IsBacked h l c r model m b = elim (Bool-cases r.connected) [
  | inr f ↦ rw (f, refresh) b
  | inl t ↦ elim (Result-cases l.answer) [
    | inr (e, p) ↦ rw (t, refresh) (rw p b)
    | inl (reps, p) ↦
        rw (t, refresh)
          (rw p (
            put-IsBacked h r model _ b (record {
              lookup = l;
              call = c;
              made = m;
              answer = p ∙ ap ok (sym (refreshed_lem l.answered_at reps (get model r.cache)).0);
              time = sym (refreshed_lem l.answered_at reps (get model r.cache)).1;
            })))
  ]
]

pub replicas-IsBacked :
    (h : History) (l : Lookup) (c : Call) (r : Router) (model : String)
    → Memᴰ (l, model, c) h
    → IsBacked h r
    → IsBacked h (replicas l r model).0
unfolding replicas
replicas-IsBacked h l c r model m b =
    elim (Option-cases (cached l.checked_at (get model r.cache))) [
      | inl e ↦ rw (e, replicas) (refresh-IsBacked h l c r model m b)
      | inr (reps, e) ↦ rw (e, replicas) b
    ]

pub choose-IsBacked :
    (h : History) (r : Router) (model : String) (reps : List Route)
    → IsBacked h r
    → IsBacked h (choose r model reps).0
unfolding choose
choose-IsBacked h r model reps b = elim (Option-cases (get model r.cache)) [
  | inl e ↦ rw (e, choose) b
  | inr (x, e) ↦ elim (Bool-cases (length x.replicas == 0)) [
    | inl t ↦ rw (e, choose) (rw t b)
    | inr f ↦
        rw (e, choose)
          (rw f (put-IsBacked h r model (record x { next = x.next + 1 }) b (b model x e)))
  ]
]

some_ready_ok : (xs ys : List Route) → some_ready xs ≡ ok ys → (xs ≡ ys) × (0 < length ys)
unfolding some_ready
some_ready_ok [] ys h = absurd (ground arith)
some_ready_ok (x ∷ xs) [] h = absurd (ground arith)
some_ready_ok (x ∷ xs) (y ∷ ys) h = (ground arith, omega arith)

refresh-entry :
    (l : Lookup) (r : Router) (model : String) (reps : List Route)
    → (refresh l r model).1 ≡ ok reps
    → ((e : Entry) × (get model (refresh l r model).0.cache ≡ some e)
        × (e.replicas ≡ reps)
        × (0 < length reps))
      × (l.answer ≡ ok reps)
unfolding refresh
refresh-entry l r model reps h = elim (Bool-cases r.connected) [
  | inr f ↦ absurd (ground arith)
  | inl t ↦ elim (Result-cases l.answer) [
    | inr (e, p) ↦ absurd (ground arith)
    | inl (xs, p) ↦
        let (same, more) = some_ready_ok xs reps (rw p at (rw (t, refresh) at h)) in
        rw (t, refresh)
          (rw p (
            (
              _,
              get-put_self model _ r.cache,
              (refreshed_lem l.answered_at xs (get model r.cache)).0 ∙ same,
              more,
            ),
            ap ok same,
          ))
  ]
]

-- The replicas are in the cache and not too old, or the coordinator has just answered with them.
pub data IsCurrent (h : History) (l : Lookup) (model : String) (reps : List Route) : Type 0 where
  kept :
      (t : Time) → IsAnswer h model reps t → l.checked_at < t + cache_ttl → IsCurrent h l model reps
  asked : l.answer ≡ ok reps → IsCurrent h l model reps

cached_lem :
    (now : Time) (o : Option Entry) (reps : List Route)
    → cached now o ≡ some reps
    → (e : Entry) × (o ≡ some e) × (e.replicas ≡ reps) × (now < e.fetched_at + cache_ttl)
unfolding cached
cached_lem now none reps h = absurd (ground arith)
cached_lem now (some e) reps h = (e, refl, ground arith, ground arith)

-- What `replicas` gives is what the cache has then; it is current, and not empty.
pub replicas_lem :
    (h : History) (l : Lookup) (r : Router) (model : String) (reps : List Route)
    → IsBacked h r
    → (replicas l r model).1 ≡ ok reps
    → ((e : Entry) × (get model (replicas l r model).0.cache ≡ some e)
        × (e.replicas ≡ reps)
        × (0 < length reps))
      × IsCurrent h l model reps
unfolding replicas
replicas_lem h l r model reps b q = elim (Option-cases (cached l.checked_at (get model r.cache))) [
  | inl e ↦
      let (entry, answer) = refresh-entry l r model reps (rw (e, replicas) at q) in
      rw (e, replicas) (entry, asked answer)
  | inr (xs, e) ↦
      let (same, more) = some_ready_ok xs reps (rw (e, replicas) at q) in
      let (x, found, has, young) = cached_lem l.checked_at (get model r.cache) xs e in
      rw (e, replicas)
        (
          (x, found, has ∙ same, more),
          kept x.fetched_at
              (subst (λ y. IsAnswer h model y x.fetched_at) (has ∙ same) (b model x found)) young,
        )
]
