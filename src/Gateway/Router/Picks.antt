-- ===== src/Gateway/Router/Picks.antt =====
-- What `Pick` and `PickExcluding` of gateway/internal/router/router.go give.
use mathlib.Core.List.{Memᴰ}
use mathlib.Core.Path.{subst}
use native.Mathlib.Nat.{mod-lt}
use gridlink.Prelude.{
  ℕ, zero, suc, String, Bool, false, ◌≡◌, ◌≢◌, refl, sym, ◌∙◌, ◌%◌, ◌==◌, ◌<◌, inl, inr, List, [],
  ◌∷◌, some, length, is_empty, Bool-cases, String-cases, Result-cases, ok_inj, ok, arith,
}
use gridlink.GoMap.{get}
use gridlink.GoMap.Laws.{get-delete}
use gridlink.Deployments.Queries.{Route}
use gridlink.Gateway.Router.{
  Entry, Router, Lookup, new, replicas, index, choose, pick, first_other, pick_excluding,
  invalidate,
}
use gridlink.Gateway.Router.Freshness.{
  Call, picks, excludes, invalidates, History, step, run, IsBacked, IsCurrent, replicas-IsBacked,
  choose-IsBacked, replicas_lem,
}

index_lem :
    (reps : List Route) (i : ℕ)
    → i < length reps
    → (rep : Route) × (index reps i ≡ ok rep) × Memᴰ rep reps
unfolding index
index_lem [] i h = absurd (omega arith)
index_lem (x ∷ xs) zero h = (x, refl, Memᴰ.head refl)
index_lem (x ∷ xs) (suc i) h =
    let (rep, e, m) = index_lem xs i (omega arith) in (rep, e, Memᴰ.tail m)

-- With an entry in the cache the next of its replicas is taken.
pub choose_lem :
    (r : Router) (model : String) (reps : List Route) (e : Entry)
    → get model r.cache ≡ some e
    → 0 < length e.replicas
    → (rep : Route) × ((choose r model reps).1 ≡ ok rep)
      × (index e.replicas (e.next % length e.replicas) ≡ ok rep)
      × Memᴰ rep e.replicas
unfolding choose
choose_lem r model reps e q more =
    let (rep, at, m) = index_lem e.replicas (e.next % length e.replicas) (mod-lt _ more) in
    (rep, rw (q, choose) (rw nonempty at), at, m)
  where
    nonempty : (length e.replicas == 0) ≡ false
    nonempty = ground arith

pick-IsBacked :
    (h : History) (l : Lookup) (c : Call) (r : Router) (model : String)
    → Memᴰ (l, model, c) h
    → IsBacked h r
    → IsBacked h (pick l r model).0
unfolding pick
pick-IsBacked h l c r model m b = elim (Bool-cases (is_empty model)) [
  | inl t ↦ rw (t, pick) b
  | inr f ↦ elim (Result-cases (replicas l r model).1) [
    | inr (e, p) ↦ rw (f, pick) (rw p (replicas-IsBacked h l c r model m b))
    | inl (reps, p) ↦
        rw (f, pick) (rw p (choose-IsBacked h _ model reps (replicas-IsBacked h l c r model m b)))
  ]
]

step-IsBacked :
    (h : History) (l : Lookup) (model : String) (c : Call) (r : Router)
    → Memᴰ (l, model, c) h
    → IsBacked h r
    → IsBacked h (step r (l, model, c))
unfolding step pick_excluding invalidate
step-IsBacked h l model picks r m b = pick-IsBacked h l picks r model m b
step-IsBacked h l model (excludes id) r m b = replicas-IsBacked h l (excludes id) r model m b
step-IsBacked h l model invalidates r m b =
    λ k e q. b k e (ground (arith, get-delete model k r.cache))

run_from-IsBacked :
    (h cs : History) (r : Router)
    → ((c : Lookup × String × Call) → Memᴰ c cs → Memᴰ c h)
    → IsBacked h r
    → IsBacked h (run r cs)
unfolding run
run_from-IsBacked h [] r within b = b
run_from-IsBacked h ((l, model, c) ∷ cs) r within b =
    run_from-IsBacked h cs (step r (l, model, c)) (λ d m. within d (Memᴰ.tail m))
      (step-IsBacked h l model c r (within (l, model, c) (Memᴰ.head refl)) b)

run-IsBacked : (h : History) (connected : Bool) → IsBacked h (run (new connected) h)
unfolding new get
run-IsBacked h connected =
    run_from-IsBacked h h (new connected) (λ c m. m) (λ model e q. absurd (ground arith))

-- Whatever calls the router had before: a replica that `Pick` gives is in a list of replicas of
-- that model with which the coordinator answered an earlier call less than two seconds ago, or
-- answered this one.
pub pick-IsCurrent :
    (h : History) (connected : Bool) (l : Lookup) (model : String) (rep : Route)
    → (pick l (run (new connected) h) model).1 ≡ ok rep
    → (reps : List Route) × Memᴰ rep reps × IsCurrent h l model reps
unfolding pick
pick-IsCurrent h connected l model rep q =
    let r = run (new connected) h in
    elim (Bool-cases (is_empty model)) [
      | inl t ↦ absurd (ground arith)
      | inr f ↦ elim (Result-cases (replicas l r model).1) [
        | inr (e, p) ↦ absurd (ground arith)
        | inl (reps, p) ↦
            let ((e, found, has, more), current) =
              replicas_lem h l r model reps (run-IsBacked h connected) p in
            let (x, chosen, _, m) =
              choose_lem (replicas l r model).0 model reps e found (rw has more) in
            (
              reps,
              subst (λ ys. Memᴰ rep ys) has
                  (subst (λ y. Memᴰ y e.replicas)
                    (ok_inj (sym chosen ∙ (rw p at (rw (f, pick) at q)))) m),
              current,
            )
      ]
    ]

pub first_other_lem :
    (excluded : String) (reps : List Route) (rep : Route)
    → first_other excluded reps ≡ ok rep
    → Memᴰ rep reps × (rep.deployment_id ≢ excluded)
unfolding first_other
first_other_lem excluded [] rep h = absurd (ground arith)
first_other_lem excluded (x ∷ xs) rep h = elim (String-cases x.deployment_id excluded) [
  | inl (_, t) ↦
      let (m, other) = first_other_lem excluded xs rep (rw t at h) in (Memᴰ.tail m, other)
  | inr (p, f) ↦
      let same = ok_inj (rw f at h) in
      (Memᴰ.head (sym same), subst (λ y. y.deployment_id ≢ excluded) same p)
]

-- Whatever calls the router had before: a replica that `PickExcluding` gives is as current as one
-- that `Pick` gives, and is not of the excluded deployment.
pub pick_excluding-IsCurrent :
    (h : History) (connected : Bool) (l : Lookup) (model excluded : String) (rep : Route)
    → (pick_excluding l (run (new connected) h) model excluded).1 ≡ ok rep
    → ((reps : List Route) × Memᴰ rep reps × IsCurrent h l model reps)
      × (rep.deployment_id ≢ excluded)
unfolding pick_excluding
pick_excluding-IsCurrent h connected l model excluded rep q =
    let r = run (new connected) h in
    elim (Result-cases (replicas l r model).1) [
      | inr (e, p) ↦ absurd (ground arith)
      | inl (reps, p) ↦
          let (_, current) = replicas_lem h l r model reps (run-IsBacked h connected) p in
          let (m, other) = first_other_lem excluded reps rep (rw (p, pick_excluding) at q) in
          ((reps, m, current), other)
    ]
