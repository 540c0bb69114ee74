-- ===== src/Gateway/Router/Rotation.antt =====
-- The round robin of `Pick` of gateway/internal/router/router.go.
use gridlink.Prelude.{
  ℕ, zero, suc, String, false, ◌≡◌, refl, ap, ◌∙◌, ◌+◌, ◌%◌, ◌==◌, ◌<◌, List, [], ◌∷◌, some, Time,
  lt→ltb, length, get_elem?, is_empty, Result, ok, err, arith,
}
use gridlink.GoMap.{get, put}
use gridlink.GoMap.Laws.{get-put_self}
use gridlink.Deployments.Queries.{Route}
use gridlink.Gateway.Router.{
  RouteError, Entry, Router, Lookup, cache_ttl, cached, some_ready, replicas, index, choose, pick,
}

-- A run of picks of one model.
unfoldable pub picks : List Lookup → Router → String → List (Result RouteError Route)
unfolding pick
picks [] r model = []
picks (l ∷ ls) r model = let (r', rep) = pick l r model in rep ∷ picks ls r' model

-- Each of the calls looks into the cache within two seconds of the time.
abbrev pub AllWithin : Time → List Lookup → Type 0
AllWithin t [] = Unit
AllWithin t (l ∷ ls) = (l.checked_at < t + cache_ttl) × AllWithin t ls

-- The entry with its cursor moved on.
abbrev advanced : Entry → Entry
advanced e = record e { next = e.next + 1 }

some_ready_any : (reps : List Route) → 0 < length reps → some_ready reps ≡ ok reps
unfolding some_ready
some_ready_any [] h = absurd (omega arith)
some_ready_any (x ∷ xs) h = refl

cached-young :
    (now : Time) (e : Entry)
    → now < e.fetched_at + cache_ttl
    → cached now (some e) ≡ some e.replicas
unfolding cached
cached-young now e h = rw (lt→ltb _ _ h) refl

replicas-cached :
    (l : Lookup) (r : Router) (model : String) (e : Entry)
    → get model r.cache ≡ some e
    → 0 < length e.replicas
    → l.checked_at < e.fetched_at + cache_ttl
    → replicas l r model ≡ (r, ok e.replicas)
unfolding replicas
replicas-cached l r model e found more young =
    rw (hit, replicas) (ap (λ x. (r, x)) (some_ready_any e.replicas more))
  where
    hit : cached l.checked_at (get model r.cache) ≡ some e.replicas
    hit = ap (cached l.checked_at) found ∙ cached-young l.checked_at e young

choose-turn :
    (r : Router) (model : String) (e : Entry)
    → get model r.cache ≡ some e
    → 0 < length e.replicas
    → choose r model e.replicas ≡ (
      record r { cache = put model (advanced e) r.cache },
      index e.replicas (e.next % length e.replicas),
    )
unfolding choose
choose-turn r model e found more = rw (found, choose) (rw nonempty refl)
  where
    nonempty : (length e.replicas == 0) ≡ false
    nonempty = ground arith

-- A pick that the cache answers.
pick-cached :
    (l : Lookup) (r : Router) (model : String) (e : Entry)
    → is_empty model ≡ false
    → get model r.cache ≡ some e
    → 0 < length e.replicas
    → l.checked_at < e.fetched_at + cache_ttl
    → pick l r model ≡ (
      record r { cache = put model (advanced e) r.cache },
      index e.replicas (e.next % length e.replicas),
    )
unfolding pick
pick-cached l r model e named found more young =
    rw (named, pick)
      (ap after (replicas-cached l r model e found more young) ∙ choose-turn r model e found more)
  where
    after : Router × Result RouteError (List Route) → Router × Result RouteError Route
    after x = elim (x.1) [ ok reps ↦ choose x.0 model reps | err e' ↦ (x.0, err e') ]

-- While the cache is young, the picks of a model take its replicas in turn: the `j`-th takes the one
-- at the cursor plus `j`, modulo their number, and none of them asks the coordinator.
pub picks_rotate :
    (ls : List Lookup) (r : Router) (model : String) (e : Entry)
    → is_empty model ≡ false
    → get model r.cache ≡ some e
    → 0 < length e.replicas
    → AllWithin e.fetched_at ls
    → (j : ℕ) → j < length ls
    → get_elem? (picks ls r model) j ≡ some (index e.replicas ((e.next + j) % length e.replicas))
unfolding picks
picks_rotate [] r model e named found more young j h = absurd (omega arith)
picks_rotate (l ∷ ls) r model e named found more young zero h =
    ap (λ p. some (p.1)) (pick-cached l r model e named found more young.0)
    ∙ ap (λ i. some (index e.replicas (i % length e.replicas))) (omega arith)
picks_rotate (l ∷ ls) r model e named found more young (suc j) h =
    ap (λ p. get_elem? (picks ls p.0 model) j) (pick-cached l r model e named found more young.0)
    ∙ picks_rotate ls _ model (advanced e) named (get-put_self model (advanced e) r.cache) more
        young.1 j (omega arith)
    ∙ ap (λ i. some (index e.replicas (i % length e.replicas))) (omega arith)
