-- ===== src/Gateway/Router.antt =====
-- gateway/internal/router/router.go: the cache of replicas per model. The mutex is free during the
-- call of the coordinator, and each function here is one call with no other between its parts.
pub mod Freshness
pub mod Picks
pub mod Rotation
use gridlink.Prelude.{
  ℕ, String, Bool, true, false, ◌+◌, ◌*◌, ◌%◌, ◌==◌, List, [], ◌∷◌, Option, none, some, Time,
  Duration, second, ltb, str_eq, is_empty, length, get_elem?, if◌then◌else◌, Result, ok, err,
}
use gridlink.GoMap.{GoMap, get, put, delete}
use gridlink.Deployments.Queries.{Route}
use gridlink.Server.Agents.{Code}

-- The errors of the package, that of a failed call, and Go's panic on an index out of range.
pub data RouteError : Type 0 where
  unknown_model no_replicas resolve_failed out_of_range : RouteError

abbrev pub cache_ttl : Duration
cache_ttl = 2 * second

-- `entry`; `next` stands for an int, which does not overflow within 2^63 picks.
pub record Entry : Type 0 where
  pub replicas : List Route
  pub fetched_at : Time
  pub next : ℕ

pub record Router : Type 0 where
  -- `r.client != nil`
  pub connected : Bool
  pub cache : GoMap Entry

unfoldable pub new : Bool → Router
new connected = record { connected = connected; cache = [] }

-- What one call finds outside: the clock when it looks into the cache, the coordinator's answer to
-- `ResolveModel` should it ask, and the clock after that.
pub record Lookup : Type 0 where
  pub checked_at : Time
  pub answer : Result Code (List Route)
  pub answered_at : Time

-- The replicas in the cache that are not too old.
unfoldable pub cached : Time → Option Entry → Option (List Route)
cached now none = none
cached now (some e) = if ltb now (e.fetched_at + cache_ttl) then some e.replicas else none

unfoldable pub some_ready : List Route → Result RouteError (List Route)
some_ready [] = err no_replicas
some_ready (r ∷ rs) = ok (r ∷ rs)

-- The entry with the new answer; the round-robin cursor stays.
unfoldable pub refreshed : Time → List Route → Option Entry → Entry
refreshed now reps none = record { replicas = reps; fetched_at = now; next = 0 }
refreshed now reps (some e) = record e { replicas = reps; fetched_at = now }

unfoldable pub refresh : Lookup → Router → String → Router × Result RouteError (List Route)
unfolding some_ready refreshed
refresh l r model =
    if r.connected
    then elim l.answer [
      | err _ ↦ (r, err resolve_failed)
      | ok reps ↦ (
        record r { cache = put model (refreshed l.answered_at reps (get model r.cache)) r.cache },
        some_ready reps,
      )
    ]
    else (r, err no_replicas)

unfoldable pub replicas : Lookup → Router → String → Router × Result RouteError (List Route)
unfolding cached some_ready refresh
replicas l r model = elim (cached l.checked_at (get model r.cache)) [
  | some reps ↦ (r, some_ready reps)
  | none ↦ refresh l r model
]

-- `reps[i]`
unfoldable pub index : List Route → ℕ → Result RouteError Route
index reps i = elim (get_elem? reps i) [ none ↦ err out_of_range | some rep ↦ ok rep ]

-- The second half of `Pick`, which reads the cache again.
unfoldable pub choose : Router → String → List Route → Router × Result RouteError Route
unfolding index
choose r model reps = elim (get model r.cache) [
  | none ↦ (r, index reps 0)
  | some e ↦ if length e.replicas == 0 then (r, index reps 0) else (
    record r { cache = put model (record e { next = e.next + 1 }) r.cache },
    index e.replicas (e.next % length e.replicas),
  )
]

unfoldable pub pick : Lookup → Router → String → Router × Result RouteError Route
unfolding replicas choose
pick l r model =
    if is_empty model
    then (r, err unknown_model)
    else let (r', found) = replicas l r model in
      elim found [ err e ↦ (r', err e) | ok reps ↦ choose r' model reps ]

-- The loop of `PickExcluding`.
unfoldable pub first_other : String → List Route → Result RouteError Route
first_other excluded [] = err no_replicas
first_other excluded (rep ∷ reps) =
    let rest = first_other excluded reps in
    if str_eq rep.deployment_id excluded then rest else ok rep

unfoldable pub pick_excluding : Lookup → Router → String → String → Router × Result RouteError Route
unfolding replicas first_other
pick_excluding l r model excluded =
    let (r', found) = replicas l r model in
    (r', elim found [ err e ↦ err e | ok reps ↦ first_other excluded reps ])

unfoldable pub invalidate : Router → String → Router
invalidate r model = record r { cache = delete model r.cache }

-- `listModels`, with the coordinator's answer to `ListModels`.
unfoldable pub list_models : Router → Result Code (List String) → Result RouteError (List String)
list_models r answer =
    if r.connected
    then elim answer [ err _ ↦ err resolve_failed | ok names ↦ ok names ]
    else err resolve_failed
