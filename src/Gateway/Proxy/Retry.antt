-- ===== src/Gateway/Proxy/Retry.antt =====
-- One request in `handleInference` of gateway/internal/proxy/proxy.go: whom it tries, and what it
-- bills.
use mathlib.Core.List.{Memᴰ}
use mathlib.Core.Path.{subst}
use gridlink.Prelude.{
  String, ◌≡◌, ◌≢◌, refl, ap, ◌≤◌, ◌⊎◌, inl, inr, List, [], ◌∷◌, Option, none, some, length,
  is_empty, Bool-cases, Result-cases, ok, arith,
}
use gridlink.Deployments.Queries.{Route}
use gridlink.Gateway.Router.{Router, Lookup, replicas, pick, pick_excluding, invalidate}
use gridlink.Gateway.Router.Picks.{first_other_lem}
use gridlink.Gateway.Usage.{Record}
use gridlink.Gateway.Proxy.{
  TokenUsage, Reply, answered, refused, Attempt, unreachable, responded, Peek, Request, Outcome,
  bad_request, records_of, retry, infer, handle_peek, handle_inference,
}

-- The record is of this request, and of the replica that answered it.
pub record Bills (req : Request) (reply : Reply) (rec : Record) : Type 0 where
  pub replica : Route
  pub served : reply ≡ answered replica
  pub request : rec.request_id ≡ req.request_id
  pub deployment : rec.deployment_id ≡ replica.deployment_id
  pub node : rec.node_id ≡ replica.node_id
  pub key : rec.api_key_id ≡ req.key_id

pub record IsFair (req : Request) (o : Outcome) : Type 0 where
  pub bounded : length o.tried ≤ 2
  pub elsewhere :
      (a b : Route)
      → o.tried ≡ a ∷ b ∷ []
      → (req.first_attempt a ≡ unreachable) × (b.deployment_id ≢ a.deployment_id)
  pub once : length o.reported ≤ 1
  pub billed : (rec : Record) → Memᴰ rec o.reported → Bills req o.reply rec

pick_excluding-other :
    (l : Lookup) (r : Router) (model excluded : String) (rep : Route)
    → (pick_excluding l r model excluded).1 ≡ ok rep
    → rep.deployment_id ≢ excluded
unfolding pick_excluding
pick_excluding-other l r model excluded rep q = elim (Result-cases (replicas l r model).1) [
  | inr (e, p) ↦ absurd (ground arith)
  | inl (reps, p) ↦ (first_other_lem excluded reps rep (rw (p, pick_excluding) at q)).1
]

-- Fewer than two were tried.
short : (a b : Route) (xs : List Route) → length xs ≤ 1 → xs ≡ a ∷ b ∷ [] → ⊥
short a b xs h e = omega (arith, h, ap length e)

nothing_billed : (req : Request) (reply : Reply) (rec : Record) → Memᴰ rec [] → Bills req reply rec
nothing_billed req reply rec m = elim m [ ]

-- An attempt that was answered bills the replica.
records_of-once :
    (req : Request) (model : String) (rep : Route) (u : Option TokenUsage)
    → length (records_of req model rep u) ≤ 1
unfolding records_of
records_of-once req model rep none = omega arith
records_of-once req model rep (some u) = omega arith

records_of-Bills :
    (req : Request) (model : String) (rep : Route) (u : Option TokenUsage) (rec : Record)
    → Memᴰ rec (records_of req model rep u)
    → Bills req (answered rep) rec
unfolding records_of
records_of-Bills req model rep none rec m = elim m [ ]
records_of-Bills req model rep (some u) rec (Memᴰ.tail m) = elim m [ ]
records_of-Bills req model rep (some u) rec (Memᴰ.head e) = record {
  replica = rep;
  served = refl;
  request = ap (λ x. x.request_id) e;
  deployment = ap (λ x. x.deployment_id) e;
  node = ap (λ x. x.node_id) e;
  key = ap (λ x. x.api_key_id) e;
}

Attempt-cases : (x : Attempt) → (x ≡ unreachable) ⊎ ((u : Option TokenUsage) × (x ≡ responded u))
Attempt-cases unreachable = inl refl
Attempt-cases (responded u) = inr (u, refl)

-- The pair that was tried is the one given.
tried_pair :
    (req : Request) (first rep a b : Route)
    → req.first_attempt first ≡ unreachable
    → rep.deployment_id ≢ first.deployment_id
    → ◌≡◌ {A = List Route} (first ∷ rep ∷ []) (a ∷ b ∷ [])
    → (req.first_attempt a ≡ unreachable) × (b.deployment_id ≢ a.deployment_id)
tried_pair req first rep a b failed other e =
    let p : first ≡ a = cc in
    let q : rep ≡ b = cc in
    (
      subst (λ x. req.first_attempt x ≡ unreachable) p failed,
      subst (λ x. b.deployment_id ≢ x.deployment_id) p
          (subst (λ x. x.deployment_id ≢ first.deployment_id) q other),
    )

retry-IsFair :
    (req : Request) (model : String) (first : Route) (r : Router)
    → req.first_attempt first ≡ unreachable
    → IsFair req (retry req model first r)
unfolding retry
retry-IsFair req model first r failed =
    let call = pick_excluding req.second_lookup (invalidate r model) model first.deployment_id in
    elim (Result-cases call.1) [
      | inr (e, p) ↦
          rw (p, retry)
            (record {
              bounded = omega arith;
              elsewhere = λ a b q. absurd (short a b _ (omega arith) q);
              once = omega arith;
              billed = nothing_billed req _;
            })
      | inl (rep, p) ↦
          let other =
            pick_excluding-other req.second_lookup (invalidate r model) model first.deployment_id
              rep p in
          elim (Attempt-cases (req.second_attempt rep)) [
            | inl q ↦
                rw (p, retry)
                  (rw q (record {
                    bounded = omega arith;
                    elsewhere = λ a b e. tried_pair req first rep a b failed other e;
                    once = omega arith;
                    billed = nothing_billed req _;
                  }))
            | inr (u, q) ↦
                rw (p, retry)
                  (rw q (record {
                    bounded = omega arith;
                    elsewhere = λ a b e. tried_pair req first rep a b failed other e;
                    once = records_of-once req model rep u;
                    billed = records_of-Bills req model rep u;
                  }))
          ]
    ]

infer-IsFair : (req : Request) (model : String) (r : Router) → IsFair req (infer req model r)
unfolding infer
infer-IsFair req model r = elim (Result-cases (pick req.first_lookup r model).1) [
  | inr (e, p) ↦
      rw (p, infer)
        (record {
          bounded = omega arith;
          elsewhere = λ a b q. absurd (short a b _ (omega arith) q);
          once = omega arith;
          billed = nothing_billed req _;
        })
  | inl (rep, p) ↦ elim (Attempt-cases (req.first_attempt rep)) [
    | inl q ↦ rw (p, infer) (rw q (retry-IsFair req model rep (pick req.first_lookup r model).0 q))
    | inr (u, q) ↦
        rw (p, infer)
          (rw q (record {
            bounded = omega arith;
            elsewhere = λ a b e. absurd (short a b _ (omega arith) e);
            once = records_of-once req model rep u;
            billed = records_of-Bills req model rep u;
          }))
  ]
]

untried :
    (req : Request) (r : Router)
    → IsFair req (record { router = r; reply = refused bad_request; tried = []; reported = [] })
untried req r = record {
  bounded = omega arith;
  elsewhere = λ a b q. absurd (short a b [] (omega arith) q);
  once = omega arith;
  billed = nothing_billed req _;
}

handle_peek-IsFair :
    (req : Request) (r : Router) (peek : Option Peek) → IsFair req (handle_peek req r peek)
unfolding handle_peek
handle_peek-IsFair req r none = untried req r
handle_peek-IsFair req r (some peek) = elim (Bool-cases (is_empty peek.model)) [
  | inl t ↦ rw t (untried req r)
  | inr f ↦ rw f (infer-IsFair req peek.model r)
]

-- An inference request tries at most two replicas, the second only when the first was not reached,
-- and then one of another deployment. It reports at most one record, and only if a replica
-- answered: the record has the request's id, the caller's key, and the node and deployment of the
-- replica that answered.
pub handle_inference-IsFair : (req : Request) (r : Router) → IsFair req (handle_inference req r)
unfolding handle_inference
handle_inference-IsFair req r = handle_peek-IsFair req r req.peek
