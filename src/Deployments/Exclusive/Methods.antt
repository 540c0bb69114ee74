-- ===== src/Deployments/Exclusive/Methods.antt =====
-- The methods of coordinator/internal/deployments/deployments.go and the validity of the table.
use mathlib.Core.Option
use gridlink.Prelude.{
  ltb, is_empty, Bool-cases, ℕ, String, ◌≡◌, ◌≢◌, refl, sym, ap, ◌∙◌, List, [], ◌∷◌, Option, none,
  some, Time, arith, Option-cases, String-cases, inl, inr, ◌⊎◌, ok, Result-cases,
}
use gridlink.GoMap.{get, put, delete, values, map_values}
use gridlink.GoMap.Laws.{
  get-put, get-delete, put-Distinct, delete-Distinct, get-map_values, map_values-Distinct,
}
use gridlink.Proto.{CoordinatorMessage, RunnerKind, DeploymentSpec, DeploymentUpdate}
use gridlink.Wire.{Env, Stream}
use gridlink.Registry.{Node, Registry}
use gridlink.Deployments.State.{Deployment, Manager, Replica, assign, set_replica, required_runner}
use gridlink.Deployments.Selection.{select_node}
use gridlink.Deployments.Selection.Eligibility.{select_node_sound}
use gridlink.Deployments.Actions.{
  placement, send_start, place, created, enter, create, lacks_model_file, remove, apply_update,
  placed_on, on_update, unplace_all, missing_on, on_heartbeat,
}
use gridlink.Deployments.Reconciler.{sweep, place_all, reconcile}
use gridlink.Deployments.Exclusive.{node_of, node_at, IsValid, assign-IsValid, node_at_of_IsFree}

-- No other deployment is on a node that placement takes.
place_alone :
    (env : Env) (reg : Registry) (m : Manager) (d : Deployment) (kind : RunnerKind) (n : Node)
    → IsValid m
    → select_node env.now reg m d kind ≡ ok n
    → (k : String) → node_at m k ≡ some n.id
    → k ≡ d.id
place_alone env reg m d kind n v chosen k h = elim (String-cases k d.id) [
  | inl (p, _) ↦ p
  | inr (p, _) ↦ absurd (
      node_at_of_IsFree m n.id d.id k v (select_node_sound env.now reg m d kind n chosen).1.free p
        h)
]

send_start-IsValid :
    (env : Env) (reg : Registry) (m : Manager) (d : Deployment) (kind : RunnerKind) (n : Node)
    → (s : Option Stream) → IsValid m
    → select_node env.now reg m d kind ≡ ok n
    → IsValid (send_start env m d n s).0
unfolding send_start
send_start-IsValid env reg m d kind n none v q = v
send_start-IsValid env reg m d kind n (some s) v q =
    elim (Bool-cases (env.sends s (CoordinatorMessage.start_deployment d.spec))) [
      | inr t ↦ rw (t, send_start) v
      | inl t ↦
          rw (t, send_start)
            (assign-IsValid d.id (set_replica (some (placement env.now d n))) m (λ _. refl)
              (λ x node e h k at. place_alone env reg m d kind n v q k (at ∙ sym h)) v)
    ]

pub place-IsValid :
    (env : Env) (reg : Registry) (m : Manager) (d : Deployment) (kind : RunnerKind)
    → IsValid m
    → IsValid (place env reg m d kind).0
unfolding place
place-IsValid env reg m d kind v = elim (Result-cases (select_node env.now reg m d kind)) [
  | inr (e, q) ↦ rw (q, place) v
  | inl (n, q) ↦ rw (q, place) (send_start-IsValid env reg m d kind n n.send v q)
]

put-IsValid :
    (m : Manager) (k : String) (d : Deployment)
    → d.id ≡ k
    → d.replica ≡ none
    → IsValid m
    → IsValid (record m { deploy = put k d m.deploy })
put-IsValid m k d own bare v = record {
  distinct = put-Distinct k d m.deploy v.distinct;
  keyed = λ j x e. elim (String-cases k j) [
    | inl (p, t) ↦ ground (arith, get-put k j d m.deploy)
    | inr (p, f) ↦ v.keyed j x (ground (arith, get-put k j d m.deploy))
  ];
  exclusive = λ i j n hi hj. v.exclusive i j n (old i n hi) (old j n hj);
}
  where
    old : (j n : String) → node_of (get j (put k d m.deploy)) ≡ some n → node_at m j ≡ some n
    old j n h = elim (String-cases k j) [
      | inl (p, t) ↦ absurd (ground (arith, get-put k j d m.deploy))
      | inr (p, f) ↦ ground (arith, get-put k j d m.deploy)
    ]

pub remove-IsValid :
    (env : Env) (reg : Registry) (m : Manager) (id : String)
    → IsValid m
    → IsValid (remove env reg m id).0
remove-IsValid env reg m id v = elim (Option-cases (get id m.deploy)) [
  | inl e ↦ unfold remove in rw (e, remove) v
  | inr (d, e) ↦
      unfold remove in
      rw (e, remove)
        (record {
          distinct = delete-Distinct id m.deploy v.distinct;
          keyed = λ k x q. v.keyed k x (ground (arith, get-delete id k m.deploy));
          exclusive = λ i j n hi hj. v.exclusive i j n (old i n hi) (old j n hj);
        })
]
  where
    old : (j n : String) → node_of (get j (delete id m.deploy)) ≡ some n → node_at m j ≡ some n
    old j n h = ground (arith, get-delete id j m.deploy)

enter-IsValid :
    (env : Env) (reg : Registry) (m : Manager) (spec : DeploymentSpec) (kind : RunnerKind)
    → IsValid m
    → IsValid (enter env reg m spec kind).0
unfolding enter
enter-IsValid env reg m spec kind v =
    place-IsValid env reg _ (created env spec) kind
      (put-IsValid m env.new_id (created env spec) refl refl v)

-- `Create` refuses and changes nothing, or enters the deployment under its new id.
pub create-cases :
    (env : Env) (reg : Registry) (m : Manager) (spec : DeploymentSpec) (replicas : ℕ)
    → (((create env reg m spec replicas).0 ≡ m)
        × ((create env reg m spec replicas).1 ≢ ok env.new_id))
      ⊎ ((kind : RunnerKind) × ((create env reg m spec replicas).0 ≡ (enter env reg m spec kind).0)
          × ((create env reg m spec replicas).1 ≡ ok env.new_id))
unfolding create
create-cases env reg m spec replicas = elim (Bool-cases (is_empty spec.served_model_name)) [
  | inl e ↦ inl (ground arith, ground arith)
  | inr named ↦ elim (Bool-cases (ltb 1 replicas)) [
    | inl e ↦ inl (ground arith, ground arith)
    | inr single ↦ elim (Option-cases (required_runner spec)) [
      | inl e ↦ inl (ground arith, ground arith)
      | inr (kind, e) ↦ elim (Bool-cases (lacks_model_file spec.engine)) [
        | inl q ↦ inl (ground arith, ground arith)
        | inr q ↦ inr (kind, ground arith, ground arith)
      ]
    ]
  ]
]

pub create-IsValid :
    (env : Env) (reg : Registry) (m : Manager) (spec : DeploymentSpec) (replicas : ℕ)
    → IsValid m
    → IsValid (create env reg m spec replicas).0
create-IsValid env reg m spec replicas v = elim (create-cases env reg m spec replicas) [
  | inl (e, _) ↦ rw e v
  | inr (kind, e, _) ↦ rw e (enter-IsValid env reg m spec kind v)
]

placed_on-node :
    (node : String) (o : Option Deployment) (d : Deployment) (r : Replica)
    → placed_on node o ≡ some (d, r)
    → node_of o ≡ some r.node_id
unfolding placed_on
placed_on-node node o d r h = ground arith

pub on_update-IsValid :
    (env : Env) (reg : Registry) (m : Manager) (node : String) (upd : DeploymentUpdate)
    → IsValid m
    → IsValid (on_update env reg m node upd).0
on_update-IsValid env reg m node upd v =
    elim (Option-cases (placed_on node (get upd.deployment_id m.deploy))) [
      | inl e ↦ unfold on_update in rw (e, on_update) v
      | inr ((d, r), e) ↦
          unfold on_update in
          rw (e, on_update)
            (assign-IsValid upd.deployment_id (set_replica (some (apply_update env.now upd r))) m
              (λ _. refl)
              (λ x n q h k at.
                v.exclusive k upd.deployment_id n at
                  (placed_on-node node (get upd.deployment_id m.deploy) d r e ∙ h))
              v)
    ]

unplace_all-IsValid : (ds : List Deployment) (m : Manager) → IsValid m → IsValid (unplace_all ds m)
unfolding unplace_all
unplace_all-IsValid [] m v = v
unplace_all-IsValid (d ∷ ds) m v =
    unplace_all-IsValid ds (assign d.id (set_replica none) m)
      (assign-IsValid d.id (set_replica none) m (λ _. refl) (λ x n q h k at. absurd (cc)) v)

pub on_heartbeat-IsValid :
    (env : Env) (reg : Registry) (m : Manager) (node : String) (active : List String)
    → IsValid m
    → IsValid (on_heartbeat env reg m node active).0
unfolding on_heartbeat
on_heartbeat-IsValid env reg m node active v =
    unplace_all-IsValid (missing_on env.now node active (values m.deploy)) m v

sweep-id : (now : Time) (reg : Registry) (d : Deployment) → (sweep now reg d).id ≡ d.id
unfolding sweep
sweep-id now reg d = ground arith

sweep-node :
    (now : Time) (reg : Registry) (o : Option Deployment) (n : String)
    → node_of (Option.map (sweep now reg) o) ≡ some n
    → node_of o ≡ some n
unfolding sweep
sweep-node now reg o n h = ground arith

pub swept-IsValid :
    (now : Time) (reg : Registry) (m : Manager)
    → IsValid m
    → IsValid (record m { deploy = map_values (sweep now reg) m.deploy })
swept-IsValid now reg m v = record {
  distinct = map_values-Distinct (sweep now reg) m.deploy v.distinct;
  keyed = λ k d e. elim (Option-cases (get k m.deploy)) [
    | inl q ↦ absurd (ground (arith, get-map_values (sweep now reg) k m.deploy))
    | inr (x, q) ↦
        ground (arith, get-map_values (sweep now reg) k m.deploy, sweep-id now reg x, v.keyed k x q)
  ];
  exclusive = λ i j n hi hj. v.exclusive i j n (old i n hi) (old j n hj);
}
  where
    old :
        (j n : String)
        → node_of (get j (map_values (sweep now reg) m.deploy)) ≡ some n
        → node_at m j ≡ some n
    old j n h =
        sweep-node now reg (get j m.deploy) n
          (ap node_of (sym (get-map_values (sweep now reg) j m.deploy)) ∙ h)

place_all-IsValid :
    (env : Env) (reg : Registry) (ds : List Deployment) (m : Manager)
    → IsValid m
    → IsValid (place_all env reg ds m).0
unfolding place_all
place_all-IsValid env reg [] m v = v
place_all-IsValid env reg (d ∷ ds) m v = elim (Option-cases (required_runner d.spec)) [
  | inl e ↦ rw (e, place_all) (place_all-IsValid env reg ds m v)
  | inr (kind, e) ↦
      rw (e, place_all)
        (place_all-IsValid env reg ds (place env reg m d kind).0 (place-IsValid env reg m d kind v))
]

pub reconcile-IsValid :
    (env : Env) (reg : Registry) (m : Manager) → IsValid m → IsValid (reconcile env reg m).0
unfolding reconcile
reconcile-IsValid env reg m v = place_all-IsValid env reg _ _ (swept-IsValid env.now reg m v)
