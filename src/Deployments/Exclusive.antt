-- ===== src/Deployments/Exclusive.antt =====
-- One deployment per node, in coordinator/internal/deployments/deployments.go.
pub mod Methods
pub mod Histories
use mathlib.Core.Option
use mathlib.Core.List.{Memᴰ}
use gridlink.Prelude.{
  String, Bool, true, false, ◌≡◌, ◌≢◌, refl, sym, ap, ◌∙◌, List, [], ◌∷◌, Option, none, some, Time,
  arith, eq_iff, str_eq, Option-cases, String-cases, inl, inr, ◌⊎◌, if◌then◌else◌, Result, ok, err,
  some_inj,
}
use gridlink.GoMap.{GoMap, get, put, delete, values, Distinct, map_values}
use gridlink.GoMap.Laws.{
  get-put, get-put_self, get-put_other, get-delete, put-Distinct, delete-Distinct, get-map_values,
  map_values-Distinct, mem_of_get, get_of_mem,
}
use gridlink.Proto.{RunnerKind, DeploymentSpec, DeploymentUpdate}
use gridlink.Wire.{Env, Stream}
use gridlink.Registry.{Node, Registry}
use gridlink.Deployments.State.{Deployment, Manager, Replica, new, assign, set_replica}
use gridlink.Deployments.Selection.{select_node}
use gridlink.Deployments.Selection.Eligibility.{IsFree, free_at}
use gridlink.Deployments.Actions.{placement, send_start, place}

-- The node that a deployment is placed on.
abbrev pub node_of : Option Deployment → Option String
node_of none = none
node_of (some d) = elim d.replica [ none ↦ none | some r ↦ some r.node_id ]

abbrev pub node_at : Manager → String → Option String
node_at m k = node_of (get k m.deploy)

pub record IsValid (m : Manager) : Type 0 where
  pub distinct : Distinct m.deploy
  pub keyed : (k : String) (d : Deployment) → get k m.deploy ≡ some d → d.id ≡ k
  pub exclusive : (j k n : String) → node_at m j ≡ some n → node_at m k ≡ some n → j ≡ k

pub new-IsValid : IsValid new
unfolding new get
new-IsValid = record {
  distinct = tt;
  keyed = λ k d e. absurd (cc);
  exclusive = λ j k n e. absurd (cc);
}

pub get-assign :
    (id k : String) (f : Deployment → Deployment) (m : Manager)
    → get k (assign id f m).deploy
      ≡ (if str_eq id k then Option.map f (get k m.deploy) else get k m.deploy)
unfolding assign
get-assign id k f m = elim (Option-cases (get id m.deploy)) [
  | inl e ↦
      rw (e, assign)
        (elim (String-cases id k) [ inl (p, t) ↦ rw t (rw (← p, e)) | inr (p, t) ↦ rw t ])
  | inr (d, e) ↦
      rw (e, assign)
        (elim (String-cases id k) [
          | inl (p, t) ↦ rw (t, ← p, e) (get-put_self id (f d) m.deploy)
          | inr (p, t) ↦ rw t (get-put_other id k (f d) m.deploy p)
        ])
]

assign-Distinct :
    (id : String) (f : Deployment → Deployment) (m : Manager)
    → Distinct m.deploy
    → Distinct (assign id f m).deploy
unfolding assign
assign-Distinct id f m h = elim (Option-cases (get id m.deploy)) [
  | inl e ↦ rw (e, assign) h
  | inr (d, e) ↦ rw (e, assign) (put-Distinct id (f d) m.deploy h)
]

assign-keyed :
    (id : String) (f : Deployment → Deployment) (m : Manager)
    → ((d : Deployment) → (f d).id ≡ d.id)
    → ((k : String) (d : Deployment) → get k m.deploy ≡ some d → d.id ≡ k)
    → (k : String) (d : Deployment) → get k (assign id f m).deploy ≡ some d
    → d.id ≡ k
assign-keyed id f m same h k d e = elim (Option-cases (get k m.deploy)) [
  | inl q ↦ absurd (ground (arith, get-assign id k f m))
  | inr (x, q) ↦ ground (arith, get-assign id k f m, same x, h k x q)
]

pub node_at-assign_self :
    (id : String) (f : Deployment → Deployment) (m : Manager)
    → node_at (assign id f m) id ≡ node_of (Option.map f (get id m.deploy))
node_at-assign_self id f m = ap node_of (get-assign id id f m ∙ ground (arith, eq_iff id id))

pub node_at-assign_other :
    (id k : String) (f : Deployment → Deployment) (m : Manager)
    → id ≢ k
    → node_at (assign id f m) k ≡ node_at m k
node_at-assign_other id k f m h = ap node_of (get-assign id k f m ∙ ground (arith, eq_iff id k))

-- An assignment to a deployment that leaves its id alone keeps the table valid, if it puts the
-- deployment on no node, on the node that it was on, or on one that no other is on.
pub assign-IsValid :
    (id : String) (f : Deployment → Deployment) (m : Manager)
    → ((d : Deployment) → (f d).id ≡ d.id)
    → ((d : Deployment) (n : String)
        → get id m.deploy ≡ some d
        → node_of (some (f d)) ≡ some n
        → (k : String) → node_at m k ≡ some n
        → k ≡ id)
    → IsValid m
    → IsValid (assign id f m)
assign-IsValid id f m same sole v = record {
  distinct = assign-Distinct id f m v.distinct;
  keyed = assign-keyed id f m same v.keyed;
  exclusive = λ j k n hj hk. elim (String-cases id j) [
    | inl (p, _) ↦ elim (String-cases id k) [
      | inl (q, _) ↦ sym p ∙ q
      | inr (q, _) ↦
          sym p
          ∙ sym (
              alone n (ap (node_at (assign id f m)) p ∙ hj) k
                (sym (node_at-assign_other id k f m q) ∙ hk))
    ]
    | inr (p, _) ↦ elim (String-cases id k) [
      | inl (q, _) ↦
          alone n (ap (node_at (assign id f m)) q ∙ hk) j
            (sym (node_at-assign_other id j f m p) ∙ hj)
          ∙ q
      | inr (q, _) ↦
          v.exclusive j k n (sym (node_at-assign_other id j f m p) ∙ hj)
            (sym (node_at-assign_other id k f m q) ∙ hk)
    ]
  ];
}
  where
    alone :
        (n : String)
        → node_at (assign id f m) id ≡ some n
        → (k : String) → node_at m k ≡ some n
        → k ≡ id
    alone n h = elim (Option-cases (get id m.deploy)) [
      | inl e ↦ absurd (ground (arith, node_at-assign_self id f m))
      | inr (d, e) ↦ sole d n e (ground (arith, node_at-assign_self id f m))
    ]

-- Placement's test for other deployments on a node, seen through the table.
pub IsFree-of_node_at :
    (m : Manager) (n id : String)
    → IsValid m
    → ((k : String) → k ≢ id → node_at m k ≢ some n)
    → IsFree n id (values m.deploy)
IsFree-of_node_at m n id v h = each (values m.deploy) (λ d at. at)
  where
    alone :
        (d : Deployment)
        → Memᴰ d (values m.deploy)
        → d.id ≢ id
        → (r : Replica) → d.replica ≡ some r
        → r.node_id ≢ n
    alone d at ne r q p =
        let (k, e) = get_of_mem d m.deploy v.distinct at in
        h k (λ i. ne (v.keyed k d e ∙ i)) (ground arith)

    each :
        (ds : List Deployment)
        → ((d : Deployment) → Memᴰ d ds → Memᴰ d (values m.deploy))
        → IsFree n id ds
    each [] up = tt
    each (d ∷ ds) up = (alone d (up d (Memᴰ.head refl)), each ds (λ x at. up x (Memᴰ.tail at)))

pub node_at_of_IsFree :
    (m : Manager) (n id k : String)
    → IsValid m
    → IsFree n id (values m.deploy)
    → k ≢ id
    → node_at m k ≢ some n
node_at_of_IsFree m n id k v f ne at = elim (Option-cases (get k m.deploy)) [
  | inl e ↦ ground arith
  | inr (d, e) ↦ elim (Option-cases d.replica) [
    | inl q ↦ ground arith
    | inr (r, q) ↦
        free_at n id (values m.deploy) d f (mem_of_get k d m.deploy e)
          (λ p. ne (sym (v.keyed k d e) ∙ p)) r q (ground arith)
  ]
]
