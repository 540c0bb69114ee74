-- ===== src/Deployments/Placing.antt =====
-- What `place` does to the table, and what a second call of it may still find.
use gridlink.Prelude.{
  String, true, ◌≡◌, ◌≢◌, ◌⊎◌, inl, inr, ◌∙◌, [], ◌∷◌, some, arith, eq_iff, Bool-cases,
  Option-cases, ok, err, Result-cases,
}
use gridlink.GoMap.{get}
use gridlink.Proto.{CoordinatorMessage, RunnerKind}
use gridlink.Wire.{Env, Stream}
use gridlink.Registry.{Node, Registry}
use gridlink.Deployments.State.{Deployment, Manager, assign, set_replica}
use gridlink.Deployments.Selection.{PlaceError, select_node}
use gridlink.Deployments.Selection.Eligibility.{select_node_sound}
use gridlink.Deployments.Actions.{placement, send_start, place}
use gridlink.Deployments.Exclusive.{get-assign}

-- Every stream takes every message.
abbrev pub AllSend : Env → Type 0
AllSend env = (s : Stream) (x : CoordinatorMessage) → env.sends s x ≡ true

module _ (env : Env) (reg : Registry) (m : Manager) (d : Deployment) (kind : RunnerKind) where
  abbrev placed : Node → Manager
  placed n = assign d.id (set_replica (some (placement env.now d n))) m

  -- The table is as it was, or the deployment is on the node that was selected.
  pub place-cases :
      ((place env reg m d kind).0 ≡ m)
      ⊎ ((n : Node) × (select_node env.now reg m d kind ≡ ok n)
          × ((place env reg m d kind).0 ≡ placed n))
  unfolding place
  place-cases = elim (Result-cases (select_node env.now reg m d kind)) [
    | inr (e, q) ↦ inl (rw (q, place))
    | inl (n, q) ↦ elim (Option-cases n.send) [
      | inl c ↦ inl (rw (q, place) (rw c))
      | inr (s, c) ↦ elim (Bool-cases (env.sends s (CoordinatorMessage.start_deployment d.spec))) [
        | inl t ↦ inr (n, q, rw (q, place) (rw c (rw (t, send_start))))
        | inr t ↦ inl (rw (q, place) (rw c (rw (t, send_start))))
      ]
    ]
  ]

  pub place_refused :
      (e : PlaceError) → select_node env.now reg m d kind ≡ err e → (place env reg m d kind).0 ≡ m
  unfolding place
  place_refused e q = rw (q, place)

  -- If every stream takes its message, a deployment for which a node is selected is placed on it, and
  -- the node is sent its spec.
  pub place_selected :
      AllSend env
      → (n : Node) → select_node env.now reg m d kind ≡ ok n
      → (s : Stream) × (n.send ≡ some s)
        × ((place env reg m d kind).0 ≡ placed n)
        × ((place env reg m d kind).2
            ≡ record { stream = s; message = CoordinatorMessage.start_deployment d.spec } ∷ [])
  unfolding place
  place_selected all n q = elim (Option-cases n.send) [
    | inl c ↦ absurd ((select_node_sound env.now reg m d kind n q).1.connected c)
    | inr (s, c) ↦
        let t = all s (CoordinatorMessage.start_deployment d.spec) in
        (s, c, rw (q, place) (rw c (rw (t, send_start))), rw (q, place) (rw c (rw (t, send_start))))
  ]

  pub get-place_other :
      (k : String) → d.id ≢ k → get k (place env reg m d kind).0.deploy ≡ get k m.deploy
  get-place_other k h = elim place-cases [
    | inl e ↦ rw e
    | inr (n, _, e) ↦ rw e (
        get-assign d.id k (set_replica (some (placement env.now d n))) m
        ∙ ground (arith, eq_iff d.id k))
  ]
