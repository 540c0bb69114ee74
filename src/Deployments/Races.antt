-- ===== src/Deployments/Races.antt =====
-- `place` lets go of the manager's mutex between `selectNode` and the write of `d.Replica`. `Create`
-- runs in a goroutine of the gRPC server and `Reconcile` in that of the ticker, so two calls of
-- `place` can overlap. This is the overlap in which both select before either writes.
use mathlib.Core.Option
use gridlink.Prelude.{
  ◌≡◌, ◌≢◌, sym, ap, ◌∙◌, some, arith, eq_iff, Option-cases, inl, inr, Result, ok, err,
}
use gridlink.GoMap.{get}
use gridlink.Proto.{RunnerKind, CoordinatorMessage}
use gridlink.Wire.{Env, Stream}
use gridlink.Registry.{Node, Registry}
use gridlink.Deployments.State.{Deployment, Manager, assign, set_replica}
use gridlink.Deployments.Selection.{PlaceError, select_node}
use gridlink.Deployments.Selection.Eligibility.{select_node_sound}
use gridlink.Deployments.Actions.{placement, send_start}
use gridlink.Deployments.Exclusive.{
  IsValid, node_of, node_at, get-assign, node_at-assign_self, node_at-assign_other,
}
use gridlink.Deployments.Placing.{AllSend}

-- The part of `place` behind `selectNode`.
unfoldable pub finish : Env → Manager → Deployment → Result PlaceError Node → Manager
unfolding send_start
finish env m d (err e) = m
finish env m d (ok n) = (send_start env m d n n.send).0

-- Two overlapping calls: both select in the same table, and then write one after the other.
unfoldable pub overlap :
    Env → Registry → Manager → Deployment → RunnerKind → Deployment → RunnerKind → Manager
unfolding finish
overlap env reg m a kind_a b kind_b =
    let chosen_a = select_node env.now reg m a kind_a in
    let chosen_b = select_node env.now reg m b kind_b in
    finish env (finish env m a chosen_a) b chosen_b

send_start_sent :
    (env : Env) (m : Manager) (d : Deployment) (n : Node) (s : Stream)
    → AllSend env
    → (send_start env m d n (some s)).0 ≡ assign d.id (set_replica (some (placement env.now d n))) m
unfolding send_start
send_start_sent env m d n s all = rw (all s (CoordinatorMessage.start_deployment d.spec))

placed_at :
    (env : Env) (m : Manager) (d : Deployment) (n : Node)
    → get d.id m.deploy ≡ some d
    → node_at (assign d.id (set_replica (some (placement env.now d n))) m) d.id ≡ some n.id
unfolding placement
placed_at env m d n stored =
    node_at-assign_self d.id (set_replica (some (placement env.now d n))) m
    ∙ ap (λ o. node_of (Option.map (set_replica (some (placement env.now d n))) o)) stored

finish_placed :
    (env : Env) (reg : Registry) (m m' : Manager) (d : Deployment) (kind : RunnerKind) (n : Node)
    → AllSend env
    → select_node env.now reg m d kind ≡ ok n
    → finish env m' d (ok n) ≡ assign d.id (set_replica (some (placement env.now d n))) m'
unfolding finish
finish_placed env reg m m' d kind n all q = elim (Option-cases n.send) [
  | inl c ↦ absurd ((select_node_sound env.now reg m d kind n q).1.connected c)
  | inr (s, c) ↦ ap (λ o. (send_start env m' d n o).0) c ∙ send_start_sent env m' d n s all
]

-- Whenever two deployments of the table would each be given the same node, calls for them that
-- overlap put both on it: the rule of one deployment per node is broken.
pub overlap_double_books :
    (env : Env) (reg : Registry) (m : Manager) (a b : Deployment) (kind_a kind_b : RunnerKind)
    (n : Node)
    → AllSend env
    → get a.id m.deploy ≡ some a
    → get b.id m.deploy ≡ some b
    → a.id ≢ b.id
    → select_node env.now reg m a kind_a ≡ ok n
    → select_node env.now reg m b kind_b ≡ ok n
    → let m' = overlap env reg m a kind_a b kind_b in
      (node_at m' a.id ≡ some n.id) × (node_at m' b.id ≡ some n.id) × (¬ IsValid m')
unfolding overlap
overlap_double_books env reg m a b kind_a kind_b n all stored_a stored_b ne qa qb =
    (on_a, on_b, λ v. ne (v.exclusive a.id b.id n.id on_a on_b))
  where
    set_a : Deployment → Deployment
    set_a = set_replica (some (placement env.now a n))

    set_b : Deployment → Deployment
    set_b = set_replica (some (placement env.now b n))

    final : overlap env reg m a kind_a b kind_b ≡ assign b.id set_b (assign a.id set_a m)
    final =
        rw (qa, qb)
          (finish_placed env reg m (finish env m a (ok n)) b kind_b n all qb
            ∙ ap (assign b.id set_b) (finish_placed env reg m m a kind_a n all qa))

    on_a : node_at (overlap env reg m a kind_a b kind_b) a.id ≡ some n.id
    on_a =
        ap (λ x. node_at x a.id) final
        ∙ node_at-assign_other b.id a.id set_b (assign a.id set_a m) (λ e. ne (sym e))
        ∙ placed_at env m a n stored_a

    on_b : node_at (overlap env reg m a kind_a b kind_b) b.id ≡ some n.id
    on_b =
        ap (λ x. node_at x b.id) final
        ∙ placed_at env (assign a.id set_a m) b n
            (get-assign a.id b.id set_a m ∙ ground (arith, eq_iff a.id b.id, stored_b))
