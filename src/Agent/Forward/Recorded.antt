-- ===== src/Agent/Forward/Recorded.antt =====
-- A deployment's life on its node, from agent/internal/deploy/native.go by way of
-- agent/internal/client/client.go to the table of
-- coordinator/internal/deployments/deployments.go.
use mathlib.Core.List.{append-nil, append_assoc}
use gridlink.Prelude.{
  ℕ, suc, String, ◌≡◌, refl, ap, ◌∙◌, sym, ◌+◌, ◌≤◌, ◌<◌, List, [], ◌∷◌, ◌++◌, none, some, ok,
  length, length-append, length-map, map, arith, lt→ltb,
}
use gridlink.GoMap.{get}
use gridlink.GoMap.Laws.{get-delete_self}
use gridlink.Proto.{DeploymentState, DeploymentUpdate, AgentMessage}
use gridlink.Wire.{Env}
use gridlink.Registry.{Registry}
use gridlink.Deployments.State.{Deployment, Manager, Replica}
use gridlink.Deployments.Actions.{on_update}
use gridlink.Deployments.Orphans.{IsWanted, on_update_recorded}
use gridlink.Native.{Update}
use gridlink.Native.Life.{World, run, update}
use gridlink.Native.Life.Course.{IsLife, IsTerminal, sent, run-IsLife}
use gridlink.Agent.Client.{Client, emit, outbound_buffer_size, remove_deployment}
use gridlink.Agent.Forward.{emit_all, deployment_update_of, run_deployment}

emit_room :
    (m : AgentMessage) (c : Client) (q : List AgentMessage)
    → c.out ≡ some q
    → length q < outbound_buffer_size
    → emit m c ≡ record c { out = some (q ++ m ∷ []) }
unfolding emit
emit_room m c q e lt = rw (e, emit) (rw (lt→ltb (length q) outbound_buffer_size lt) refl)

-- Messages for which the queue of the session has room are all put into it, in order.
emit_all_room :
    (ms : List AgentMessage) (c : Client) (q : List AgentMessage)
    → c.out ≡ some q
    → length q + length ms ≤ outbound_buffer_size
    → emit_all ms c ≡ record c { out = some (q ++ ms) }
unfolding emit_all
emit_all_room [] c q e le = λ i. record c { out = (e ∙ ap some (sym (append-nil q))) i }
emit_all_room (m ∷ ms) c q e le =
    ap (emit_all ms) (emit_room m c q e (omega arith))
    ∙ emit_all_room ms (record c { out = some (q ++ m ∷ []) }) (q ++ m ∷ []) refl
        (omega (arith, length-append q (m ∷ [])))
    ∙ ap (λ x. record c { out = some x }) (append_assoc q (m ∷ []) ms)

-- The coordinator has the deployment on the node, in the state.
abbrev pub HasState : Manager → String → String → DeploymentState → Type 0
HasState m node id state =
    (d : Deployment) × (r : Replica) × (get id m.deploy ≡ some d)
    × (d.replica ≡ some r)
    × (r.node_id ≡ node)
    × (r.state ≡ state)

-- The coordinator handles the updates one by one, the n-th in the n-th environment.
unfoldable pub record_all :
    (ℕ → Env) → ℕ → Registry → String → List DeploymentUpdate → Manager → Manager
unfolding on_update
record_all envs n reg node [] m = m
record_all envs n reg node (u ∷ us) m =
    record_all envs (suc n) reg node us (on_update (envs n) reg m node u).0

recorded_one :
    (env : Env) (reg : Registry) (m : Manager) (node id : String) (u : Update)
    → IsWanted m node id
    → HasState (on_update env reg m node (deployment_update_of id u)).0 node id u.state
unfolding deployment_update_of
recorded_one env reg m node id u wanted =
    let (step, _, _) = on_update_recorded env reg m node (deployment_update_of id u) wanted in
    let (d, r, r', _, _, found, state, _, _, _, at, _, _, _) = step in
    (record d { replica = some r' }, r', found, refl, at, state)

IsWanted-of :
    (m : Manager) (node id : String) (s : DeploymentState)
    → HasState m node id s
    → IsWanted m node id
IsWanted-of m node id s (d, r, e, q, at, state) = (d, r, e, q, at)

recorded_life :
    (envs : ℕ → Env) (n : ℕ) (reg : Registry) (m : Manager) (node id : String) (s : DeploymentState)
    (us : List Update)
    → HasState m node id s
    → IsLife id s us
    → (end : DeploymentState) × IsTerminal end
      × HasState (record_all envs n reg node (map (deployment_update_of id) us) m) node id end
unfolding record_all
recorded_life envs n reg m node id s [] has life = (s, life, has)
recorded_life envs n reg m node id s (u ∷ us) has (_, _, life) =
    recorded_life envs (suc n) reg (on_update (envs n) reg m node (deployment_update_of id u)).0
      node id u.state us (recorded_one (envs n) reg m node id u (IsWanted-of m node id s has)) life

-- If the session's queue has room for them, all updates of a deployment's life are put into it, in
-- order, and the node lists the deployment no longer; and once the coordinator, which has the
-- deployment on that node, has handled them, it has it there in a terminal state.
pub life_recorded :
    (envs : ℕ → Env) (reg : Registry) (m : Manager) (node id : String) (w : World) (c : Client)
    (q : List AgentMessage)
    → IsWanted m node id
    → c.out ≡ some q
    → length q + length (sent (run id w)) ≤ outbound_buffer_size
    → ((run_deployment id (ok (sent (run id w))) c).out
        ≡ some (
            q
            ++ map
                (λ u. AgentMessage.deployment_update (deployment_update_of id u))
                (sent (run id w))))
      × (get id (run_deployment id (ok (sent (run id w))) c).deployments ≡ none)
      × ((end : DeploymentState) × IsTerminal end
          × HasState
              (record_all envs 0 reg node (map (deployment_update_of id) (sent (run id w))) m)
              node
              id
              end)
unfolding run_deployment remove_deployment record_all run update
life_recorded envs reg m node id w c q wanted e room =
    let ms =
      map (λ u. AgentMessage.deployment_update (deployment_update_of id u)) (sent (run id w)) in
    let queued = emit_all_room ms c q e (
      omega (
        arith,
        length-map (λ u. AgentMessage.deployment_update (deployment_update_of id u))
            (sent (run id w)),
      )) in
    let (_, _, life) = (run-IsLife id w).0 in
    (
      ap (λ x. (remove_deployment id x).out) queued,
      get-delete_self id (emit_all ms c).deployments,
      recorded_life envs 1 reg _ node id DeploymentState.pulling _
          (recorded_one (envs 0) reg m node id (update id DeploymentState.pulling) wanted) life,
    )
