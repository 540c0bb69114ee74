-- ===== src/Server/System/Forks.antt =====
-- What a second `Register` on a live stream does. The comment in `Connect` of
-- coordinator/internal/server/server.go calls it a refresh in place.
use gridlink.Prelude.{String, ◌≡◌, ◌≢◌, refl, sym, ◌∙◌, [], ◌∷◌, none, some, arith, eq_iff}
use gridlink.Proto.{AgentMessage, NodeStatus, Register}
use gridlink.Wire.{Env, Stream}
use gridlink.Registry.{Node, Registry, get_node, node_id_of, upsert}
use gridlink.Registry.Liveness.{upsert_lem}
use gridlink.Server.Agents.{handle, close_session}
use gridlink.Server.System.{System, Sessions, session_of, end_session, receive, end_stream}
use gridlink.Server.System.Bound.{get-mark_disconnected_other}

session-end_self : (s : Stream) (ss : Sessions) → session_of s (end_session s ss) ≡ none
unfolding session_of end_session
session-end_self s [] = refl
session-end_self s ((t, id) ∷ ss) = ground (arith, session-end_self s ss)

new_id :
    (env : Env) (r : Registry) (reg : Register) (s : Stream)
    → reg.node_id ≡ ""
    → (upsert env r reg s).1 ≡ env.new_id
unfolding upsert node_id_of
new_id env r reg s h = ground (arith, eq_iff reg.node_id "")

-- When an agent sends a `Register` without a node id on a stream that is open, a second node
-- appears under a new id, ONLINE and bound to that stream. The end of the stream does not take it
-- down: it stays ONLINE with a stream that is no longer open.
pub reregister_forks :
    (env : Env) (c : System) (s : Stream) (id : String) (reg : Register)
    → session_of s c.sessions ≡ some id
    → reg.node_id ≡ ""
    → env.new_id ≢ id
    → let c' = end_stream s (receive env s (AgentMessage.register reg) c).0 in
      (session_of s c'.sessions ≡ none)
      × ((n : Node) × (get_node c'.tables.reg env.new_id ≡ some n)
          × (n.status ≡ NodeStatus.online)
          × (n.send ≡ some s))
unfolding receive end_stream handle close_session
reregister_forks env c s id reg e blank fresh =
    let made = upsert_lem env c.tables.reg reg s in
    let (n, found, on, send, _, _, _, _, _) = made.0 in
    rw (e, receive)
      (rw (e, end_stream)
        (
          session-end_self s c.sessions,
          (
            n,
            get-mark_disconnected_other _ id env.new_id (λ p. fresh (sym p))
                ∙ rw (new_id env c.tables.reg reg s blank) at found,
            on,
            send,
          ),
        ))
