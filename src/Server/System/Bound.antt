-- ===== src/Server/System/Bound.antt =====
-- Which streams the registry holds, against the calls of `Connect` that are running, in
-- coordinator/internal/server/server.go.
pub mod Steps
use gridlink.Prelude.{
  ℕ, String, some_inj, ◌≡◌, ◌≢◌, true, false, refl, sym, ◌∙◌, ap, List, [], ◌∷◌, Option, none, some,
  inl, inr, Bool-cases, Option-cases, String-cases, Result, ok, err, arith, eq_iff, Duration, Time,
  ◌*◌,
}
use gridlink.GoMap.{get, put, map_values}
use gridlink.GoMap.Laws.{get-put, get-put_other, get-map_values}
use gridlink.Proto.{AgentMessage, CoordinatorMessage, Register, Heartbeat}
use gridlink.Wire.{Env, Stream}
use gridlink.Registry.{
  Node, Registry, upsert, touch, beat, disconnect, mark_disconnected, reap, reap_node, node_id_of,
}
use gridlink.Server.Agents.{
  Tables, ConnectError, heartbeat_interval_s, open_session, handle, close_session,
}
use gridlink.Server.System
use gridlink.Server.System.{
  System, Sessions, Event, start, session_of, end_session, enter, connect, receive, end_stream,
  step, run,
}

-- A stream in the registry belongs to the open session of that node.
abbrev pub IsBound : Sessions → Registry → Type 0
IsBound ss r =
    (k : String) (n : Node) (s : Stream)
    → get k r.nodes ≡ some n
    → n.send ≡ some s
    → session_of s ss ≡ some k

-- Rewriting one entry keeps to the open sessions if its new stream does.
put-IsBound :
    (ss : Sessions) (r : Registry) (k : String) (n : Node)
    → IsBound ss r
    → ((s : Stream) → n.send ≡ some s → session_of s ss ≡ some k)
    → IsBound ss (record r { nodes = put k n r.nodes })
put-IsBound ss r k n b h j m s e q = elim (String-cases k j) [
  | inl (p, t) ↦ ground (arith, get-put k j n r.nodes, h s)
  | inr (p, f) ↦ b j m s (ground (arith, get-put k j n r.nodes)) q
]

pub upsert-IsBound :
    (ss : Sessions) (env : Env) (r : Registry) (reg : Register) (s : Stream)
    → IsBound ss r
    → session_of s ss ≡ some (node_id_of env reg)
    → IsBound ss (upsert env r reg s).0
unfolding upsert
upsert-IsBound ss env r reg s b h =
    put-IsBound ss r (node_id_of env reg) _ b (λ t q. ground (arith, h))

pub touch-IsBound :
    (ss : Sessions) (env : Env) (r : Registry) (id : String) (hb : Heartbeat)
    → IsBound ss r
    → IsBound ss (touch env r id hb)
unfolding touch beat
touch-IsBound ss env r id hb b = elim (Option-cases (get id r.nodes)) [
  | inl e ↦ rw (e, touch) b
  | inr (n, e) ↦ rw (e, touch) (put-IsBound ss r id (beat env.now hb n) b (λ s q. b id n s e q))
]

mark_disconnected-IsBound :
    (ss : Sessions) (r : Registry) (id : String)
    → IsBound ss r
    → IsBound ss (mark_disconnected r id)
unfolding mark_disconnected disconnect
mark_disconnected-IsBound ss r id b = elim (Option-cases (get id r.nodes)) [
  | inl e ↦ rw (e, mark_disconnected) b
  | inr (n, e) ↦
      rw (e, mark_disconnected)
        (put-IsBound ss r id (disconnect n) b (λ s q. absurd (ground arith)))
]

reap_node-send :
    (now : Time) (i : Duration) (n : Node) (s : Stream)
    → (reap_node now i n).send ≡ some s
    → n.send ≡ some s
unfolding reap_node disconnect
reap_node-send now i n s q = ground arith

pub reap-IsBound :
    (ss : Sessions) (now : Time) (i : Duration) (r : Registry)
    → IsBound ss r
    → IsBound ss (reap now i r)
unfolding reap
reap-IsBound ss now i r b k m s e q = elim (Option-cases (get k r.nodes)) [
  | inl g ↦ absurd (ground (arith, get-map_values (reap_node now i) k r.nodes))
  | inr (n, g) ↦
      b k n s g
        (ground (arith, get-map_values (reap_node now i) k r.nodes, reap_node-send now i n s))
]

pub session-end_other :
    (s t : Stream) (ss : Sessions) → t ≢ s → session_of t (end_session s ss) ≡ session_of t ss
unfolding session_of end_session
session-end_other s t [] h = refl
session-end_other s t ((u, id) ∷ ss) h = ground (arith, session-end_other s t ss h)

pub session-cons_self :
    (s : Stream) (id : String) (ss : Sessions) → session_of s ((s, id) ∷ ss) ≡ some id
unfolding session_of
session-cons_self s id ss = ground arith

pub session-cons_other :
    (s t : Stream) (id : String) (ss : Sessions)
    → t ≢ s
    → session_of t ((s, id) ∷ ss) ≡ session_of t ss
unfolding session_of
session-cons_other s t id ss h = ground arith

-- A new session on a stream that is not open.
pub open-IsBound :
    (s : Stream) (id : String) (ss : Sessions) (r : Registry)
    → IsBound ss r
    → session_of s ss ≡ none
    → IsBound ((s, id) ∷ ss) r
open-IsBound s id ss r b h k n t e q =
    session-cons_other s t id ss (λ p. ground (arith, b k n t e q)) ∙ b k n t e q

pub get-mark_disconnected_other :
    (r : Registry) (id k : String) → id ≢ k → get k (mark_disconnected r id).nodes ≡ get k r.nodes
unfolding mark_disconnected
get-mark_disconnected_other r id k h = elim (Option-cases (get id r.nodes)) [
  | inl e ↦ rw (e, mark_disconnected) refl
  | inr (n, e) ↦ rw (e, mark_disconnected) (get-put_other id k (disconnect n) r.nodes h)
]

mark_disconnected-send :
    (r : Registry) (id : String) (n : Node)
    → get id (mark_disconnected r id).nodes ≡ some n
    → n.send ≡ none
unfolding mark_disconnected disconnect
mark_disconnected-send r id n h = elim (Option-cases (get id r.nodes)) [
  | inl e ↦ absurd (ground (arith))
  | inr (m, e) ↦ ground (arith, get-put id id (disconnect m) r.nodes, eq_iff id id)
]

-- The end of a session, which takes the node's stream away.
pub leave-IsBound :
    (s : Stream) (id : String) (ss ss' : Sessions) (r : Registry)
    → IsBound ss r
    → session_of s ss ≡ some id
    → ((t : Stream) → t ≢ s → session_of t ss' ≡ session_of t ss)
    → IsBound ss' (mark_disconnected r id)
leave-IsBound s id ss ss' r b h same k n t e q = elim (String-cases id k) [
  | inl (p, _) ↦ absurd (ground (arith, mark_disconnected-send r id n))
  | inr (p, _) ↦
      let old = b k n t (sym (get-mark_disconnected_other r id k p) ∙ e) q in
      same t (λ u. p (some_inj (sym h ∙ ap (λ x. session_of x ss) (sym u) ∙ old))) ∙ old
]
