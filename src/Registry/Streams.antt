-- ===== src/Registry/Streams.antt =====
-- How a node gets and loses the stream that the coordinator sends on. Only `Upsert` binds one;
-- `Touch` marks a node ONLINE without one.
use gridlink.Prelude.{
  ◌∙◌, String, ◌+◌, ◌*◌, ◌<◌, ◌≡◌, ◌≢◌, refl, sym, none, some, List, [], ◌∷◌, Time, Duration, arith,
  String-cases, inl, inr,
}
use gridlink.Proto.{NodeStatus, Register, Heartbeat}
use gridlink.Wire.{Env, Stream}
use gridlink.Registry.{
  Node, Registry, node_id_of, upsert, touch, disconnect, mark_disconnected, get_node, reap_node,
  reap,
}
use gridlink.Registry.Invariant.{Call, upserts, touches, disconnects, reaps, step, run, get-reap}
use gridlink.Registry.Liveness.{
  touch_lem, get-mark_disconnected, get-mark_disconnected_other, upsert_lem,
}

-- The node is known and the coordinator has no stream to it.
abbrev pub IsDeaf : String → Registry → Type 0
IsDeaf k r = (n : Node) × (get_node r k ≡ some n) × (n.send ≡ none)

-- None of the calls registers the node.
abbrev pub NoRegister : String → List (Env × Call) → Type 0
NoRegister k [] = Unit
NoRegister k ((env, upserts reg s) ∷ cs) = (node_id_of env reg ≢ k) × NoRegister k cs
NoRegister k ((env, touches _ _) ∷ cs) = NoRegister k cs
NoRegister k ((env, disconnects _) ∷ cs) = NoRegister k cs
NoRegister k ((env, reaps _) ∷ cs) = NoRegister k cs

upsert-IsDeaf :
    (env : Env) (r : Registry) (reg : Register) (s : Stream) (k : String)
    → node_id_of env reg ≢ k
    → IsDeaf k r
    → IsDeaf k (upsert env r reg s).0
unfolding upsert
upsert-IsDeaf env r reg s k h (n, e, d) = (n, (upsert_lem env r reg s).1 k (λ p. h (sym p)) ∙ e, d)

-- The node counts as ONLINE and cannot be sent to.
abbrev pub IsStranded : String → Registry → Type 0
IsStranded k r =
    (n : Node) × (get_node r k ≡ some n) × (n.status ≡ NodeStatus.online) × (n.send ≡ none)

touch-IsStranded :
    (env : Env) (r : Registry) (k : String) (hb : Heartbeat)
    → IsDeaf k r
    → IsStranded k (touch env r k hb)
touch-IsStranded env r k hb (n, e, d) =
    let (n', e', on, _, same, _, _) = (touch_lem env r k hb).1 n e in (n', e', on, same ∙ d)

touch-IsDeaf :
    (env : Env) (r : Registry) (id : String) (hb : Heartbeat) (k : String)
    → IsDeaf k r
    → IsDeaf k (touch env r id hb)
touch-IsDeaf env r id hb k (n, e, d) = elim (String-cases id k) [
  | inl (p, _) ↦
      let (n', e', _, none') = touch-IsStranded env r k hb (n, e, d) in rw p (n', e', none')
  | inr (p, _) ↦ (n, (touch_lem env r id hb).2 k (λ q. p (sym q)) ∙ e, d)
]

mark_disconnected-IsDeaf :
    (r : Registry) (id k : String) → IsDeaf k r → IsDeaf k (mark_disconnected r id)
mark_disconnected-IsDeaf r id k (n, e, d) = elim (String-cases id k) [
  | inl (p, _) ↦ (disconnect n, rw p (get-mark_disconnected r k n e), unfold disconnect in refl)
  | inr (p, _) ↦ (n, get-mark_disconnected_other r id k p ∙ e, d)
]

reap_node-deaf :
    (now : Time) (i : Duration) (n : Node) → n.send ≡ none → (reap_node now i n).send ≡ none
unfolding reap_node
reap_node-deaf now i n d = ground arith

run-IsDeaf :
    (k : String) (r : Registry) (cs : List (Env × Call))
    → NoRegister k cs
    → IsDeaf k r
    → IsDeaf k (run r cs)
unfolding run step
run-IsDeaf k r [] h d = d
run-IsDeaf k r ((env, upserts reg s) ∷ cs) h d =
    run-IsDeaf k (upsert env r reg s).0 cs h.1 (upsert-IsDeaf env r reg s k h.0 d)
run-IsDeaf k r ((env, touches id hb) ∷ cs) h d =
    run-IsDeaf k (touch env r id hb) cs h (touch-IsDeaf env r id hb k d)
run-IsDeaf k r ((env, disconnects id) ∷ cs) h d =
    run-IsDeaf k (mark_disconnected r id) cs h (mark_disconnected-IsDeaf r id k d)
run-IsDeaf k r ((env, reaps i) ∷ cs) h (n, e, d) =
    run-IsDeaf k (reap env.now i r) cs h
      (reap_node env.now i n, get-reap env.now i r k n e, reap_node-deaf env.now i n d)

-- A node that the reaper found silent for more than three intervals is ONLINE again from its next
-- heartbeat on, but has no stream to be sent to: its heartbeats, disconnects and reaper ticks,
-- in whatever number, do not bind one, until it registers anew.
pub reap_strands :
    (now : Time) (i : Duration) (r : Registry) (k : String) (n : Node)
    → get_node r k ≡ some n
    → n.status ≡ NodeStatus.online
    → n.last_seen + 3 * i < now
    → (cs : List (Env × Call)) → NoRegister k cs
    → (env : Env) (hb : Heartbeat) → IsStranded k (touch env (run (reap now i r) cs) k hb)
reap_strands now i r k n e on late cs quiet env hb =
    touch-IsStranded env (run (reap now i r) cs) k hb (
      run-IsDeaf k (reap now i r) cs quiet
        (reap_node now i n, get-reap now i r k n e, unfold reap_node in ground arith))

-- When an agent registers on a new stream before the end of its old one is noticed, the clean-up
-- of the old stream drops the new one. From its next heartbeat on the node is ONLINE with no
-- stream to be sent to, until it registers once more.
pub late_disconnect_strands :
    (env : Env) (r : Registry) (reg : Register) (fresh : Stream) (cs : List (Env × Call))
    → let (r', k) = upsert env r reg fresh in
      NoRegister k cs
      → (env' : Env) (hb : Heartbeat)
      → IsStranded k (touch env' (run (mark_disconnected r' k) cs) k hb)
late_disconnect_strands env r reg fresh cs quiet env' hb =
    let (r', k) = upsert env r reg fresh in
    let (n, e, _, _, _, _, _, _, _) = (upsert_lem env r reg fresh).0 in
    touch-IsStranded env' (run (mark_disconnected r' k) cs) k hb (
      run-IsDeaf k (mark_disconnected r' k) cs quiet
        (disconnect n, get-mark_disconnected r' k n e, unfold disconnect in refl))
