-- ===== src/Registry/Liveness.antt =====
-- What registrations, heartbeats and the reaper do to the nodes, seen through `Get`.
use gridlink.Prelude.{
  sym, ◌↔◌, Option-cases, String, ◌+◌, ◌*◌, ◌≤◌, ◌≡◌, ◌≢◌, inl, inr, refl, Option, none, some, Time,
  Duration, arith, eq_iff,
}
use gridlink.GoMap.{get}
use gridlink.GoMap.Laws.{get-put_self, get-put_other}
use gridlink.Proto.{NodeStatus, Register, Heartbeat}
use gridlink.Wire.{Env, Stream}
use gridlink.Registry.{
  Node, Registry, known_or_blank, node_id_of, upsert, beat, touch, disconnect, mark_disconnected,
  get_node, reap_node, reap,
}
use gridlink.Registry.Invariant.{get-reap}

-- The data-plane address that a table has for an id, empty for an unknown one.
abbrev pub addr_of : Option Node → String
addr_of none = ""
addr_of (some n) = n.data_plane_addr

addr-known_or_blank :
    (o : Option Node) (id : String) → (known_or_blank o id).data_plane_addr ≡ addr_of o
unfolding known_or_blank
addr-known_or_blank none id = refl
addr-known_or_blank (some n) id = refl

node_id_of_own : (env : Env) (reg : Register) → reg.node_id ≢ "" → node_id_of env reg ≡ reg.node_id
unfolding node_id_of
node_id_of_own env reg h = ground (arith, eq_iff reg.node_id "")

node_id_of_new : (env : Env) (reg : Register) → reg.node_id ≡ "" → node_id_of env reg ≡ env.new_id
unfolding node_id_of
node_id_of_new env reg h = ground (arith, eq_iff reg.node_id "")

-- A registration answers with the agent's own id, or with a new one if it has none. That node is
-- then ONLINE, seen now, bound to the new stream, with the reported hardware and the
-- data-plane address that it had before; every other node is as it was.
pub upsert_lem :
    (env : Env) (r : Registry) (reg : Register) (send : Stream)
    → let id = (upsert env r reg send).1 in
      let r' = (upsert env r reg send).0 in
      ((n : Node) × (get_node r' id ≡ some n)
        × (n.status ≡ NodeStatus.online)
        × (n.send ≡ some send)
        × (n.last_seen ≡ env.now)
        × (n.hostname ≡ reg.hostname)
        × (n.gpu ≡ reg.gpu)
        × (n.system ≡ reg.system)
        × (n.data_plane_addr ≡ addr_of (get_node r id)))
      × ((j : String) → j ≢ id → get_node r' j ≡ get_node r j)
      × ((reg.node_id ≢ "" → id ≡ reg.node_id) × (reg.node_id ≡ "" → id ≡ env.new_id))
unfolding upsert
upsert_lem env r reg send =
    let id = node_id_of env reg in
    let n : Node = record (known_or_blank (get id r.nodes) id) {
      hostname = reg.hostname;
      gpu = reg.gpu;
      system = reg.system;
      last_seen = env.now;
      status = NodeStatus.online;
      send = some send;
    } in
    (
      (
        n,
        get-put_self id n r.nodes,
        refl,
        refl,
        refl,
        refl,
        refl,
        refl,
        addr-known_or_blank (get id r.nodes) id,
      ),
      λ j h. get-put_other id j n r.nodes (λ e. h (sym e)),
      (node_id_of_own env reg, node_id_of_new env reg),
    )

-- A heartbeat from an unknown node changes nothing. From a known one it marks the node ONLINE and
-- seen now, takes over a data-plane address only if one is reported, and leaves its stream and
-- all other nodes as they were.
pub touch_lem :
    (env : Env) (r : Registry) (id : String) (hb : Heartbeat)
    → (get_node r id ≡ none → touch env r id hb ≡ r)
      × ((n : Node)
          → get_node r id ≡ some n
          → (n' : Node) × (get_node (touch env r id hb) id ≡ some n')
            × (n'.status ≡ NodeStatus.online)
            × (n'.last_seen ≡ env.now)
            × (n'.send ≡ n.send)
            × (hb.data_plane_addr ≡ "" → n'.data_plane_addr ≡ n.data_plane_addr)
            × (hb.data_plane_addr ≢ "" → n'.data_plane_addr ≡ hb.data_plane_addr))
      × ((j : String) → j ≢ id → get_node (touch env r id hb) j ≡ get_node r j)
unfolding touch
touch_lem env r id hb = (
  λ e. rw (e, touch),
  λ n e. (
    beat env.now hb n,
    rw (e, touch) (get-put_self id (beat env.now hb n) r.nodes),
    refl,
    refl,
    refl,
    λ h. ground (arith, eq_iff hb.data_plane_addr ""),
    λ h. ground (arith, eq_iff hb.data_plane_addr ""),
  ),
  λ j h. elim (Option-cases (get id r.nodes)) [
    | inl e ↦ rw (e, touch)
    | inr (n, e) ↦ rw (e, touch) (get-put_other id j (beat env.now hb n) r.nodes (λ p. h (sym p)))
  ],
)

pub get-mark_disconnected :
    (r : Registry) (id : String) (n : Node)
    → get_node r id ≡ some n
    → get_node (mark_disconnected r id) id ≡ some (disconnect n)
unfolding mark_disconnected
get-mark_disconnected r id n e = rw (e, mark_disconnected) (get-put_self id (disconnect n) r.nodes)

pub get-mark_disconnected_other :
    (r : Registry) (id j : String) → id ≢ j → get_node (mark_disconnected r id) j ≡ get_node r j
unfolding mark_disconnected
get-mark_disconnected_other r id j h = elim (Option-cases (get id r.nodes)) [
  | inl e ↦ rw (e, mark_disconnected)
  | inr (n, e) ↦ rw (e, mark_disconnected) (get-put_other id j (disconnect n) r.nodes h)
]

-- A reaper tick leaves a node ONLINE exactly if it was ONLINE and its last heartbeat lies at most
-- three intervals back. Such a node is untouched; any other ONLINE node goes OFFLINE and loses
-- its stream, and keeps its address and the time it was seen.
pub reap_exact :
    (now : Time) (interval : Duration) (r : Registry) (k : String) (n : Node)
    → get_node r k ≡ some n
    → (n' : Node) × (get_node (reap now interval r) k ≡ some n')
      × ((n'.status ≡ NodeStatus.online)
          ↔ ((n.status ≡ NodeStatus.online) × (now ≤ n.last_seen + 3 * interval)))
      × (n'.status ≡ NodeStatus.online → n' ≡ n)
      × (n.status ≡ NodeStatus.online
          → n'.status ≢ NodeStatus.online
          → (n'.status ≡ NodeStatus.offline) × (n'.send ≡ none))
      × (n'.data_plane_addr ≡ n.data_plane_addr)
      × (n'.last_seen ≡ n.last_seen)
unfolding reap_node
reap_exact now interval r k n e = (
  reap_node now interval n,
  get-reap now interval r k n e,
  ground arith,
  ground arith,
  ground arith,
  ground arith,
  ground arith,
)
