-- ===== src/Registry.antt =====
-- coordinator/internal/registry/registry.go: the table of connected agents. Each function is one
-- method body, which runs under the registry's mutex.
pub mod Invariant
pub mod Liveness
pub mod Streams
mod Tests
use mathlib.Core.List.{map}
use gridlink.Prelude.{
  ℕ, String, Bool, true, false, ◌*◌, ◌&&◌, List, [], ◌∷◌, Option, none, some, Time, Duration,
  older_than, is_empty, if◌then◌else◌,
}
use gridlink.GoMap.{GoMap, get, put, values, map_values}
use gridlink.Proto.{GpuInfo, SystemInfo, NodeStatus, Register, Heartbeat}
use gridlink.Wire.{Env, Stream}

pub record Node : Type 0 where
  pub id : String
  pub hostname : String
  pub gpu : Option GpuInfo
  pub system : Option SystemInfo
  pub last_seen : Time
  pub status : NodeStatus
  pub data_plane_addr : String
  -- nil when offline
  pub send : Option Stream

pub record Registry : Type 0 where
  pub nodes : GoMap Node

abbrev pub is_online : NodeStatus → Bool
is_online NodeStatus.online = true
is_online _ = false

unfoldable pub new : Registry
new = record { nodes = [] }

-- `&Node{ID: id}`: every other field is Go's zero value.
unfoldable pub blank : String → Node
blank id = record {
  id = id;
  hostname = "";
  gpu = none;
  system = none;
  last_seen = 0;
  status = NodeStatus.unspecified;
  data_plane_addr = "";
  send = none;
}

-- The entry that `Upsert` goes on with: the known one, or a new one.
unfoldable pub known_or_blank : Option Node → String → Node
unfolding blank
known_or_blank none id = blank id
known_or_blank (some n) id = n

unfoldable pub node_id_of : Env → Register → String
node_id_of env reg = if is_empty reg.node_id then env.new_id else reg.node_id

unfoldable pub upsert : Env → Registry → Register → Stream → Registry × String
unfolding known_or_blank node_id_of
upsert env r reg send =
    let id = node_id_of env reg in
    let n = known_or_blank (get id r.nodes) id in
    (
      record r {
        nodes =
            put id
              (record n {
                hostname = reg.hostname;
                gpu = reg.gpu;
                system = reg.system;
                last_seen = env.now;
                status = NodeStatus.online;
                send = some send;
              })
              r.nodes;
      },
      id,
    )

-- The fields that a heartbeat refreshes.
unfoldable pub beat : Time → Heartbeat → Node → Node
beat now hb n = record n {
  last_seen = now;
  status = NodeStatus.online;
  data_plane_addr = if is_empty hb.data_plane_addr then n.data_plane_addr else hb.data_plane_addr;
}

unfoldable pub touch : Env → Registry → String → Heartbeat → Registry
unfolding beat
touch env r id hb = elim (get id r.nodes) [
  | none ↦ r
  | some n ↦ record r { nodes = put id (beat env.now hb n) r.nodes }
]

unfoldable pub disconnect : Node → Node
disconnect n = record n { status = NodeStatus.offline; send = none }

unfoldable pub mark_disconnected : Registry → String → Registry
unfolding disconnect
mark_disconnected r id = elim (get id r.nodes) [
  | none ↦ r
  | some n ↦ record r { nodes = put id (disconnect n) r.nodes }
]

-- `Get`: a copy of the node.
abbrev pub get_node : Registry → String → Option Node
get_node r id = get id r.nodes

abbrev pub snapshot : Registry → List Node
snapshot r = values r.nodes

pub record NodeSummary : Type 0 where
  pub node_id : String
  pub hostname : String
  pub status : NodeStatus
  pub gpu : Option GpuInfo
  pub last_seen : Time
  pub system : Option SystemInfo

unfoldable pub summarise : Node → NodeSummary
summarise n = record {
  node_id = n.id;
  hostname = n.hostname;
  status = n.status;
  gpu = n.gpu;
  last_seen = n.last_seen;
  system = n.system;
}

unfoldable pub list : Registry → List NodeSummary
unfolding summarise
list r = map summarise (values r.nodes)

-- The body of the loop of `reap`.
unfoldable pub reap_node : Time → Duration → Node → Node
unfolding disconnect
reap_node now interval n =
    if is_online n.status && older_than now n.last_seen (3 * interval) then disconnect n else n

unfoldable pub reap : Time → Duration → Registry → Registry
unfolding reap_node
reap now interval r = record r { nodes = map_values (reap_node now interval) r.nodes }
