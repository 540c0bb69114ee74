-- ===== src/Agent/Identity.antt =====
-- `readNodeID`, `writeNodeID`, and the turns of `Run` in agent/internal/client/client.go: the id that
-- a node goes by, and the waits between its sessions. The coordinator's answers, the errors of the
-- file system and the draws are given.
pub mod Kept
use gridlink.Prelude.{
  ℕ, Bool, true, false, not, ◌&&◌, List, [], ◌∷◌, ◌++◌, Option, none, some, Duration, if◌then◌else◌,
}
use gridlink.Bytes.{Bytes, is_nil, bytes_eq, take}
use gridlink.Bytes.Fields.{trim_space}
use gridlink.Agent.Backoff.{Backoff, reset, next}

-- What the file has, if it is there and can be read.
abbrev pub File : Type 0
File = Option Bytes

-- With whether what is there can be read.
unfoldable pub read_node_id : Bool → File → Bytes
unfolding trim_space
read_node_id readable none = []
read_node_id true (some content) = trim_space content
read_node_id false (some content) = []

-- How `writeNodeID` goes: the directory cannot be made or the file not be opened; the file, which is
-- emptied when it is opened, gets so many of its bytes; or all of them.
pub data Write : Type 0 where
  refused written : Write
  cut_short : ℕ → Write

-- The file after a write of the id.
unfoldable pub write_node_id : Write → Bytes → File → File
unfolding take
write_node_id refused id file = file
write_node_id (cut_short n) id file = some (take (id ++ 10 ∷ []) n)
write_node_id written id file = some (id ++ 10 ∷ [])

-- How a session goes up to the acknowledgement, in `runOnce`: no stream; a `Register` with no
-- acknowledgement, or with one that has an id; with whether the file can be read, and how the write
-- of the id goes, if there is one.
pub data Attempt : Type 0 where
  no_stream : Attempt
  no_ack : Bool → Attempt
  acked : Bool → Bytes → Write → Attempt

-- `if id := ack.GetNodeId(); id != "" && id != nodeID`
unfoldable pub persist : Bytes → Write → Bytes → File → File
unfolding write_node_id bytes_eq
persist id outcome known file =
    if not (is_nil id) && not (bytes_eq id known) then write_node_id outcome id file else file

pub record State : Type 0 where
  pub file : File
  pub backoff : Backoff

-- The file after an attempt, the id of the `Register` that was sent, if one was, and whether the
-- backoff was reset.
unfoldable pub run_once : Attempt → File → File × Option Bytes × Bool
unfolding read_node_id persist
run_once no_stream file = (file, none, false)
run_once (no_ack readable) file = (file, some (read_node_id readable file), false)
run_once (acked readable id outcome) file =
    (persist id outcome (read_node_id readable file) file, some (read_node_id readable file), true)

-- One turn of the loop of `Run`, with the wait that ends it.
unfoldable pub turn : Attempt → ℕ → State → State × Option Bytes × Duration
unfolding run_once next
turn attempt draw s =
    let (file, registered, connected) = run_once attempt s.file in
    let (wait, backoff) = next draw (if connected then reset else s.backoff) in
    (record { file = file; backoff = backoff }, registered, wait)

-- The ids that are registered, and the waits.
unfoldable pub registrations : List (Attempt × ℕ) → State → List (Option Bytes)
unfolding turn
registrations [] s = []
registrations ((attempt, draw) ∷ turns) s =
    (turn attempt draw s).1 ∷ registrations turns (turn attempt draw s).0

unfoldable pub waits : List (Attempt × ℕ) → State → List Duration
unfolding turn
waits [] s = []
waits ((attempt, draw) ∷ turns) s = (turn attempt draw s).2 ∷ waits turns (turn attempt draw s).0
