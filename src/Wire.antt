-- ===== src/Wire.antt =====
-- What the coordinator has from outside while it runs one handler: the clock, a fresh id, and
-- the live gRPC streams. A handler reads the clock as one instant, and `newID` as one value.
use gridlink.Prelude.{ℕ, String, Bool, List, [], ◌∷◌, Time, if◌then◌else◌}
use gridlink.Proto.{CoordinatorMessage}

-- The identity of a bidirectional stream. `registry.Node.Send` is a closure over one.
abbrev pub Stream : Type 0
Stream = ℕ

pub record Env : Type 0 where
  pub now : Time
  -- `uuid.NewString()`
  pub new_id : String
  -- whether `stream.Send(m)` returns nil
  pub sends : Stream → CoordinatorMessage → Bool

pub record Sent : Type 0 where
  pub stream : Stream
  pub message : CoordinatorMessage

-- What the call of a `Send` closure leaves on the wire.
abbrev pub deliver : Env → Stream → CoordinatorMessage → List Sent
deliver env s m = if env.sends s m then record { stream = s; message = m } ∷ [] else []
