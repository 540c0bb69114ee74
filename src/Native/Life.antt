-- ===== src/Native/Life.antt =====
-- `NativeManager` of agent/internal/deploy/native.go: the life of one deployment.
pub mod Course
use Prim.Native.String.{◌++◌ as ◌<>◌}
use gridlink.Prelude.{
  ℕ, String, Bool, List, [], ◌∷◌, ◌++◌, Option, none, some, Result, ok, err, is_empty,
  if◌then◌else◌, map,
}
use gridlink.Bytes.{Bytes}
use gridlink.Proto.{DeploymentSpec, DeploymentState, Engine, NativeEngine}
use gridlink.Native.{Update}
use gridlink.Native.Port.{Arrival, read_engine_addr, port_of}
use gridlink.Native.Readiness.{Poll, wait_ready}

-- What `run` finds outside, step by step: the percentages that the download reports and its result;
-- the errors of the pipes and of the start; the lines that the engine prints, with the scanner's
-- error, and what comes first while they are read; the requests for readiness and the error when
-- their time is over, with the name of the model; how the process ended; the tail of what it wrote;
-- and whether the context was done where `run` asks. `send` gives an update up if the client does
-- not take it within a second; here the client takes each in time.
pub record World : Type 0 where
  pub pulled : List ℕ
  pub download : Result String Bytes
  pub stopped_pulling : Bool
  pub stdout_pipe : Option String
  pub stderr_pipe : Option String
  pub started : Option String
  pub arrival : Arrival
  pub stdout : List Bytes
  pub scan_error : Option String
  pub model_name : Bytes
  pub polls : List Poll
  pub poll_error : String
  pub stopped_loading : Bool
  pub exit : String
  pub stopped_serving : Bool
  pub tail : String

-- What `run` does: an update, or a call on the engine's process.
pub data Act : Type 0 where
  send : Update → Act
  start kill wait : Act

unfoldable pub update : String → DeploymentState → Update
update id state = record {
  deployment_id = id;
  state = state;
  host_port = 0;
  error = "";
  progress = 0;
}

-- `(engine said: …)`
unfoldable pub said : String → String
said tail = " (engine said: " <> tail <> ")"

module _ (id : String) (w : World) where
  unfoldable pub fail : String → Act
  unfolding update
  fail error = send (record (update id DeploymentState.failed) { error = error })

  unfoldable pub stop : Act
  unfolding update
  stop = send (update id DeploymentState.stopped)

  -- What follows once `waitReady` has returned.
  unfoldable pub serve : Bytes → Option String → List Act
  unfolding update fail stop said port_of
  serve addr (some e) =
      kill
      ∷ wait
      ∷ (if w.stopped_loading
          then stop
          else fail ("engine never became ready: " <> e <> said w.tail))
      ∷ []
  serve addr none =
      send (record (update id DeploymentState.ready) { host_port = port_of addr })
      ∷ wait
      ∷ (if w.stopped_serving
          then stop
          else fail ("engine exited unexpectedly: " <> w.exit <> said w.tail))
      ∷ []

  -- What follows once `readEngineAddr` has returned.
  unfoldable pub connect : Result String Bytes → List Act
  unfolding serve fail said wait_ready
  connect (err e) = kill ∷ wait ∷ fail ("engine never reported a port: " <> e <> said w.tail) ∷ []
  connect (ok addr) = serve addr (wait_ready w.model_name w.polls w.poll_error)

  unfoldable pub spawn : Option String → Option String → Option String → List Act
  unfolding connect fail read_engine_addr
  spawn (some e) _ _ = fail ("engine stdout: " <> e) ∷ []
  spawn none (some e) _ = fail ("engine stderr: " <> e) ∷ []
  spawn none none (some e) = fail ("start engine: " <> e) ∷ []
  spawn none none none = start ∷ connect (read_engine_addr w.arrival w.stdout w.scan_error)

  unfoldable pub load : Result String Bytes → List Act
  unfolding spawn update fail stop
  load (err e) = (if w.stopped_pulling then stop else fail ("fetch weights: " <> e)) ∷ []
  load (ok path) =
      send (update id DeploymentState.loading) ∷ spawn w.stdout_pipe w.stderr_pipe w.started

  unfoldable pub progress : List ℕ → List Act
  unfolding update
  progress [] = []
  progress (p ∷ ps) =
      send (record (update id DeploymentState.pulling) { progress = p }) ∷ progress ps

  unfoldable pub run : List Act
  unfolding progress load update
  run = send (update id DeploymentState.pulling) ∷ progress w.pulled ++ load w.download

-- `spec.GetNative()`
unfoldable pub get_native : Engine → Option NativeEngine
get_native (Engine.native n) = some n
get_native (Engine.container c) = none
get_native Engine.unset = none

pub data StartError : Type 0 where
  no_native_spec no_model_file : StartError

-- `Start`, with what the goroutine that it starts then does.
unfoldable pub start_native : DeploymentSpec → World → Result StartError (List Act)
unfolding run get_native
start_native spec w = elim (get_native spec.engine) [
  | none ↦ err no_native_spec
  | some n ↦ if is_empty n.model_file then err no_model_file else ok (run spec.deployment_id w)
]
