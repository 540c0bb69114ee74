-- ===== src/Runner/Job.antt =====
-- `run` of agent/internal/runner/docker.go: the life of one job.
pub mod Course
use Prim.Native.String.{◌++◌ as ◌<>◌}
use gridlink.Prelude.{
  ℕ, zero, suc, String, Bool, true, false, ◌%◌, ◌^◌, List, [], ◌∷◌, ◌++◌, Option, none, some,
  Result, ok, err, if◌then◌else◌,
}
use gridlink.Bytes.{Bytes}
use gridlink.Proto.{JobState}
use gridlink.Runner.{Update}
use gridlink.Runner.Container.{Spec, Config, config_of}
use gridlink.Runner.Pull.{Decoded, PullError, pull}
use gridlink.Runner.Logs.{Event, coalesce}

-- `ctx.Err()`
pub data Context : Type 0 where
  alive deadline_exceeded cancelled : Context

-- What the `select` finds first; a status code is the bit pattern of an int64.
pub data Outcome : Type 0 where
  ctx_done : Outcome
  wait_failed : String → Outcome
  exited : Option String → ℕ → Outcome

-- What the calls of one job answer, in order: whether the pull begins, the messages of its stream
-- and the text of its error, the creation, the start, the writes to the log and the ticks between
-- them, and how the wait ends; how `%d` prints a status code; and the context at the time of a
-- failure.
pub record World : Type 0 where
  pub opened : Bool
  pub messages : List Decoded
  pub pull_text : PullError → String
  pub created : Option String
  pub started : Option String
  pub log : List Event
  pub outcome : Outcome
  pub shown : ℕ → String
  pub context : Context

-- What `run` does: an update, or a call on the container.
pub data Act : Type 0 where
  send : Update → Act
  create : Config → Act
  remove : Act

unfoldable pub update : String → JobState → Update
update id state = record { job_id = id; state = state; log_chunk = []; exit_code = 0; error = "" }

-- `terminalForCtx`
unfoldable pub terminal_for_ctx : String → Context → String → Update
unfolding update
terminal_for_ctx id deadline_exceeded error = record (update id JobState.failed) {
  error = "job timed out";
}
terminal_for_ctx id cancelled error = update id JobState.cancelled
terminal_for_ctx id alive error = record (update id JobState.failed) { error = error }

module _ (id : String) (spec : Spec) (w : World) where
  unfoldable pub fail : String → Act
  unfolding terminal_for_ctx
  fail error = send (terminal_for_ctx id w.context error)

  -- `res.StatusCode == 0`
  unfoldable pub exit_update : ℕ → Update
  unfolding update
  exit_update zero = update id JobState.succeeded
  exit_update (suc code) = record (update id JobState.failed) {
    exit_code = suc code % 2 ^ 32;
    error = "container exited with code " <> w.shown (suc code);
  }

  unfoldable pub finish : Outcome → Act
  unfolding fail update exit_update
  finish ctx_done = fail "context done"
  finish (wait_failed e) = fail ("wait for container: " <> e)
  finish (exited (some message) code) =
      send (record (update id JobState.failed) { error = message })
  finish (exited none code) = send (exit_update code)

  unfoldable pub logged : List Bytes → List Act
  unfolding update
  logged [] = []
  logged (c ∷ chunks) = send (record (update id JobState.running) { log_chunk = c }) ∷ logged chunks

  -- With the error of the start; the container is removed when `run` returns.
  unfoldable pub attend : Option String → List Act
  unfolding fail finish logged update coalesce
  attend (some e) = fail ("start container: " <> e) ∷ remove ∷ []
  attend none =
      send (update id JobState.running)
      ∷ (logged (coalesce w.log []) ++ finish w.outcome ∷ remove ∷ [])

  unfoldable pub launch : Option String → List Act
  unfolding fail attend config_of
  launch (some e) = fail e ∷ []
  launch none = create (config_of spec) ∷ attend w.started

  unfoldable pub prepare : Option PullError → List Act
  unfolding fail launch
  prepare (some e) = fail (w.pull_text e) ∷ []
  prepare none = launch w.created

  unfoldable pub pulling : List Bytes → List Act
  unfolding update
  pulling [] = []
  pulling (s ∷ statuses) =
      send (record (update id JobState.pending) { log_chunk = s ++ 10 ∷ [] }) ∷ pulling statuses

  unfoldable pub run : List Act
  unfolding pulling prepare update pull
  run =
      let (statuses, error) = pull w.opened w.messages in
      send (update id JobState.pending) ∷ (pulling statuses ++ prepare error)

-- `Run`: a job without an image is refused; else the goroutine is started.
unfoldable pub run_job : String → Spec → World → Option (List Act)
unfolding run
run_job id spec w = elim spec.image [ [] ↦ none | b ∷ image ↦ some (run id spec w) ]
