-- ===== src/Runner/Job/Course.antt =====
-- The course that every run of agent/internal/runner/docker.go takes, and the job's container.
use gridlink.Prelude.{
  zero, suc, String, Bool, true, false, ◌≡◌, refl, List, [], ◌∷◌, ◌++◌, Option, none, some,
}
use gridlink.Bytes.{Bytes}
use gridlink.Proto.{JobState}
use gridlink.Runner.{Update}
use gridlink.Runner.Container.{Spec}
use gridlink.Runner.Pull.{PullError, pull}
use gridlink.Runner.Logs.{coalesce}
use gridlink.Runner.Job.{
  Context, alive, deadline_exceeded, cancelled, Outcome, ctx_done, wait_failed, exited, World, Act,
  send, create, remove, update, terminal_for_ctx, fail, exit_update, finish, logged, attend, launch,
  prepare, pulling, run,
}

-- What a `Runner` promises of a job: it is pending, then running, and from either it may end, but it
-- succeeds only from running.
pub data Move : JobState → JobState → Type 0 where
  accepted : Move JobState.unspecified JobState.pending
  pulls : Move JobState.pending JobState.pending
  starts : Move JobState.pending JobState.running
  logs : Move JobState.running JobState.running
  succeeds : Move JobState.running JobState.succeeded
  fails_early : Move JobState.pending JobState.failed
  fails : Move JobState.running JobState.failed
  stops_early : Move JobState.pending JobState.cancelled
  stops : Move JobState.running JobState.cancelled

pub data IsTerminal : JobState → Type 0 where
  is_succeeded : IsTerminal JobState.succeeded
  is_failed : IsTerminal JobState.failed
  is_cancelled : IsTerminal JobState.cancelled

-- The updates are of the job, and move it from the state to a terminal one.
abbrev pub IsJobLife : String → JobState → List Update → Type 0
IsJobLife id s [] = IsTerminal s
IsJobLife id s (u ∷ us) = (u.job_id ≡ id) × Move s u.state × IsJobLife id u.state us

abbrev pub sent : List Act → List Update
sent [] = []
sent (send u ∷ acts) = u ∷ sent acts
sent (create c ∷ acts) = sent acts
sent (remove ∷ acts) = sent acts

-- There is no container at first and none is left; none is created while there is one.
abbrev pub IsClean : Bool → List Act → Type 0
IsClean has [] = has ≡ false
IsClean has (send u ∷ acts) = IsClean has acts
IsClean has (create c ∷ acts) = (has ≡ false) × IsClean true acts
IsClean has (remove ∷ acts) = (has ≡ true) × IsClean false acts

-- A terminal update by the context, from a state from which a job can fail and be cancelled.
terminal_life :
    (id : String) (s : JobState) (c : Context) (e : String)
    → Move s JobState.failed
    → Move s JobState.cancelled
    → IsJobLife id s (terminal_for_ctx id c e ∷ [])
unfolding terminal_for_ctx update
terminal_life id s alive e f c = (refl, f, is_failed)
terminal_life id s deadline_exceeded e f c = (refl, f, is_failed)
terminal_life id s cancelled e f c = (refl, c, is_cancelled)

module _ (id : String) (spec : Spec) (w : World) where
  finish_life :
      (o : Outcome)
      → IsJobLife id JobState.running (sent (finish id spec w o ∷ remove ∷ []))
        × IsClean true (finish id spec w o ∷ remove ∷ [])
  unfolding finish fail exit_update update
  finish_life ctx_done = (terminal_life id _ w.context _ fails stops, (refl, refl))
  finish_life (wait_failed e) = (terminal_life id _ w.context _ fails stops, (refl, refl))
  finish_life (exited (some message) code) = ((refl, fails, is_failed), (refl, refl))
  finish_life (exited none zero) = ((refl, succeeds, is_succeeded), (refl, refl))
  finish_life (exited none (suc code)) = ((refl, fails, is_failed), (refl, refl))

  logged_life :
      (chunks : List Bytes) (acts : List Act)
      → IsJobLife id JobState.running (sent acts) × IsClean true acts
      → IsJobLife id JobState.running (sent (logged id spec w chunks ++ acts))
        × IsClean true (logged id spec w chunks ++ acts)
  unfolding logged update
  logged_life [] acts h = h
  logged_life (c ∷ chunks) acts h =
      let (life, clean) = logged_life chunks acts h in ((refl, logs, life), clean)

  attend_life :
      (o : Option String)
      → IsJobLife id JobState.pending (sent (attend id spec w o))
        × IsClean true (attend id spec w o)
  unfolding attend fail update
  attend_life (some e) = (terminal_life id _ w.context _ fails_early stops_early, (refl, refl))
  attend_life none =
      let (life, clean) = logged_life (coalesce w.log []) _ (finish_life w.outcome) in
      ((refl, starts, life), clean)

  launch_life :
      (o : Option String)
      → IsJobLife id JobState.pending (sent (launch id spec w o))
        × IsClean false (launch id spec w o)
  unfolding launch fail
  launch_life (some e) = (terminal_life id _ w.context _ fails_early stops_early, refl)
  launch_life none = let (life, clean) = attend_life w.started in (life, (refl, clean))

  prepare_life :
      (o : Option PullError)
      → IsJobLife id JobState.pending (sent (prepare id spec w o))
        × IsClean false (prepare id spec w o)
  unfolding prepare fail
  prepare_life (some e) = (terminal_life id _ w.context _ fails_early stops_early, refl)
  prepare_life none = launch_life w.created

  pulling_life :
      (statuses : List Bytes) (acts : List Act)
      → IsJobLife id JobState.pending (sent acts) × IsClean false acts
      → IsJobLife id JobState.pending (sent (pulling id spec w statuses ++ acts))
        × IsClean false (pulling id spec w statuses ++ acts)
  unfolding pulling update
  pulling_life [] acts h = h
  pulling_life (s ∷ statuses) acts h =
      let (life, clean) = pulling_life statuses acts h in ((refl, pulls, life), clean)

  -- Whatever comes of a job on its node, its updates take the course that a runner promises, from
  -- the first, which is PENDING, to one that is terminal and the last; and a container that was
  -- created for it is removed, once.
  pub run-IsJobLife :
      IsJobLife id JobState.unspecified (sent (run id spec w)) × IsClean false (run id spec w)
  unfolding run update
  run-IsJobLife =
      let (life, clean) =
        pulling_life (pull w.opened w.messages).0 (prepare id spec w (pull w.opened w.messages).1)
          (prepare_life (pull w.opened w.messages).1) in
      ((refl, accepted, life), clean)
