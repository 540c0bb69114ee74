-- ===== src/Scheduler/Updates.antt =====
-- `OnJobUpdate` of coordinator/internal/scheduler/scheduler.go.
use mathlib.Core.List.{foldl}
use mathlib.Core.Path.{subst}
use gridlink.Prelude.{
  not, ap, String, true, false, ◌≡◌, ◌≢◌, refl, sym, ◌∙◌, List, [], ◌∷◌, Option, none, some, arith,
  eq_iff, str_eq, inl, inr, String-cases, if◌then◌else◌, ◌&&◌, Time,
}
use gridlink.GoMap.{get}
use gridlink.GoMap.Laws.{get-put_self, get-put_other}
use gridlink.Proto.{JobState, JobUpdate}
use gridlink.Wire.{Env}
use gridlink.Scheduler.{
  Scheduler, Job, is_terminal, is_unspecified, known_or_adopted, apply_update, on_job_update,
  get_job,
}

-- An update that is not empty, seen at its own job and at the others.
get-on_job_update :
    (env : Env) (s : Scheduler) (node : String) (upd : JobUpdate)
    → upd.job_id ≢ ""
    → get_job (on_job_update env s node upd) upd.job_id
      ≡ some (apply_update env.now upd (known_or_adopted (get_job s upd.job_id) upd.job_id node))
unfolding on_job_update
get-on_job_update env s node upd h = ground (
  arith,
  eq_iff upd.job_id "",
  get-put_self upd.job_id
      (apply_update env.now upd (known_or_adopted (get upd.job_id s.jobs) upd.job_id node)) s.jobs,
)

get-on_job_update_other :
    (env : Env) (s : Scheduler) (node : String) (upd : JobUpdate) (j : String)
    → j ≢ upd.job_id
    → get_job (on_job_update env s node upd) j ≡ get_job s j
unfolding on_job_update
get-on_job_update_other env s node upd j h = ground (
  arith,
  get-put_other upd.job_id j
      (apply_update env.now upd (known_or_adopted (get upd.job_id s.jobs) upd.job_id node)) s.jobs
      (λ e. h (sym e)),
)

-- An update with no job id changes nothing.
on_job_update_empty :
    (env : Env) (s : Scheduler) (node : String) (upd : JobUpdate)
    → upd.job_id ≡ ""
    → on_job_update env s node upd ≡ s
unfolding on_job_update
on_job_update_empty env s node upd h = ground (arith, eq_iff upd.job_id "")

-- The state that the table has for an id; UNSPECIFIED, Go's zero value, for a job it does not know.
abbrev pub state_in : Option Job → JobState
state_in none = JobState.unspecified
state_in (some j) = j.state

-- What one report makes of the state of job `k`.
abbrev pub reported : String → JobState → JobUpdate → JobState
reported k st upd = if str_eq upd.job_id k && not (is_unspecified upd.state) then upd.state else st

unfoldable pub on_updates : Scheduler → List (Env × String × JobUpdate) → Scheduler
on_updates s [] = s
on_updates s ((env, node, upd) ∷ us) = on_updates (on_job_update env s node upd) us

abbrev pub reports : List (Env × String × JobUpdate) → List JobUpdate
reports [] = []
reports ((env, node, upd) ∷ us) = upd ∷ reports us

state-apply_update :
    (now : Time) (upd : JobUpdate) (o : Option Job) (id node : String)
    → (apply_update now upd (known_or_adopted o id node)).state
      ≡ (if is_unspecified upd.state then state_in o else upd.state)
unfolding apply_update known_or_adopted
state-apply_update now upd none id node = refl
state-apply_update now upd (some j) id node = refl

state_at_own :
    (env : Env) (s : Scheduler) (node : String) (upd : JobUpdate)
    → upd.job_id ≢ ""
    → state_in (get_job (on_job_update env s node upd) upd.job_id)
      ≡ reported upd.job_id (state_in (get_job s upd.job_id)) upd
state_at_own env s node upd h =
    ap state_in (get-on_job_update env s node upd h)
    ∙ state-apply_update env.now upd (get_job s upd.job_id) upd.job_id node
    ∙ ground (arith, eq_iff upd.job_id upd.job_id)

state-on_job_update :
    (env : Env) (s : Scheduler) (node : String) (upd : JobUpdate) (k : String)
    → k ≢ ""
    → state_in (get_job (on_job_update env s node upd) k) ≡ reported k (state_in (get_job s k)) upd
state-on_job_update env s node upd k h = elim (String-cases upd.job_id k) [
  | inl (p, t) ↦
      subst
        (λ i.
          state_in (get_job (on_job_update env s node upd) i)
          ≡ reported i (state_in (get_job s i)) upd)
        p (state_at_own env s node upd (λ e. h (sym p ∙ e)))
  | inr (p, f) ↦ rw f (ap state_in (get-on_job_update_other env s node upd k (λ e. p (sym e))))
]

-- After any sequence of updates, from any nodes, the state of a job is the last one other than
-- UNSPECIFIED that was reported for it, and what it was before if there is none: a job that the
-- table did not know is adopted, and a terminal state does not keep out a later report.
pub on_updates_track :
    (s : Scheduler) (us : List (Env × String × JobUpdate)) (k : String)
    → k ≢ ""
    → state_in (get_job (on_updates s us) k)
      ≡ foldl (reported k) (state_in (get_job s k)) (reports us)
unfolding on_updates
on_updates_track s [] k h = refl
on_updates_track s ((env, node, upd) ∷ us) k h =
    on_updates_track (on_job_update env s node upd) us k h
    ∙ ap (λ st. foldl (reported k) st (reports us)) (state-on_job_update env s node upd k h)

-- A terminal update puts its error and exit code on record; one that is not terminal leaves those
-- on record alone. Either way the job stays with the node that it was on record for, or else goes
-- to the reporting one.
pub on_job_update_outcome :
    (env : Env) (s : Scheduler) (node : String) (upd : JobUpdate)
    → upd.job_id ≢ ""
    → (j : Job) × (get_job (on_job_update env s node upd) upd.job_id ≡ some j)
      × (j.last_update ≡ env.now)
      × (is_terminal upd.state ≡ true → (j.error ≡ upd.error) × (j.exit_code ≡ upd.exit_code))
      × ((old : Job)
          → get_job s upd.job_id ≡ some old
          → (j.node_id ≡ old.node_id)
            × (is_terminal upd.state ≡ false
                → (j.error ≡ old.error) × (j.exit_code ≡ old.exit_code)))
      × (get_job s upd.job_id ≡ none → j.node_id ≡ node)
unfolding apply_update known_or_adopted
on_job_update_outcome env s node upd h =
    let o = get_job s upd.job_id in
    (
      apply_update env.now upd (known_or_adopted o upd.job_id node),
      get-on_job_update env s node upd h,
      ground arith,
      ground arith,
      λ old e. ground arith,
      λ e. ground arith,
    )
