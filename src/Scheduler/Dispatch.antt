-- ===== src/Scheduler/Dispatch.antt =====
-- `RunJob` of coordinator/internal/scheduler/scheduler.go on every branch.
use gridlink.Prelude.{
  String, true, false, ◌≡◌, ◌≢◌, refl, sym, [], ◌∷◌, none, some, arith, ok, err, ◌⊎◌,
}
use gridlink.GoMap.Laws.{get-delete-put, get-put_self, get-put_other}
use gridlink.Proto.{JobSpec, NodeStatus, CoordinatorMessage}
use gridlink.Wire.{Env, Stream}
use gridlink.Registry.{Node, Registry, get_node}
use gridlink.Scheduler.{
  Scheduler, unknown_node, node_offline, send_failed, pending, dispatch, run_job, get_job,
}

-- A job for a node that is not known, is not ONLINE, or has no stream is refused with the error
-- that says which; nothing is recorded and nothing sent.
pub run_job_refused :
    (env : Env) (reg : Registry) (s : Scheduler) (id : String) (spec : JobSpec)
    → (get_node reg id ≡ none → run_job env reg s id spec ≡ (s, err unknown_node, []))
      × ((n : Node)
          → get_node reg id ≡ some n
          → (n.status ≢ NodeStatus.online) ⊎ (n.send ≡ none)
          → run_job env reg s id spec ≡ (s, err node_offline, []))
unfolding run_job
run_job_refused env reg s id spec = (λ e. rw (e, run_job), λ n e h. ground arith)

module _ (env : Env) (reg : Registry) (s : Scheduler) (id : String) (spec : JobSpec) (n : Node)
    (stream : Stream) (known : get_node reg id ≡ some n) (on : n.status ≡ NodeStatus.online)
    (live : n.send ≡ some stream) where
  run_job-dispatch : run_job env reg s id spec ≡ dispatch env s id spec stream
  unfolding run_job
  run_job-dispatch = ground arith

  abbrev message : CoordinatorMessage
  message = CoordinatorMessage.run_job (record spec { job_id = env.new_id })

  -- A job for an ONLINE node whose stream takes the message gets a new id, is on record as PENDING
  -- at that node from now on, and the one message sent is the spec under that id. No other job
  -- changes.
  pub run_job_accepted :
      env.sends stream message ≡ true
      → ((run_job env reg s id spec).1 ≡ ok env.new_id)
        × (get_job (run_job env reg s id spec).0 env.new_id ≡ some (pending env id))
        × ((run_job env reg s id spec).2 ≡ record { stream = stream; message = message } ∷ [])
        × ((j : String) → j ≢ env.new_id → get_job (run_job env reg s id spec).0 j ≡ get_job s j)
  unfolding dispatch
  run_job_accepted sent = (
    rw (run_job-dispatch, dispatch, sent) refl,
    rw (run_job-dispatch, dispatch, sent) (get-put_self env.new_id (pending env id) s.jobs),
    rw (run_job-dispatch, dispatch, sent) refl,
    λ j h.
        rw (run_job-dispatch, dispatch, sent)
          (get-put_other env.new_id j (pending env id) s.jobs (λ e. h (sym e))),
  )

  -- If the send fails, the caller has an error and every job, under every id, is as it was, provided
  -- that the new id was not in use.
  pub run_job_rolled_back :
      env.sends stream message ≡ false
      → get_job s env.new_id ≡ none
      → ((run_job env reg s id spec).1 ≡ err send_failed)
        × ((run_job env reg s id spec).2 ≡ [])
        × ((j : String) → get_job (run_job env reg s id spec).0 j ≡ get_job s j)
  unfolding dispatch
  run_job_rolled_back failed fresh = (
    rw (run_job-dispatch, dispatch, failed) refl,
    rw (run_job-dispatch, dispatch, failed) refl,
    λ j.
        rw (run_job-dispatch, dispatch, failed)
          (get-delete-put env.new_id j (pending env id) s.jobs fresh),
  )
