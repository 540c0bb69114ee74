-- ===== src/Native/Life/Course.antt =====
-- The course that every run of agent/internal/deploy/native.go takes, and the engine's process.
use gridlink.Prelude.{
  ℕ, String, Bool, true, false, ◌≡◌, refl, ap, List, [], ◌∷◌, ◌++◌, Option, none, some, Result, ok,
  err, if◌then◌else◌, map,
}
use gridlink.Bytes.{Bytes}
use gridlink.Proto.{DeploymentState}
use gridlink.Native.{Update}
use gridlink.Native.Port.{read_engine_addr}
use gridlink.Native.Readiness.{wait_ready}
use gridlink.Native.Life.{
  World, Act, send, start, kill, wait, update, fail, stop, serve, connect, spawn, load, progress,
  run,
}

-- What a `Manager` promises of a deployment: it is pulled, then loaded, then ready, and from each of
-- these it may fail or be stopped.
pub data Move : DeploymentState → DeploymentState → Type 0 where
  accepted : Move DeploymentState.unspecified DeploymentState.pulling
  pulls : Move DeploymentState.pulling DeploymentState.pulling
  loads : Move DeploymentState.pulling DeploymentState.loading
  serves : Move DeploymentState.loading DeploymentState.ready
  fails_pulling : Move DeploymentState.pulling DeploymentState.failed
  fails_loading : Move DeploymentState.loading DeploymentState.failed
  fails_serving : Move DeploymentState.ready DeploymentState.failed
  stops_pulling : Move DeploymentState.pulling DeploymentState.stopped
  stops_loading : Move DeploymentState.loading DeploymentState.stopped
  stops_serving : Move DeploymentState.ready DeploymentState.stopped

pub data IsTerminal : DeploymentState → Type 0 where
  is_failed : IsTerminal DeploymentState.failed
  is_stopped : IsTerminal DeploymentState.stopped

-- The updates move the deployment from the state to a terminal one, and all are of its id.
abbrev pub IsLife : String → DeploymentState → List Update → Type 0
IsLife id s [] = IsTerminal s
IsLife id s (u ∷ us) = (u.deployment_id ≡ id) × Move s u.state × IsLife id u.state us

abbrev pub sent : List Act → List Update
sent [] = []
sent (send u ∷ acts) = u ∷ sent acts
sent (start ∷ acts) = sent acts
sent (kill ∷ acts) = sent acts
sent (wait ∷ acts) = sent acts

-- The process is started when there is none, killed and waited for while there is one, and gone
-- before an update that is terminal and at the end.
abbrev pub IsOrderly : Bool → List Act → Type 0
IsOrderly running [] = running ≡ false
IsOrderly running (start ∷ acts) = (running ≡ false) × IsOrderly true acts
IsOrderly running (kill ∷ acts) = (running ≡ true) × IsOrderly true acts
IsOrderly running (wait ∷ acts) = (running ≡ true) × IsOrderly false acts
IsOrderly running (send u ∷ acts) = (IsTerminal u.state → running ≡ false) × IsOrderly running acts

map-append {ℓ κ} :
    {A : Type ℓ} {B : Type κ} (f : A → B) (xs ys : List A) → map f (xs ++ ys) ≡ map f xs ++ map f ys
map-append f [] ys = refl
map-append f (x ∷ xs) ys = ap (λ zs. f x ∷ zs) (map-append f xs ys)

module _ (id : String) (w : World) where
  -- A run that stops or fails, by what its context says.
  ends_either :
      (s : DeploymentState) (stopped : Bool) (e : String)
      → Move s DeploymentState.stopped
      → Move s DeploymentState.failed
      → IsLife id s (sent ((if stopped then stop id w else fail id w e) ∷ []))
        × IsOrderly false ((if stopped then stop id w else fail id w e) ∷ [])
  unfolding stop fail update
  ends_either s true e stops fails = ((refl, stops, is_stopped), (λ t. refl, refl))
  ends_either s false e stops fails = ((refl, fails, is_failed), (λ t. refl, refl))

  serve_course :
      (addr : Bytes) (o : Option String)
      → IsLife id DeploymentState.loading (sent (serve id w addr o))
        × IsOrderly true (serve id w addr o)
  unfolding serve update
  serve_course addr (some e) =
      let (life, orderly) = ends_either _ w.stopped_loading _ stops_loading fails_loading in
      (life, (refl, (refl, orderly)))
  serve_course addr none =
      let (life, orderly) = ends_either _ w.stopped_serving _ stops_serving fails_serving in
      ((refl, serves, life), (λ t. elim t [ ], (refl, orderly)))

  connect_course :
      (r : Result String Bytes)
      → IsLife id DeploymentState.loading (sent (connect id w r)) × IsOrderly true (connect id w r)
  unfolding connect fail update
  connect_course (err e) = ((refl, fails_loading, is_failed), (refl, (refl, (λ t. refl, refl))))
  connect_course (ok addr) = serve_course addr (wait_ready w.model_name w.polls w.poll_error)

  spawn_course :
      (out errs started : Option String)
      → IsLife id DeploymentState.loading (sent (spawn id w out errs started))
        × IsOrderly false (spawn id w out errs started)
  unfolding spawn fail update
  spawn_course (some e) errs started = ((refl, fails_loading, is_failed), (λ t. refl, refl))
  spawn_course none (some e) started = ((refl, fails_loading, is_failed), (λ t. refl, refl))
  spawn_course none none (some e) = ((refl, fails_loading, is_failed), (λ t. refl, refl))
  spawn_course none none none =
      let (life, orderly) = connect_course (read_engine_addr w.arrival w.stdout w.scan_error) in
      (life, (refl, orderly))

  load_course :
      (r : Result String Bytes)
      → IsLife id DeploymentState.pulling (sent (load id w r)) × IsOrderly false (load id w r)
  unfolding load update
  load_course (err e) = ends_either _ w.stopped_pulling _ stops_pulling fails_pulling
  load_course (ok path) =
      let (life, orderly) = spawn_course w.stdout_pipe w.stderr_pipe w.started in
      ((refl, loads, life), (λ t. refl, orderly))

  progress_course :
      (ps : List ℕ) (acts : List Act)
      → IsLife id DeploymentState.pulling (sent acts) × IsOrderly false acts
      → IsLife id DeploymentState.pulling (sent (progress id w ps ++ acts))
        × IsOrderly false (progress id w ps ++ acts)
  unfolding progress update
  progress_course [] acts h = h
  progress_course (p ∷ ps) acts h =
      let (life, orderly) = progress_course ps acts h in ((refl, pulls, life), (λ t. refl, orderly))

  -- Whatever comes of a deployment on its node, its updates take the course that a manager
  -- promises, from the first, which is PULLING, to one that is terminal and the last; and the
  -- engine's process, if one was started, is waited for before that.
  pub run-IsLife :
      IsLife id DeploymentState.unspecified (sent (run id w)) × IsOrderly false (run id w)
  unfolding run update
  run-IsLife =
      let (life, orderly) =
        progress_course w.pulled (load id w w.download) (load_course w.download) in
      ((refl, accepted, life), (λ t. refl, orderly))
