-- ===== src/Deployments/Creation.antt =====
-- `Create` of coordinator/internal/deployments/deployments.go on every branch.
use gridlink.Prelude.{
  ℕ, String, false, ◌≤◌, ◌≡◌, ◌≢◌, inl, inr, refl, sym, ap, ◌∙◌, none, some, arith, eq_iff,
  is_empty, ltb, Bool-cases, Option-cases, ok, err,
}
use gridlink.GoMap.{get, put}
use gridlink.GoMap.Laws.{get-put_self, get-put_other}
use gridlink.Proto.{DeploymentSpec, Engine, RunnerKind}
use gridlink.Wire.{Env}
use gridlink.Registry.{Registry}
use gridlink.Deployments.State.{Deployment, Manager, set_replica, runner_of, required_runner}
use gridlink.Deployments.Actions.{
  CreateError, invalid_spec, replicas_unsupported, created, enter, create, lacks_model_file,
  placement,
}
use gridlink.Deployments.Exclusive.{get-assign}
use gridlink.Deployments.Placing.{place-cases, get-place_other}

-- What a spec must have: a model name, one replica at most, an engine, and for the native engine a
-- model file.
pub record IsAcceptable (spec : DeploymentSpec) (replicas : ℕ) : Type 0 where
  pub named : spec.served_model_name ≢ ""
  pub single : replicas ≤ 1
  pub engine_set : spec.engine ≢ Engine.unset
  pub file_named : lacks_model_file spec.engine ≡ false

runner_unset : (e : Engine) → runner_of e ≡ none → e ≡ Engine.unset
unfolding runner_of
runner_unset e h = ground arith

runner_set :
    (spec : DeploymentSpec) (kind : RunnerKind)
    → required_runner spec ≡ some kind
    → spec.engine ≢ Engine.unset
unfolding required_runner
runner_set spec kind h p = ground arith

get-enter :
    (env : Env) (reg : Registry) (m : Manager) (spec : DeploymentSpec) (kind : RunnerKind)
    → (d : Deployment) × (get env.new_id (enter env reg m spec kind).0.deploy ≡ some d)
      × (d.spec ≡ record spec { deployment_id = env.new_id })
unfolding enter
get-enter env reg m spec kind =
    let d = created env spec in
    let m' : Manager = record m { deploy = put env.new_id d m.deploy } in
    let at = get-put_self env.new_id d m.deploy in
    elim (place-cases env reg m' d kind) [
      | inl e ↦ (d, ap (λ x. get env.new_id x.deploy) e ∙ at, refl)
      | inr (n, _, e) ↦
          let r = placement env.now d n in
          (
            record d { replica = some r },
            ap (λ x. get env.new_id x.deploy) e
                ∙ get-assign env.new_id env.new_id (set_replica (some r)) m'
                ∙ ground (arith, eq_iff env.new_id env.new_id, at),
            refl,
          )
    ]

get-enter_other :
    (env : Env) (reg : Registry) (m : Manager) (spec : DeploymentSpec) (kind : RunnerKind)
    (k : String)
    → k ≢ env.new_id
    → get k (enter env reg m spec kind).0.deploy ≡ get k m.deploy
unfolding enter
get-enter_other env reg m spec kind k ne =
    let d = created env spec in
    get-place_other env reg (record m { deploy = put env.new_id d m.deploy }) d kind k
      (λ e. ne (sym e))
    ∙ get-put_other env.new_id k d m.deploy (λ e. ne (sym e))

accepted :
    (env : Env) (reg : Registry) (m : Manager) (spec : DeploymentSpec) (replicas : ℕ)
    → IsAcceptable spec replicas
    → (kind : RunnerKind) × ((create env reg m spec replicas).0 ≡ (enter env reg m spec kind).0)
      × ((create env reg m spec replicas).1 ≡ ok env.new_id)
unfolding create
accepted env reg m spec replicas h = elim (Option-cases (required_runner spec)) [
  | inl e ↦ absurd (h.engine_set (runner_unset spec.engine (unfold required_runner in e)))
  | inr (kind, e) ↦ (
    kind,
    ground (arith, h, eq_iff spec.served_model_name ""),
    ground (arith, h, eq_iff spec.served_model_name ""),
  )
]

refused :
    (env : Env) (reg : Registry) (m : Manager) (spec : DeploymentSpec) (replicas : ℕ)
    → ¬ IsAcceptable spec replicas
    → (e : CreateError) × ((create env reg m spec replicas).1 ≡ err e)
      × ((create env reg m spec replicas).0 ≡ m)
unfolding create
refused env reg m spec replicas h = elim (Bool-cases (is_empty spec.served_model_name)) [
  | inl e ↦ (invalid_spec, ground arith, ground arith)
  | inr named ↦ elim (Bool-cases (ltb 1 replicas)) [
    | inl e ↦ (replicas_unsupported, ground arith, ground arith)
    | inr single ↦ elim (Option-cases (required_runner spec)) [
      | inl e ↦ (invalid_spec, ground arith, ground arith)
      | inr (kind, e) ↦ elim (Bool-cases (lacks_model_file spec.engine)) [
        | inl q ↦ (invalid_spec, ground arith, ground arith)
        | inr q ↦ absurd (
            h (record {
              named = λ p. ground (arith, eq_iff spec.served_model_name "");
              single = ground arith;
              engine_set = λ p. runner_set spec kind e p;
              file_named = q;
            }))
      ]
    ]
  ]
]

-- `Create` refuses a spec that is not acceptable and leaves the table alone. It accepts any other,
-- whether or not a node takes it now: the answer is the new id, under which the table then has
-- the spec, with every other deployment as it was.
pub create_exact :
    (env : Env) (reg : Registry) (m : Manager) (spec : DeploymentSpec) (replicas : ℕ)
    → let (m', result, _) = create env reg m spec replicas in
      (IsAcceptable spec replicas
        → (d : Deployment) × (result ≡ ok env.new_id)
          × (get env.new_id m'.deploy ≡ some d)
          × (d.spec ≡ record spec { deployment_id = env.new_id })
          × ((k : String) → k ≢ env.new_id → get k m'.deploy ≡ get k m.deploy))
      × (¬ IsAcceptable spec replicas → (e : CreateError) × (result ≡ err e) × (m' ≡ m))
create_exact env reg m spec replicas = (
  λ h.
      let (kind, e, q) = accepted env reg m spec replicas h in
      let (d, at, own) = get-enter env reg m spec kind in
      (
        d,
        q,
        ap (λ x. get env.new_id x.deploy) e ∙ at,
        own,
        λ k ne. ap (λ x. get k x.deploy) e ∙ get-enter_other env reg m spec kind k ne,
      ),
  refused env reg m spec replicas,
)
