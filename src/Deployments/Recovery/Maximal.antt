-- ===== src/Deployments/Recovery/Maximal.antt =====
-- `Reconcile` of coordinator/internal/deployments/deployments.go, and the deployments that it
-- leaves unplaced.
use mathlib.Core.Path.{subst}
use mathlib.Core.List.{Memᴰ}
use gridlink.Prelude.{
  String, ◌≡◌, ◌≢◌, inl, inr, sym, ap, ◌∙◌, List, [], ◌∷◌, none, some, arith, eq_iff, Option-cases,
  String-cases, some_inj, mem-cons_split, Result-cases,
}
use gridlink.GoMap.{get, values, map_values}
use gridlink.GoMap.Laws.{mem_of_get}
use gridlink.Proto.{RunnerKind}
use gridlink.Wire.{Env}
use gridlink.Registry.{Node, Registry, snapshot}
use gridlink.Deployments.State.{Deployment, Manager, required_runner, set_replica}
use gridlink.Deployments.Selection.{select_node}
use gridlink.Deployments.Selection.Eligibility.{IsEligible, select_node_complete}
use gridlink.Deployments.Actions.{place, placement}
use gridlink.Deployments.Reconciler.{sweep, to_place, place_all, reconcile}
use gridlink.Deployments.Exclusive.{
  IsValid, node_of, node_at, get-assign, IsFree-of_node_at, node_at_of_IsFree,
}
use gridlink.Deployments.Exclusive.Methods.{place-IsValid, swept-IsValid}
use gridlink.Deployments.Placing.{AllSend, place_refused, place_selected, get-place_other}
use gridlink.Deployments.Recovery.{IsPending, place-IsPending, to_place-IsPending, mem-to_place}

-- A deployment of the table that is not placed, and a node of the snapshot that would take it.
pub record IsOverlooked (env : Env) (reg : Registry) (m : Manager) (k : String) : Type 0 where
  pub d : Deployment
  pub kind : RunnerKind
  pub n : Node
  pub stored : get k m.deploy ≡ some d
  pub unplaced : d.replica ≡ none
  pub runner : required_runner d.spec ≡ some kind
  pub listed : Memᴰ n (snapshot reg)
  pub eligible : IsEligible env.now m d kind n

-- The only deployments that can be overlooked are those of the list.
abbrev OnlyOf : Env → Registry → Manager → List Deployment → Type 0
OnlyOf env reg m ds =
    (k : String) → IsOverlooked env reg m k → (d : Deployment) × Memᴰ d ds × (d.id ≡ k)

module _ (env : Env) (reg : Registry) (m : Manager) (d : Deployment) (kind : RunnerKind)
    (v : IsValid m) (stored : get d.id m.deploy ≡ some d) (bare : d.replica ≡ none) where
  -- What is placed stays placed.
  node_at-place :
      (k n : String) → node_at m k ≡ some n → node_at (place env reg m d kind).0 k ≡ some n
  node_at-place k n h = elim (String-cases d.id k) [
    | inl (p, _) ↦ absurd (ground (arith, ap (λ i. get i m.deploy) p))
    | inr (p, _) ↦ ap node_of (get-place_other env reg m d kind k p) ∙ h
  ]

  IsEligible-before :
      (x : Deployment) (kind' : RunnerKind) (n : Node)
      → IsEligible env.now (place env reg m d kind).0 x kind' n
      → IsEligible env.now m x kind' n
  IsEligible-before x kind' n w = record {
    online = w.online;
    connected = w.connected;
    allowed = w.allowed;
    runs = w.runs;
    free = IsFree-of_node_at m n.id x.id v (λ k ne at.
        node_at_of_IsFree (place env reg m d kind).0 n.id x.id k (place-IsValid env reg m d kind v)
          w.free ne (node_at-place k n.id at));
    measured = w.measured;
    fits = w.fits;
  }

  -- The deployment that was just tried is not overlooked afterwards.
  settled :
      AllSend env
      → required_runner d.spec ≡ some kind
      → ¬ IsOverlooked env reg (place env reg m d kind).0 d.id
  settled all runner o = elim (Result-cases (select_node env.now reg m d kind)) [
    | inl (n, q) ↦
        let (_, _, e, _) = place_selected env reg m d kind all n q in
        let at = get-assign d.id d.id (set_replica (some (placement env.now d n))) m in
        ground (
          arith,
          ap (λ x. get d.id x.deploy) e ∙ at,
          stored,
          o.stored,
          o.unplaced,
          eq_iff d.id d.id,
        )
    | inr (e, q) ↦
        let same : d ≡ o.d = some_inj (
          sym stored
          ∙ ap (λ x. get d.id x.deploy) (sym (place_refused env reg m d kind e q))
          ∙ o.stored) in
        let kinds : o.kind ≡ kind =
          some_inj
            (sym o.runner ∙ ap (λ (x : Deployment). required_runner x.spec) (sym same) ∙ runner) in
        select_node_complete env.now reg m d kind e q o.n o.listed (
          subst (λ x. IsEligible env.now m x kind o.n) (sym same)
            (subst (λ x. IsEligible env.now m o.d x o.n) kinds
              (IsEligible-before o.d o.kind o.n o.eligible)))
  ]

  -- One that is overlooked afterwards was overlooked before.
  IsOverlooked-before :
      (k : String)
      → d.id ≢ k
      → IsOverlooked env reg (place env reg m d kind).0 k
      → IsOverlooked env reg m k
  IsOverlooked-before k ne o = record {
    d = o.d;
    kind = o.kind;
    n = o.n;
    stored = sym (get-place_other env reg m d kind k ne) ∙ o.stored;
    unplaced = o.unplaced;
    runner = o.runner;
    listed = o.listed;
    eligible = IsEligible-before o.d o.kind o.n o.eligible;
  }

place_all-maximal :
    (env : Env) (reg : Registry) (ds : List Deployment) (m : Manager)
    → AllSend env
    → IsValid m
    → IsPending m ds
    → OnlyOf env reg m ds
    → (k : String) → ¬ IsOverlooked env reg (place_all env reg ds m).0 k
unfolding place_all
place_all-maximal env reg [] m all v p only k = λ o. let (d, at, _) = only k o in elim at [ ]
place_all-maximal env reg (d ∷ ds) m all v ((stored, bare), nx, p) only k =
    elim (Option-cases (required_runner d.spec)) [
      | inl e ↦ rw (e, place_all) (place_all-maximal env reg ds m all v p (without e) k)
      | inr (kind, e) ↦
          rw (e, place_all)
            (place_all-maximal env reg ds (place env reg m d kind).0 all
              (place-IsValid env reg m d kind v) (place-IsPending env reg m d kind ds nx p)
              (after kind e) k)
    ]
  where
    without : required_runner d.spec ≡ none → OnlyOf env reg m ds
    without e j o =
        let (x, at, q) = only j o in
        elim (mem-cons_split at) [
          | inr h ↦ (x, h, q)
          | inl h ↦
              let same : d ≡ o.d = some_inj (
                sym stored
                ∙ ap (λ i. get i m.deploy) (ap (λ (y : Deployment). y.id) (sym h) ∙ q)
                ∙ o.stored) in
              absurd
                (ground (arith, e, o.runner, ap (λ (y : Deployment). required_runner y.spec) same))
        ]

    after :
        (kind : RunnerKind)
        → required_runner d.spec ≡ some kind
        → OnlyOf env reg (place env reg m d kind).0 ds
    after kind e j o = elim (String-cases d.id j) [
      | inl (q, _) ↦ absurd (
          settled env reg m d kind v stored bare all e
            (subst (λ i. IsOverlooked env reg (place env reg m d kind).0 i) (sym q) o))
      | inr (ne, _) ↦
          let (x, at, q) = only j (IsOverlooked-before env reg m d kind v stored bare j ne o) in
          elim (mem-cons_split at) [
            | inr h ↦ (x, h, q)
            | inl h ↦ absurd (ne (ap (λ (y : Deployment). y.id) (sym h) ∙ q))
          ]
    ]

-- If every stream takes its message, a pass of the reconciler leaves no deployment of a valid table
-- unplaced while some node of the registry's snapshot meets every rule for it: nodes are missing
-- only where they were given to other deployments, or did not qualify.
pub reconcile-maximal :
    (env : Env) (reg : Registry) (m : Manager) (k : String)
    → AllSend env
    → IsValid m
    → ¬ IsOverlooked env reg (reconcile env reg m).0 k
unfolding reconcile
reconcile-maximal env reg m k all v =
    let swept : Manager = record m { deploy = map_values (sweep env.now reg) m.deploy } in
    let v' = swept-IsValid env.now reg m v in
    place_all-maximal env reg (to_place (values swept.deploy)) swept all v'
      (to_place-IsPending swept v')
      (λ j o. (
        o.d,
        mem-to_place o.d (values swept.deploy) (mem_of_get j o.d swept.deploy o.stored) o.unplaced,
        v'.keyed j o.d o.stored,
      ))
      k
