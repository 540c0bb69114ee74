-- ===== src/Deployments/Selection.antt =====
-- `selectNode` of coordinator/internal/deployments/deployments.go.
pub mod Eligibility
use gridlink.Prelude.{
  ℕ, String, Bool, true, false, ◌&&◌, ◌==◌, not, ltb, List, [], ◌∷◌, ◌++◌, Option, none, some, Time,
  str_eq, contains, if◌then◌else◌, Result, ok, err,
}
use gridlink.GoMap.{GoMap, get, values}
use gridlink.Proto.{RunnerKind, get_usable_vram_mb, get_runners}
use gridlink.Registry.{Node, Registry, is_online, snapshot}
use gridlink.Deployments.State.{Deployment, Manager, Replica, has_runner}

-- Why a node was passed over, as the refusal's text says it.
pub data Reason : Type 0 where
  recently_failed hosts_deployment usable_vram_unknown : Reason
  no_runner : RunnerKind → Reason
  usable_below_required : ℕ → ℕ → Reason

pub record Skipped : Type 0 where
  pub node_id : String
  pub reason : Reason

pub data PlaceError : Type 0 where
  no_online_nodes : PlaceError
  no_capacity : List Skipped → PlaceError
  send_failed : String → PlaceError
  nil_send : PlaceError

-- The nodes that other deployments are placed on.
unfoldable pub occupied_by_others : String → List Deployment → List String
occupied_by_others id [] = []
occupied_by_others id (other ∷ rest) =
    let more = occupied_by_others id rest in
    if str_eq other.id id
    then more
    else elim other.replica [ none ↦ more | some r ↦ r.node_id ∷ more ]

abbrev pub has_stream : Node → Bool
has_stream n = elim n.send [ none ↦ false | some _ ↦ true ]

unfoldable pub is_banned : GoMap Time → Time → String → Bool
is_banned avoid now id = elim (get id avoid) [ none ↦ false | some until ↦ ltb now until ]

-- One round of the loop: pass the node over in silence, or with a reason, or take it.
pub data Verdict : Type 0 where
  unavailable : Verdict
  skip : Reason → Verdict
  take : Verdict

unfoldable pub verdict : Time → GoMap Time → List String → RunnerKind → ℕ → Node → Verdict
unfolding is_banned has_runner
verdict now avoid occupied kind min_vram n =
    let usable = get_usable_vram_mb n.gpu in
    if not (is_online n.status && has_stream n)
    then unavailable
    else if is_banned avoid now n.id
    then skip recently_failed
    else if not (has_runner (get_runners n.system) kind)
    then skip (no_runner kind)
    else if contains n.id occupied
    then skip hosts_deployment
    else if usable == 0
    then skip usable_vram_unknown
    else if ltb 0 min_vram && ltb usable min_vram
    then skip (usable_below_required usable min_vram)
    else take

unfoldable pub refusal : List Skipped → PlaceError
refusal [] = no_online_nodes
refusal (s ∷ ss) = no_capacity (s ∷ ss)

-- The loop over the snapshot, with the reasons collected so far.
unfoldable pub scan : (Node → Verdict) → List Node → List Skipped → Result PlaceError Node
unfolding refusal
scan judge [] skipped = err (refusal skipped)
scan judge (n ∷ ns) skipped = elim (judge n) [
  | unavailable ↦ scan judge ns skipped
  | skip reason ↦ scan judge ns (skipped ++ record { node_id = n.id; reason = reason } ∷ [])
  | take ↦ ok n
]

abbrev pub judge_for : Time → Manager → Deployment → RunnerKind → Node → Verdict
judge_for now m d kind =
    verdict now d.avoid (occupied_by_others d.id (values m.deploy)) kind d.spec.min_vram_mb

unfoldable pub select_node :
    Time → Registry → Manager → Deployment → RunnerKind → Result PlaceError Node
unfolding scan
select_node now reg m d kind = scan (judge_for now m d kind) (snapshot reg) []
