-- ===== src/Deployments/Selection/Eligibility.antt =====
-- `selectNode` of coordinator/internal/deployments/deployments.go against the rules that it states.
use mathlib.Core.List.{Memᴰ}
use gridlink.Prelude.{
  ap, String, true, false, ◌≡◌, ◌≢◌, ◌≤◌, ◌<◌, ◌⊎◌, inl, inr, refl, sym, ◌∙◌, List, [], ◌∷◌, ◌++◌,
  none, some, Time, arith, eq_iff, contains, Bool-cases, Option-cases, String-cases, ok, err,
}
use gridlink.GoMap.{GoMap, get, values}
use gridlink.Proto.{NodeStatus, RunnerKind, get_usable_vram_mb, get_runners}
use gridlink.Registry.{Node, Registry, snapshot}
use gridlink.Deployments.State.{Deployment, Manager, Replica, has_runner, is_kind}
use gridlink.Deployments.Selection.{
  Verdict, unavailable, skip, take, Skipped, PlaceError, occupied_by_others, is_banned, verdict,
  scan, judge_for, Reason, select_node,
}

later {ℓ} : {A : Type ℓ} {a x : A} {xs : List A} → Memᴰ a (x ∷ xs) → (a ≡ x → ⊥) → Memᴰ a xs
later (Memᴰ.head e) h = absurd (h e)
later (Memᴰ.tail m) h = m

-- The node runs nothing for another deployment of the list.
abbrev pub IsFree : String → String → List Deployment → Type 0
IsFree node id [] = Unit
IsFree node id (d ∷ ds) =
    (d.id ≢ id → (r : Replica) → d.replica ≡ some r → r.node_id ≢ node) × IsFree node id ds

-- The rules of placement.
pub record IsEligible (now : Time) (m : Manager) (d : Deployment) (kind : RunnerKind) (n : Node)
    : Type 0 where
  pub online : n.status ≡ NodeStatus.online
  pub connected : n.send ≢ none
  pub allowed : (until : Time) → get n.id d.avoid ≡ some until → until ≤ now
  pub runs : Memᴰ kind (get_runners n.system)
  pub free : IsFree n.id d.id (values m.deploy)
  pub measured : 0 < get_usable_vram_mb n.gpu
  pub fits : d.spec.min_vram_mb ≤ get_usable_vram_mb n.gpu

pub free_at :
    (node id : String) (ds : List Deployment) (d : Deployment)
    → IsFree node id ds
    → Memᴰ d ds
    → d.id ≢ id
    → (r : Replica) → d.replica ≡ some r
    → r.node_id ≢ node
free_at node id [] d f h = elim h [ ]
free_at node id (x ∷ ds) d f (Memᴰ.head e) = rw e f.0
free_at node id (x ∷ ds) d f (Memᴰ.tail h) = free_at node id ds d f.1 h

is_kind→eq : (a b : RunnerKind) → is_kind a b ≡ true → b ≡ a
is_kind→eq a b h = ground arith

is_kind_self : (a : RunnerKind) → is_kind a a ≡ true
is_kind_self a = ground arith

mem_of_has_runner :
    (rs : List RunnerKind) (want : RunnerKind) → has_runner rs want ≡ true → Memᴰ want rs
unfolding has_runner
mem_of_has_runner [] want h = absurd (ground arith)
mem_of_has_runner (r ∷ rs) want h = elim (Bool-cases (is_kind r want)) [
  | inl e ↦ Memᴰ.head (is_kind→eq r want e)
  | inr e ↦ Memᴰ.tail (mem_of_has_runner rs want (rw (← h, e)))
]

has_runner_of_mem :
    (rs : List RunnerKind) (want : RunnerKind) → Memᴰ want rs → has_runner rs want ≡ true
unfolding has_runner
has_runner_of_mem [] want h = elim h [ ]
has_runner_of_mem (r ∷ rs) want (Memᴰ.head e) = ground (arith, is_kind_self want)
has_runner_of_mem (r ∷ rs) want (Memᴰ.tail h) = ground (arith, has_runner_of_mem rs want h)

IsFree-of_contains :
    (node id : String) (ds : List Deployment)
    → contains node (occupied_by_others id ds) ≡ false
    → IsFree node id ds
unfolding contains occupied_by_others
IsFree-of_contains node id [] h = tt
IsFree-of_contains node id (d ∷ ds) h = (
  λ other r e p. ground (arith, eq_iff d.id id, eq_iff r.node_id node),
  IsFree-of_contains node id ds (ground (arith, eq_iff d.id id)),
)

contains_of_free :
    (node id : String) (ds : List Deployment)
    → IsFree node id ds
    → contains node (occupied_by_others id ds) ≡ false
unfolding contains occupied_by_others
contains_of_free node id [] h = refl
contains_of_free node id (d ∷ ds) (f, fs) = elim (String-cases d.id id) [
  | inl (p, t) ↦ rw t (contains_of_free node id ds fs)
  | inr (p, t) ↦ rw t (elim (Option-cases d.replica) [
    | inl e ↦ ground (arith, contains_of_free node id ds fs)
    | inr (r, e) ↦ ground (arith, f p r e, contains_of_free node id ds fs, eq_iff r.node_id node)
  ])
]

not_banned :
    (avoid : GoMap Time) (now : Time) (id : String)
    → ((until : Time) → get id avoid ≡ some until → until ≤ now)
    → is_banned avoid now id ≡ false
unfolding is_banned
not_banned avoid now id h = elim (Option-cases (get id avoid)) [
  | inl e ↦ rw (e, is_banned)
  | inr (until, e) ↦ rw (e, is_banned) (ground (arith, h until e))
]

module _ (now : Time) (m : Manager) (d : Deployment) (kind : RunnerKind) (n : Node) where
  IsEligible-of_take : judge_for now m d kind n ≡ take → IsEligible now m d kind n
  unfolding verdict
  IsEligible-of_take h = record {
    online = ground arith;
    connected = ground arith;
    allowed = λ until e. ground arith;
    runs = mem_of_has_runner (get_runners n.system) kind (unfold has_runner in ground arith);
    free = IsFree-of_contains n.id d.id (values m.deploy) (ground arith);
    measured = ground arith;
    fits = ground arith;
  }

  take_of_IsEligible : IsEligible now m d kind n → judge_for now m d kind n ≡ take
  unfolding verdict
  take_of_IsEligible v = ground (
    arith,
    v,
    not_banned d.avoid now n.id v.allowed,
    contains_of_free n.id d.id (values m.deploy) v.free,
    has_runner_of_mem (get_runners n.system) kind v.runs,
  )

Verdict-cases : (v : Verdict) → (v ≡ unavailable) ⊎ ((r : Reason) × (v ≡ skip r)) ⊎ (v ≡ take)
Verdict-cases unavailable = inl refl
Verdict-cases (skip r) = inr (inl (r, refl))
Verdict-cases take = inr (inr refl)

module _ (judge : Node → Verdict) where
  scan_sound :
      (ns : List Node) (skipped : List Skipped) (n : Node)
      → scan judge ns skipped ≡ ok n
      → Memᴰ n ns × (judge n ≡ take)
  unfolding scan
  scan_sound [] skipped n h = absurd (cc)
  scan_sound (x ∷ ns) skipped n h = elim (Verdict-cases (judge x)) [
    | inl e ↦ let (at, ok') = scan_sound ns skipped n (rw (e, scan) at h) in (Memᴰ.tail at, ok')
    | inr (inl (r, e)) ↦
        let more = skipped ++ record { node_id = x.id; reason = r } ∷ [] in
        let (at, ok') = scan_sound ns more n (rw (e, scan) at h) in (Memᴰ.tail at, ok')
    | inr (inr e) ↦ let p : x ≡ n = ground arith in (Memᴰ.head (sym p), ap judge (sym p) ∙ e)
  ]

  scan_complete :
      (ns : List Node) (skipped : List Skipped) (n : Node)
      → Memᴰ n ns
      → judge n ≡ take
      → (n' : Node) × (scan judge ns skipped ≡ ok n')
  unfolding scan
  scan_complete [] skipped n h t = elim h [ ]
  scan_complete (x ∷ ns) skipped n h t = elim (Verdict-cases (judge x)) [
    | inl e ↦ rw (e, scan) (scan_complete ns skipped n (later h (λ p. ground arith)) t)
    | inr (inl (r, e)) ↦
        rw (e, scan)
          (scan_complete ns (skipped ++ record { node_id = x.id; reason = r } ∷ []) n
            (later h (λ p. ground arith)) t)
    | inr (inr e) ↦ (x, rw (e, scan))
  ]

-- The node that placement takes is one of the registry's snapshot and meets every rule: ONLINE with
-- a stream, not banned after a recent failure, advertising the runner, free of other deployments,
-- with a known GPU budget, and one that covers the requirement.
pub select_node_sound :
    (now : Time) (reg : Registry) (m : Manager) (d : Deployment) (kind : RunnerKind) (n : Node)
    → select_node now reg m d kind ≡ ok n
    → Memᴰ n (snapshot reg) × IsEligible now m d kind n
unfolding select_node
select_node_sound now reg m d kind n h =
    let (at, t) = scan_sound (judge_for now m d kind) (snapshot reg) [] n h in
    (at, IsEligible-of_take now m d kind n t)

-- Placement is refused only if no node of the snapshot meets every rule.
pub select_node_complete :
    (now : Time) (reg : Registry) (m : Manager) (d : Deployment) (kind : RunnerKind)
    (e : PlaceError)
    → select_node now reg m d kind ≡ err e
    → (n : Node) → Memᴰ n (snapshot reg)
    → ¬ IsEligible now m d kind n
unfolding select_node
select_node_complete now reg m d kind e h n at v =
    let (n', found) =
      scan_complete (judge_for now m d kind) (snapshot reg) [] n at
        (take_of_IsEligible now m d kind n v) in
    ground arith
