-- ===== src/Deployments/Recovery.antt =====
-- `Reconcile`: which deployments its two loops pass on, and what holds of those still to place.
pub mod Maximal
pub mod Avoidance
use mathlib.Core.Path.{subst}
use mathlib.Core.List.{Memᴰ}
use gridlink.Prelude.{
  String, Bool, true, false, ◌≡◌, ◌≢◌, ◌⊎◌, inl, inr, refl, sym, ap, ◌∙◌, List, [], ◌∷◌, Option,
  none, some, arith, eq_iff, str_eq, Option-cases, String-cases, some_inj, mem-collect,
  collect_of_mem,
}
use gridlink.GoMap.{GoMap, get, values, Distinct}
use gridlink.GoMap.Laws.{mem_of_get, get_of_mem}
use gridlink.Proto.{RunnerKind}
use gridlink.Wire.{Env}
use gridlink.Registry.{Registry}
use gridlink.Deployments.State.{Deployment, Manager, Replica}
use gridlink.Deployments.Actions.{place}
use gridlink.Deployments.Reconciler.{if_unplaced, to_place}
use gridlink.Deployments.Exclusive.{IsValid, node_at}
use gridlink.Deployments.Placing.{get-place_other}

-- No deployment of the list has the id.
abbrev pub NoId : String → List Deployment → Type 0
NoId id [] = Unit
NoId id (d ∷ ds) = (id ≢ d.id) × NoId id ds

-- The list holds unplaced deployments of the table, as they stand in it, and none twice.
abbrev pub IsPending : Manager → List Deployment → Type 0
IsPending m [] = Unit
IsPending m (d ∷ ds) =
    ((get d.id m.deploy ≡ some d) × (d.replica ≡ none)) × NoId d.id ds × IsPending m ds

-- Placing one deployment leaves the others pending.
pub place-IsPending :
    (env : Env) (reg : Registry) (m : Manager) (d : Deployment) (kind : RunnerKind)
    (ds : List Deployment)
    → NoId d.id ds
    → IsPending m ds
    → IsPending (place env reg m d kind).0 ds
place-IsPending env reg m d kind [] nx p = tt
place-IsPending env reg m d kind (x ∷ ds) (ne, nd) ((e, q), nx, p) = (
  (get-place_other env reg m d kind x.id ne ∙ e, q),
  nx,
  place-IsPending env reg m d kind ds nd p,
)

NoId-of_mem :
    (id : String) (ds : List Deployment) → ((d : Deployment) → Memᴰ d ds → id ≢ d.id) → NoId id ds
NoId-of_mem id [] h = tt
NoId-of_mem id (d ∷ ds) h = (h d (Memᴰ.head refl), NoId-of_mem id ds (λ x at. h x (Memᴰ.tail at)))

-- What `to_place` keeps.
pub to_place_sound :
    (d : Deployment) (ds : List Deployment) → Memᴰ d (to_place ds) → Memᴰ d ds × (d.replica ≡ none)
unfolding to_place
to_place_sound d ds h =
    let (x, at, e) = mem-collect if_unplaced d ds h in
    let same : x ≡ d = ground arith in (subst (λ y. Memᴰ y ds) same at, ground arith)

pub mem-to_place :
    (d : Deployment) (ds : List Deployment) → Memᴰ d ds → d.replica ≡ none → Memᴰ d (to_place ds)
unfolding to_place
mem-to_place d ds at e = collect_of_mem if_unplaced d d ds at (ground arith)

to_place_bare :
    (d : Deployment) (ds : List Deployment) → d.replica ≡ none → to_place (d ∷ ds) ≡ d ∷ to_place ds
unfolding to_place
to_place_bare d ds e = ground arith

to_place_placed :
    (d : Deployment) (r : Replica) (ds : List Deployment)
    → d.replica ≡ some r
    → to_place (d ∷ ds) ≡ to_place ds
unfolding to_place
to_place_placed d r ds e = ground arith

Keyed : GoMap Deployment → Type 0
Keyed t = (k : String) (d : Deployment) → get k t ≡ some d → d.id ≡ k

module _ (m : Manager) where
  IsPending-entries :
      (entries : GoMap Deployment)
      → ((k : String) (d : Deployment) → get k entries ≡ some d → get k m.deploy ≡ some d)
      → Distinct entries
      → Keyed entries
      → IsPending m (to_place (values entries))
  unfolding values get Keyed
  IsPending-entries [] up ds keyed = unfold to_place in tt
  IsPending-entries ((k, d) ∷ rest) up (fresh, ds) keyed =
      let later =
        IsPending-entries rest (λ j x e. up j x (deeper j x e)) ds
          (λ j x e. keyed j x (deeper j x e)) in
      elim (Option-cases d.replica) [
        | inl e ↦ rw (to_place_bare d (values rest) e) (
          (subst (λ i. get i m.deploy ≡ some d) (sym own) (up k d here), e),
          NoId-of_mem d.id (to_place (values rest)) (λ x at. other x (to_place_sound x _ at).0),
          later,
        )
        | inr (r, e) ↦ rw (to_place_placed d r (values rest) e) later
      ]
    where
      here : get k ((k, d) ∷ rest) ≡ some d
      here = ground (arith, eq_iff k k)

      own : d.id ≡ k
      own = keyed k d here

      deeper : (j : String) (x : Deployment) → get j rest ≡ some x → get j ((k, d) ∷ rest) ≡ some x
      deeper j x e = ground (arith, eq_iff k j, fresh)

      other : (x : Deployment) → Memᴰ x (values rest) → d.id ≢ x.id
      other x at p =
          let (j, e) = get_of_mem x rest ds at in
          let q : j ≡ k = sym (keyed j x (deeper j x e)) ∙ sym p ∙ own in
          cc (ap (λ i. get i rest) q)

-- The second loop starts with all unplaced deployments pending.
pub to_place-IsPending : (m : Manager) → IsValid m → IsPending m (to_place (values m.deploy))
unfolding Keyed
to_place-IsPending m v = IsPending-entries m m.deploy (λ k d e. e) v.distinct v.keyed
