-- ===== src/Deployments/Queries/Models.antt =====
-- `DeployedModels` and `ServableModels`: the names that the gateway lists.
use Prim.Native.Nat.{Ordering}
use Prim.Native.String.{compare}
use mathlib.Core.List.{Memᴰ}
use gridlink.Prelude.{
  String, true, false, ◌≡◌, ◌⊎◌, ◌↔◌, inl, inr, refl, sym, List, [], ◌∷◌, contains, Bool-cases,
  mem-cons_split, mem_of_contains,
}
use gridlink.GoMap.{values}
use gridlink.Registry.{Registry}
use gridlink.Deployments.State.{Deployment, Manager}
use gridlink.Deployments.Queries.{
  Route, resolve, model_names, insert_string, sort_strings, deployed_models, is_routable, servable,
  servable_models,
}
use gridlink.Deployments.Queries.Routing.{resolve_sound}

Ordering-cases : (o : Ordering) → (o ≡ Ordering.lt) ⊎ (o ≡ Ordering.eq) ⊎ (o ≡ Ordering.gt)
Ordering-cases Ordering.lt = inl refl
Ordering-cases Ordering.eq = inr (inl refl)
Ordering-cases Ordering.gt = inr (inr refl)

mem-insert_string :
    (a s : String) (ts : List String) → Memᴰ a (insert_string s ts) ↔ ((a ≡ s) ⊎ Memᴰ a ts)
unfolding insert_string
mem-insert_string a s [] =
    (λ h. mem-cons_split h, λ h. elim h [ inl e ↦ Memᴰ.head e | inr m ↦ absurd (elim m [ ]) ])
mem-insert_string a s (t ∷ ts) = elim (Ordering-cases (compare s t)) [
  | inl e ↦ rw (e, insert_string) (front)
  | inr (inl e) ↦ rw (e, insert_string) (front)
  | inr (inr e) ↦ rw (e, insert_string) (deeper (mem-insert_string a s ts))
]
  where
    front : Memᴰ a (s ∷ t ∷ ts) ↔ ((a ≡ s) ⊎ Memᴰ a (t ∷ ts))
    front = (λ h. mem-cons_split h, λ h. elim h [ inl e ↦ Memᴰ.head e | inr m ↦ Memᴰ.tail m ])

    deeper :
        (Memᴰ a (insert_string s ts) ↔ ((a ≡ s) ⊎ Memᴰ a ts))
        → Memᴰ a (t ∷ insert_string s ts) ↔ ((a ≡ s) ⊎ Memᴰ a (t ∷ ts))
    deeper ih = (
      λ h. elim (mem-cons_split h) [
        | inl e ↦ inr (Memᴰ.head e)
        | inr m ↦ elim (ih.0 m) [ inl e ↦ inl e | inr k ↦ inr (Memᴰ.tail k) ]
      ],
      λ h. elim h [
        | inl e ↦ Memᴰ.tail (ih.1 (inl e))
        | inr m ↦ elim (mem-cons_split m) [ inl e ↦ Memᴰ.head e | inr k ↦ Memᴰ.tail (ih.1 (inr k)) ]
      ],
    )

mem-sort_strings : (a : String) (ss : List String) → Memᴰ a (sort_strings ss) ↔ Memᴰ a ss
unfolding sort_strings
mem-sort_strings a [] = (λ h. h, λ h. h)
mem-sort_strings a (s ∷ ss) =
    let ih = mem-sort_strings a ss in
    let i = mem-insert_string a s (sort_strings ss) in
    (
      λ h. elim (i.0 h) [ inl e ↦ Memᴰ.head e | inr m ↦ Memᴰ.tail (ih.0 m) ],
      λ h. elim (mem-cons_split h) [ inl e ↦ i.1 (inl e) | inr m ↦ i.1 (inr (ih.1 m)) ],
    )

model_names_sound :
    (a : String) (ds : List Deployment)
    → Memᴰ a (model_names ds)
    → (d : Deployment) × Memᴰ d ds × (d.spec.served_model_name ≡ a)
unfolding model_names
model_names_sound a [] h = elim h [ ]
model_names_sound a (d ∷ ds) h =
    elim (Bool-cases (contains d.spec.served_model_name (model_names ds))) [
      | inl e ↦
          let (x, at, p) = model_names_sound a ds (rw (e, model_names) at h) in (x, Memᴰ.tail at, p)
      | inr e ↦ elim (mem-cons_split (rw (e, model_names) at h)) [
        | inl p ↦ (d, Memᴰ.head refl, sym p)
        | inr m ↦ let (x, at, p) = model_names_sound a ds m in (x, Memᴰ.tail at, p)
      ]
    ]

model_names_complete :
    (d : Deployment) (ds : List Deployment)
    → Memᴰ d ds
    → Memᴰ d.spec.served_model_name (model_names ds)
unfolding model_names
model_names_complete d [] h = elim h [ ]
model_names_complete d (x ∷ ds) (Memᴰ.head p) =
    rw p (elim (Bool-cases (contains x.spec.served_model_name (model_names ds))) [
      | inl e ↦ rw (e, model_names) (mem_of_contains x.spec.served_model_name (model_names ds) e)
      | inr e ↦ rw (e, model_names) (Memᴰ.head refl)
    ])
model_names_complete d (x ∷ ds) (Memᴰ.tail h) =
    elim (Bool-cases (contains x.spec.served_model_name (model_names ds))) [
      | inl e ↦ rw (e, model_names) (model_names_complete d ds h)
      | inr e ↦ rw (e, model_names) (Memᴰ.tail (model_names_complete d ds h))
    ]

-- A name is among the deployed models exactly if some deployment in the table has it.
pub deployed_models_exact :
    (m : Manager) (name : String)
    → Memᴰ name (deployed_models m)
      ↔ ((d : Deployment) × Memᴰ d (values m.deploy) × (d.spec.served_model_name ≡ name))
unfolding deployed_models
deployed_models_exact m name = (
  λ h.
      model_names_sound name (values m.deploy)
        ((mem-sort_strings name (model_names (values m.deploy))).0 h),
  λ (d, at, p).
      (mem-sort_strings name (model_names (values m.deploy))).1
        (rw (← p) (model_names_complete d (values m.deploy) at)),
)

mem-servable :
    (reg : Registry) (m : Manager) (name : String) (names : List String)
    → Memᴰ name (servable reg m names)
      ↔ (Memᴰ name names × (is_routable (resolve reg m name) ≡ true))
unfolding servable
mem-servable reg m name [] = (λ h. absurd (elim h [ ]), λ (h, _). h)
mem-servable reg m name (x ∷ xs) = elim (Bool-cases (is_routable (resolve reg m x))) [
  | inl e ↦
      rw (e, servable)
        (
          λ h. elim (mem-cons_split h) [
            | inl p ↦ (Memᴰ.head p, rw p e)
            | inr k ↦ let (at, ok') = (mem-servable reg m name xs).0 k in (Memᴰ.tail at, ok')
          ],
          λ (h, r). elim (mem-cons_split h) [
            | inl p ↦ Memᴰ.head p
            | inr k ↦ Memᴰ.tail ((mem-servable reg m name xs).1 (k, r))
          ],
        )
  | inr e ↦
      rw (e, servable)
        (
          λ h. let (at, ok') = (mem-servable reg m name xs).0 h in (Memᴰ.tail at, ok'),
          λ (h, r). elim (mem-cons_split h) [
            | inl p ↦ absurd (unroutable x p e r)
            | inr k ↦ (mem-servable reg m name xs).1 (k, r)
          ],
        )
]
  where
    unroutable :
        (y : String)
        → name ≡ y
        → is_routable (resolve reg m y) ≡ false
        → is_routable (resolve reg m name) ≡ true
        → ⊥
    unroutable y p e r = cc

routable_of_mem : (routes : List Route) (r : Route) → Memᴰ r routes → is_routable routes ≡ true
routable_of_mem [] r h = elim h [ ]
routable_of_mem (x ∷ xs) r h = refl

mem_of_routable : (routes : List Route) → is_routable routes ≡ true → (r : Route) × Memᴰ r routes
mem_of_routable [] h = absurd (cc)
mem_of_routable (x ∷ xs) h = (x, Memᴰ.head refl)

-- Listed and routable do not drift apart: a name is among the servable models exactly if resolving
-- it gives a route.
pub servable_models_exact :
    (reg : Registry) (m : Manager) (name : String)
    → Memᴰ name (servable_models reg m) ↔ ((r : Route) × Memᴰ r (resolve reg m name))
unfolding servable_models
servable_models_exact reg m name = (
  λ h. mem_of_routable (resolve reg m name) ((mem-servable reg m name (deployed_models m)).0 h).1,
  λ (r, at).
      let (d, _, _, mem, up, _) = resolve_sound reg m name r at in
      (mem-servable reg m name (deployed_models m)).1 (
        (deployed_models_exact m name).1 (d, mem, up.named),
        routable_of_mem (resolve reg m name) r at,
      ),
)
