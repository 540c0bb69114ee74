-- ===== src/Native/Readiness.antt =====
-- `waitReady` of agent/internal/deploy/native.go.
use mathlib.Core.List.{Memᴰ}
use gridlink.Prelude.{
  ℕ, String, Bool, true, false, ◌≡◌, ◌↔◌, refl, ◌&&◌, List, [], ◌∷◌, Option, none, some, ◌==◌,
  if◌then◌else◌, Bool-cases, inl, inr, mem-cons_split,
}
use gridlink.Bytes.{Bytes, take}
use gridlink.Bytes.Search.{has_text}

-- What one request to the engine yields.
pub data Poll : Type 0 where
  no_response : Poll
  response : ℕ → Bytes → Poll

-- `resp.StatusCode == http.StatusOK && strings.Contains(string(body), modelName)`, of the first 4096
-- bytes of the body.
unfoldable pub serves : Bytes → Poll → Bool
unfolding take has_text
serves model no_response = false
serves model (response status body) = (status == 200) && has_text (take body 4096) model

-- The loop over the requests that are made before the context is done, with the context's error;
-- `none` is a nil error.
unfoldable pub wait_ready : Bytes → List Poll → String → Option String
unfolding serves
wait_ready model [] why = some why
wait_ready model (poll ∷ polls) why =
    let rest = wait_ready model polls why in if serves model poll then none else rest

-- The engine counts as ready exactly if one of the requests that are made before the time is over
-- is answered with status 200 and a body that has the model's name in its first 4096 bytes.
pub wait_ready-exact :
    (model : Bytes) (polls : List Poll) (why : String)
    → (wait_ready model polls why ≡ none)
      ↔ ((poll : Poll) × Memᴰ poll polls × (serves model poll ≡ true))
unfolding wait_ready
wait_ready-exact model [] why = (λ h. absurd (cc), λ (poll, m, s). elim m [ ])
wait_ready-exact model (poll ∷ polls) why = elim (Bool-cases (serves model poll)) [
  | inl t ↦ rw t (λ h. (poll, Memᴰ.head refl, t), λ h. refl)
  | inr f ↦
      let (to, from) = wait_ready-exact model polls why in
      rw f (
        λ h. let (p, m, s) = to h in (p, Memᴰ.tail m, s),
        λ (p, m, s). elim (mem-cons_split m) [
          | inl e ↦ absurd (let s' = rw e at s in cc)
          | inr n ↦ from (p, n, s)
        ],
      )
]
