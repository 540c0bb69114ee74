-- ===== src/Gateway/Proxy/Auth.antt =====
-- `withAuth` of gateway/internal/proxy/proxy.go.
use gridlink.Prelude.{
  ℕ, String, Bool, true, false, ◌≡◌, ◌↔◌, refl, sym, ap, ◌∙◌, ◌≤◌, ◌<◌, ◌||◌, not, List, [], ◌∷◌,
  ◌++◌, map, Option, none, some, leb, if◌then◌else◌, length, length-append, inl, inr, Option-cases,
  Result, ok, err, ok_inj, arith,
}
use gridlink.Bytes.{
  Bytes, lower, bytes_eq, equal_fold, take, drop, bytes_eq_sound, bytes_eq_refl, take-drop,
  take-append, drop-append, length-map-lower, length-take_le,
}

pub data AuthError : Type 0 where
  missing_bearer_token invalid_api_key : AuthError

-- The bytes of `Bearer `.
abbrev pub bearer : Bytes
bearer = 66 ∷ 101 ∷ 97 ∷ 114 ∷ 101 ∷ 114 ∷ 32 ∷ []

-- `Config.APIKeys`, from key to key id.
abbrev pub Keys : Type 0
Keys = List (Bytes × String)

unfoldable pub lookup : Bytes → Keys → Option String
unfolding bytes_eq
lookup key [] = none
lookup key ((k, id) ∷ ks) = if bytes_eq k key then some id else lookup key ks

unfoldable pub find_key : Bytes → Keys → Result AuthError String
unfolding lookup
find_key key keys = elim (lookup key keys) [ none ↦ err invalid_api_key | some id ↦ ok id ]

-- The key id with which the handler behind runs, for an `Authorization` header, `[]` if unset.
unfoldable pub with_auth : Keys → Bytes → Result AuthError String
unfolding equal_fold take drop find_key
with_auth [] auth = ok "anonymous"
with_auth (k ∷ ks) auth =
    if leb (length auth) (length bearer) || not (equal_fold (take auth (length bearer)) bearer)
    then err missing_bearer_token
    else find_key (drop auth (length bearer)) (k ∷ ks)

-- The header is the scheme, then a key that is not empty and has that id.
pub record Presents (keys : Keys) (auth : Bytes) (id : String) : Type 0 where
  pub scheme : Bytes
  pub key : Bytes
  pub header : auth ≡ scheme ++ key
  pub folds : map lower scheme ≡ map lower bearer
  pub given : 1 ≤ length key
  pub known : lookup key keys ≡ some id

find_key-known :
    (key : Bytes) (keys : Keys) (id : String)
    → find_key key keys ≡ ok id
    → lookup key keys ≡ some id
unfolding find_key
find_key-known key keys id h = elim (Option-cases (lookup key keys)) [
  | inl e ↦ absurd (ground arith)
  | inr (x, e) ↦ e ∙ ap some (ok_inj (rw (e, find_key) at h))
]

find_key-of_known :
    (key : Bytes) (keys : Keys) (id : String)
    → lookup key keys ≡ some id
    → find_key key keys ≡ ok id
unfolding find_key
find_key-of_known key keys id e = rw (e, find_key) refl

leb-false : (a b : ℕ) → b < a → leb a b ≡ false
leb-false a b h = ground arith

-- The two tests of the header, one by one.
tests_passed :
    {A : Type 0} (short same : Bool) (x : Result AuthError A) (id : A)
    → (if short || not same then err missing_bearer_token else x) ≡ ok id
    → (short ≡ false) × (same ≡ true) × (x ≡ ok id)
tests_passed short same x id h = ground arith

pass_tests :
    {A : Type 0} (short same : Bool) (x : Result AuthError A)
    → short ≡ false
    → same ≡ true
    → (if short || not same then err missing_bearer_token else x) ≡ x
pass_tests short same x p q = ground arith

with_auth_sound :
    (k : Bytes × String) (ks : Keys) (auth : Bytes) (id : String)
    → with_auth (k ∷ ks) auth ≡ ok id
    → Presents (k ∷ ks) auth id
unfolding with_auth equal_fold
with_auth_sound k ks auth id h =
    let (long, same, found) =
      tests_passed (leb (length auth) 7) (equal_fold (take auth 7) bearer)
        (find_key (drop auth 7) (k ∷ ks)) id h in
    record {
      scheme = take auth 7;
      key = drop auth 7;
      header = sym (take-drop auth 7);
      folds = bytes_eq_sound (map lower (take auth 7)) (map lower bearer) same;
      given = rest long;
      known = find_key-known (drop auth 7) (k ∷ ks) id found;
    }
  where
    rest : leb (length auth) 7 ≡ false → 1 ≤ length (drop auth 7)
    rest long =
        let more : 7 < length auth = ground arith in
        omega (
          arith,
          more,
          length-take_le auth 7,
          sym (length-append (take auth 7) (drop auth 7)) ∙ ap length (take-drop auth 7),
        )

with_auth_complete :
    (k : Bytes × String) (ks : Keys) (scheme key : Bytes) (id : String)
    → map lower scheme ≡ map lower bearer
    → 1 ≤ length key
    → lookup key (k ∷ ks) ≡ some id
    → with_auth (k ∷ ks) (scheme ++ key) ≡ ok id
unfolding with_auth equal_fold
with_auth_complete k ks scheme key id folds given known =
    pass_tests (leb (length (scheme ++ key)) 7) (equal_fold (take (scheme ++ key) 7) bearer)
      (find_key (drop (scheme ++ key) 7) (k ∷ ks))
      (leb-false _ 7 (omega (arith, size, given, length-append scheme key)))
      (rw (rw size at (take-append scheme key), folds) (bytes_eq_refl (map lower bearer)))
    ∙ ap (λ x. find_key x (k ∷ ks)) (rw size at (drop-append scheme key))
    ∙ find_key-of_known key (k ∷ ks) id known
  where
    size : length scheme ≡ 7
    size = sym (length-map-lower scheme) ∙ ap length folds ∙ length-map-lower bearer

-- With API keys configured, a request is served exactly if its header is `Bearer `, in any case of
-- its letters, followed by a key that is not empty and is one of them; it is then served under the
-- id of that key.
pub with_auth-exact :
    (k : Bytes × String) (ks : Keys) (auth : Bytes) (id : String)
    → (with_auth (k ∷ ks) auth ≡ ok id) ↔ Presents (k ∷ ks) auth id
with_auth-exact k ks auth id = (
  with_auth_sound k ks auth id,
  λ p.
      ap (with_auth (k ∷ ks)) p.header
      ∙ with_auth_complete k ks p.scheme p.key id p.folds p.given p.known,
)
