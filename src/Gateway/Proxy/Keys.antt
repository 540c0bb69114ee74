-- ===== src/Gateway/Proxy/Keys.antt =====
-- `KeysFromEnv` of gateway/internal/proxy/proxy.go, and with it what `withAuth` serves.
use mathlib.Core.List.{Memᴰ}
use gridlink.Prelude.{
  ℕ, suc, String, ◌≡◌, ◌≢◌, ◌↔◌, ◌⊎◌, inl, inr, refl, sym, ap, ◌∙◌, ◌≤◌, List, [], ◌∷◌, ◌++◌, some,
  ok, length, map, arith, Bool-cases, mem-cons_split,
}
use gridlink.Bytes.{Bytes, lower, bytes_eq, bytes_eq_sound, bytes_eq_refl}
use gridlink.Bytes.Fields.{split, trim_space}
use gridlink.Gateway.Proxy.Auth.{Keys, bearer, lookup, with_auth, Presents, with_auth-exact}

-- `name` is `fmt.Sprintf("key-%d", n)`.
module _ (name : ℕ → String) where
  -- One turn of the loop, with the trimmed part: the keys so far and `n`. An entry that is
  -- overwritten stays behind the new one, where no lookup finds it.
  unfoldable pub named : Bytes → Keys × ℕ → Keys × ℕ
  named [] (out, n) = (out, n)
  named (b ∷ k) (out, n) = ((b ∷ k, name n) ∷ out, suc n)

  unfoldable pub name_all : List Bytes → Keys × ℕ → Keys
  unfolding named trim_space
  name_all [] (out, n) = out
  name_all (part ∷ parts) s = name_all parts (named (trim_space part) s)

  -- `KeysFromEnv`, for the value of the variable.
  unfoldable pub keys_from_env : Bytes → Keys
  unfolding name_all split
  keys_from_env value = name_all (split 44 value) ([], 0)

  -- The key is a part of the list, trimmed, that is not empty.
  pub record IsListed (parts : List Bytes) (key : Bytes) : Type 0 where
    pub part : Bytes
    pub listed : Memᴰ part parts
    pub trimmed : trim_space part ≡ key
    pub filled : key ≢ []

  IsListed-tail :
      {part : Bytes} {parts : List Bytes} {key : Bytes}
      → IsListed parts key
      → IsListed (part ∷ parts) key
  IsListed-tail l = record {
    part = l.part;
    listed = Memᴰ.tail l.listed;
    trimmed = l.trimmed;
    filled = l.filled;
  }

  named_sound :
      (key t : Bytes) (s : Keys × ℕ) (id : String)
      → lookup key (named t s).0 ≡ some id
      → (lookup key s.0 ≡ some id) ⊎ ((t ≡ key) × (t ≢ []))
  unfolding named lookup
  named_sound key [] (out, n) id h = inl h
  named_sound key (b ∷ k) (out, n) id h = elim (Bool-cases (bytes_eq (b ∷ k) key)) [
    | inl t ↦ inr (bytes_eq_sound (b ∷ k) key t, λ e. absurd (cc))
    | inr f ↦ inl (rw f at h)
  ]

  named_keeps :
      (key t : Bytes) (s : Keys × ℕ) (id : String)
      → lookup key s.0 ≡ some id
      → (other : String) × (lookup key (named t s).0 ≡ some other)
  unfolding named lookup
  named_keeps key [] (out, n) id h = (id, h)
  named_keeps key (b ∷ k) (out, n) id h = elim (Bool-cases (bytes_eq (b ∷ k) key)) [
    | inl t ↦ (name n, rw t refl)
    | inr f ↦ (id, rw f h)
  ]

  named_adds :
      (t : Bytes) (s : Keys × ℕ) → t ≢ [] → (id : String) × (lookup t (named t s).0 ≡ some id)
  unfolding named lookup
  named_adds [] (out, n) ne = absurd (ne refl)
  named_adds (b ∷ k) (out, n) ne = (name n, rw (bytes_eq_refl (b ∷ k)) refl)

  name_all_sound :
      (key : Bytes) (parts : List Bytes) (s : Keys × ℕ) (id : String)
      → lookup key (name_all parts s) ≡ some id
      → ((before : String) × (lookup key s.0 ≡ some before)) ⊎ IsListed parts key
  unfolding name_all
  name_all_sound key [] (out, n) id h = inl (id, h)
  name_all_sound key (part ∷ parts) s id h =
      elim (name_all_sound key parts (named (trim_space part) s) id h) [
        | inr l ↦ inr (IsListed-tail l)
        | inl (before, e) ↦ elim (named_sound key (trim_space part) s before e) [
          | inl e' ↦ inl (before, e')
          | inr (same, ne) ↦ inr (record {
            part = part;
            listed = Memᴰ.head refl;
            trimmed = same;
            filled = λ e'. ne (same ∙ e');
          })
        ]
      ]

  name_all_keeps :
      (key : Bytes) (parts : List Bytes) (s : Keys × ℕ) (id : String)
      → lookup key s.0 ≡ some id
      → (other : String) × (lookup key (name_all parts s) ≡ some other)
  unfolding name_all
  name_all_keeps key [] (out, n) id h = (id, h)
  name_all_keeps key (part ∷ parts) s id h =
      let (other, e) = named_keeps key (trim_space part) s id h in
      name_all_keeps key parts (named (trim_space part) s) other e

  name_all_adds :
      (part : Bytes) (parts : List Bytes) (s : Keys × ℕ)
      → Memᴰ part parts
      → trim_space part ≢ []
      → (id : String) × (lookup (trim_space part) (name_all parts s) ≡ some id)
  unfolding name_all
  name_all_adds part [] s m ne = elim m [ ]
  name_all_adds part (p ∷ parts) s m ne = elim (mem-cons_split m) [
    | inr m' ↦ name_all_adds part parts (named (trim_space p) s) m' ne
    | inl same ↦
        let (id, e) = named_adds (trim_space part) s ne in
        name_all_keeps (trim_space part) parts (named (trim_space p) s) id
          (ap (λ q. lookup (trim_space part) (named (trim_space q) s).0) (sym same) ∙ e)
  ]

  pub known-IsListed :
      (value key : Bytes)
      → ((id : String) × (lookup key (keys_from_env value) ≡ some id))
        ↔ IsListed (split 44 value) key
  unfolding keys_from_env lookup
  known-IsListed value key = (
    λ (id, h). elim (name_all_sound key (split 44 value) ([], 0) id h) [
      | inr l ↦ l
      | inl (before, e) ↦ absurd (cc)
    ],
    λ l.
        let (id, e) =
          name_all_adds l.part (split 44 value) ([], 0) l.listed
            (λ e. l.filled (sym l.trimmed ∙ e)) in
        (id, ap (λ k. lookup k (keys_from_env value)) (sym l.trimmed) ∙ e),
  )

  -- The header is the scheme, then one of the keys.
  pub record Offers (value auth : Bytes) : Type 0 where
    pub scheme : Bytes
    pub key : Bytes
    pub header : auth ≡ scheme ++ key
    pub folds : map lower scheme ≡ map lower bearer
    pub listed : IsListed (split 44 value) key

  Presents-of_served :
      (keys : Keys) (auth : Bytes) (id : String)
      → keys ≢ []
      → with_auth keys auth ≡ ok id
      → Presents keys auth id
  Presents-of_served [] auth id ne h = absurd (ne refl)
  Presents-of_served (k ∷ ks) auth id ne h = (with_auth-exact k ks auth id).0 h

  served_of_Presents :
      (keys : Keys) (auth : Bytes) (id : String)
      → keys ≢ []
      → Presents keys auth id
      → with_auth keys auth ≡ ok id
  served_of_Presents [] auth id ne p = absurd (ne refl)
  served_of_Presents (k ∷ ks) auth id ne p = (with_auth-exact k ks auth id).1 p

  filled_length : (key : Bytes) → key ≢ [] → 1 ≤ length key
  filled_length [] ne = absurd (ne refl)
  filled_length (b ∷ key) ne = omega arith

  -- If the variable has a key, a request is served exactly if its header is `Bearer `, in any case
  -- of its letters, followed by a part of the variable's list, cut at its commas and trimmed, that
  -- is not empty.
  pub served-IsListed :
      (value auth : Bytes)
      → keys_from_env value ≢ []
      → ((id : String) × (with_auth (keys_from_env value) auth ≡ ok id)) ↔ Offers value auth
  served-IsListed value auth ne = (
    λ (id, h).
        let p = Presents-of_served (keys_from_env value) auth id ne h in
        record {
          scheme = p.scheme;
          key = p.key;
          header = p.header;
          folds = p.folds;
          listed = (known-IsListed value p.key).0 (id, p.known);
        },
    λ o.
        let (id, known) = (known-IsListed value o.key).1 o.listed in
        (
          id,
          served_of_Presents (keys_from_env value) auth id ne (record {
            scheme = o.scheme;
            key = o.key;
            header = o.header;
            folds = o.folds;
            given = filled_length o.key o.listed.filled;
            known = known;
          }),
        ),
  )
