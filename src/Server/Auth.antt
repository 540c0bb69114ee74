-- ===== src/Server/Auth.antt =====
-- The token check of coordinator/internal/server/server.go. A header is the sequence of its bytes,
-- as a Go string is.
use gridlink.Prelude.{
  ℕ, Bool, true, false, ◌≡◌, refl, sym, ap, ◌∙◌, ◌+◌, ◌≤◌, ◌||◌, not, List, [], ◌∷◌, ◌++◌, map,
  Option, none, some, ltb, if◌then◌else◌, length, length-append, Option-cases, inl, inr, arith,
  Result, ok, err, ◌↔◌,
}
use gridlink.GoMap.{GoMap, get}
use gridlink.Bytes.{
  Bytes, lower, bytes_eq, equal_fold, take, drop, bytes_eq_sound, bytes_eq_refl, take-drop,
  take-append, drop-append, length-map-lower,
}

pub data AuthError : Type 0 where
  missing_metadata missing_authorization invalid_token : AuthError

-- The bytes of `bearer `.
abbrev pub prefix : Bytes
prefix = 98 ∷ 101 ∷ 97 ∷ 114 ∷ 101 ∷ 114 ∷ 32 ∷ []

unfoldable pub check_value : Bytes → Bytes → Result AuthError (Unit {0})
unfolding equal_fold take drop bytes_eq
check_value got want =
    if ltb (length got) (length prefix)
      || not (equal_fold (take got (length prefix)) prefix)
      || not (bytes_eq (drop got (length prefix)) want)
    then err invalid_token
    else ok tt

-- The metadata of the call: none, or the values under each key.
unfoldable pub check_token : Option (GoMap (List Bytes)) → Bytes → Result AuthError (Unit {0})
unfolding check_value get
check_token none want = err missing_metadata
check_token (some md) want = elim (get "authorization" md) [
  | none ↦ err missing_authorization
  | some vals ↦ elim vals [ [] ↦ err missing_authorization | got ∷ _ ↦ check_value got want ]
]

-- The call has metadata whose first authorization value is `bearer ` in any case, then the token.
pub record Bears (md : Option (GoMap (List Bytes))) (want : Bytes) : Type 0 where
  pub table : GoMap (List Bytes)
  pub scheme : Bytes
  pub others : List Bytes
  pub present : md ≡ some table
  pub header : get "authorization" table ≡ some ((scheme ++ want) ∷ others)
  pub folds : map lower scheme ≡ prefix

map-lower-prefix : map lower prefix ≡ prefix
unfolding lower
map-lower-prefix = refl

length-scheme : (scheme : Bytes) → map lower scheme ≡ prefix → length scheme ≡ 7
length-scheme scheme h = sym (length-map-lower scheme) ∙ ap length h

check_value_sound :
    (got want : Bytes)
    → check_value got want ≡ ok tt
    → (scheme : Bytes) × (got ≡ scheme ++ want) × (map lower scheme ≡ prefix)
unfolding check_value equal_fold
check_value_sound got want h = (
  take got 7,
  sym (take-drop got 7)
      ∙ ap (λ ys. take got 7 ++ ys) (bytes_eq_sound (drop got 7) want (ground arith)),
  bytes_eq_sound (map lower (take got 7)) prefix (ground arith) ∙ map-lower-prefix,
)

pub lt_false : (a b : ℕ) → b ≤ a → ltb a b ≡ false
lt_false a b h = ground arith

accepted :
    (short same token : Bool)
    → short ≡ false
    → same ≡ true
    → token ≡ true
    → (if short || not same || not token then err invalid_token else ok (tt {0})) ≡ ok tt
accepted short same token p q r = ground arith

check_value_complete :
    (scheme want : Bytes) → map lower scheme ≡ prefix → check_value (scheme ++ want) want ≡ ok tt
unfolding check_value equal_fold
check_value_complete scheme want folds =
    accepted _ _ _ (lt_false (length (scheme ++ want)) 7 (omega (arith, long, size))) tested rest
  where
    size : length scheme ≡ 7
    size = length-scheme scheme folds

    long : length (scheme ++ want) ≡ length scheme + length want
    long = length-append scheme want

    taken : take (scheme ++ want) 7 ≡ scheme
    taken = rw size at (take-append scheme want)

    dropped : drop (scheme ++ want) 7 ≡ want
    dropped = rw size at (drop-append scheme want)

    tested : bytes_eq (map lower (take (scheme ++ want) 7)) (map lower prefix) ≡ true
    tested = rw (taken, folds) (bytes_eq_refl prefix)

    rest : bytes_eq (drop (scheme ++ want) 7) want ≡ true
    rest = rw dropped (bytes_eq_refl want)

-- A call passes the check exactly if it has metadata whose first authorization value is the scheme
-- `bearer `, in any case of its letters, followed by the token.
pub check_token-exact :
    (md : Option (GoMap (List Bytes))) (want : Bytes)
    → (check_token md want ≡ ok tt) ↔ Bears md want
unfolding check_token
check_token-exact md want = (
  passes md,
  λ b. rw (b.present, check_token) (rw b.header (check_value_complete b.scheme want b.folds)),
)
  where
    passes : (o : Option (GoMap (List Bytes))) → check_token o want ≡ ok tt → Bears o want
    passes none h = absurd (ground arith)
    passes (some m) h = elim (Option-cases (get "authorization" m)) [
      | inl e ↦ absurd (ground arith)
      | inr ([], e) ↦ absurd (ground arith)
      | inr (got ∷ others, e) ↦
          let (scheme, p, f) = check_value_sound got want (ground arith) in
          record {
            table = m;
            scheme = scheme;
            others = others;
            present = refl;
            header = e ∙ ap (λ x. some (x ∷ others)) p;
            folds = f;
          }
    ]
