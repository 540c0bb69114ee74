-- ===== src/Store/Migrations.antt =====
-- `migrate` of coordinator/internal/store/store.go. The database and the embedded files are
-- outside: how each of their calls ends for a migration is given with it.
use gridlink.Prelude.{
  String, Bool, true, false, ◌≡◌, refl, sym, ap, ◌∙◌, List, [], ◌∷◌, ◌++◌, contains, if◌then◌else◌,
  inl, inr, Bool-cases, Result, Result-cases, ok, err, arith,
}
use mathlib.Core.Path.{subst}
use mathlib.Core.List.{append_assoc, append-nil}

pub data MigrateError : Type 0 where
  check_failed read_failed begin_failed apply_failed record_failed commit_failed : MigrateError

-- How the calls for one migration end: `SELECT EXISTS` fails; it succeeds, and so does the
-- transaction, if there is one; or one of the later calls fails, with whether the transaction
-- took effect nonetheless, as it may when only the answer to `Commit` is lost.
pub data Course : Type 0 where
  unchecked : Course
  smooth : Course
  broken : MigrateError → Bool → Course

-- The transaction holds the migration and the row that records it, so the names of
-- `schema_migrations` are those of the migrations in effect, in the order of their application.
abbrev pub Applied : Type 0
Applied = List String

-- Applying one migration that is not in the table yet.
unfoldable pub apply_one : Course → String → Applied → Applied × Result MigrateError (Unit {0})
apply_one unchecked name applied = (applied, err check_failed)
apply_one smooth name applied = (applied ++ name ∷ [], ok tt)
apply_one (broken e true) name applied = (applied ++ name ∷ [], err e)
apply_one (broken e false) name applied = (applied, err e)

-- The body of the loop.
unfoldable pub migrate_one : Course → String → Applied → Applied × Result MigrateError (Unit {0})
unfolding apply_one
migrate_one unchecked name applied = (applied, err check_failed)
migrate_one c name applied =
    if contains name applied then (applied, ok tt) else apply_one c name applied

-- The loop over the sorted names.
unfoldable pub migrate :
    (String → Course) → List String → Applied → Applied × Result MigrateError (Unit {0})
unfolding migrate_one
migrate db [] applied = (applied, ok tt)
migrate db (name ∷ names) applied =
    let (applied', result) = migrate_one (db name) name applied in
    let rest = migrate db names applied' in elim result [ err e ↦ (applied', err e) | ok _ ↦ rest ]

-- The names that are not in the table, in the order of the files, each once.
unfoldable pub pending : List String → Applied → List String
pending [] applied = []
pending (name ∷ names) applied =
    let skipped = pending names applied in
    let taken = pending names (applied ++ name ∷ []) in
    if contains name applied then skipped else name ∷ taken

-- Some of the pending migrations were applied, in order and from the first, and if the run succeeded
-- all of them.
pub record IsPrefix (names : List String) (before after : Applied)
    (result : Result MigrateError (Unit {0})) : Type 0 where
  pub added : List String
  pub left : List String
  pub split : pending names before ≡ added ++ left
  pub applied : after ≡ before ++ added
  pub complete : result ≡ ok tt → left ≡ []

-- One name: it is skipped, applied, or the run ends there.
pub data Turn (name : String) (before after : Applied) (result : Result MigrateError (Unit {0}))
    : Type 0 where
  skips : contains name before ≡ true → after ≡ before → Turn name before after result
  applies :
      contains name before ≡ false → after ≡ before ++ name ∷ [] → Turn name before after result
  stops : (e : MigrateError) → after ≡ before → result ≡ err e → Turn name before after result

migrate_one-Turn :
    (c : Course) (name : String) (before : Applied)
    → Turn name before (migrate_one c name before).0 (migrate_one c name before).1
unfolding migrate_one apply_one
migrate_one-Turn unchecked name before = stops check_failed refl refl
migrate_one-Turn smooth name before = elim (Bool-cases (contains name before)) [
  | inl t ↦ rw t (skips t refl)
  | inr f ↦ rw f (applies f refl)
]
migrate_one-Turn (broken e true) name before = elim (Bool-cases (contains name before)) [
  | inl t ↦ rw t (skips t refl)
  | inr f ↦ rw f (applies f refl)
]
migrate_one-Turn (broken e false) name before = elim (Bool-cases (contains name before)) [
  | inl t ↦ rw t (skips t refl)
  | inr f ↦ rw f (stops e refl refl)
]

module _ (name : String) (names : List String) (before after : Applied)
    (result : Result MigrateError (Unit {0})) where
  after_skip :
      contains name before ≡ true
      → IsPrefix names before after result
      → IsPrefix (name ∷ names) before after result
  unfolding pending
  after_skip t p = record {
    added = p.added;
    left = p.left;
    split = rw t p.split;
    applied = p.applied;
    complete = p.complete;
  }

  after_apply :
      contains name before ≡ false
      → IsPrefix names (before ++ name ∷ []) after result
      → IsPrefix (name ∷ names) before after result
  unfolding pending
  after_apply f p = record {
    added = name ∷ p.added;
    left = p.left;
    split = rw f (ap (λ xs. name ∷ xs) p.split);
    applied = p.applied ∙ append_assoc before (name ∷ []) p.added;
    complete = p.complete;
  }

-- A run that ends with an error before it applied anything.
halted :
    (names : List String) (before : Applied) (e : MigrateError)
    → IsPrefix names before before (err e)
halted names before e = record {
  added = [];
  left = pending names before;
  split = refl;
  applied = sym (append-nil before);
  complete = λ h. absurd (ground arith);
}

-- The migrations that a run finds missing from its table are applied in the order of their files,
-- each once, none that the table has, and from the first up to the one at which a call fails; a
-- run that succeeds applies all of them.
pub migrate-IsPrefix :
    (db : String → Course) (names : List String) (before : Applied)
    → IsPrefix names before (migrate db names before).0 (migrate db names before).1
unfolding migrate pending
migrate-IsPrefix db [] before = record {
  added = [];
  left = [];
  split = refl;
  applied = sym (append-nil before);
  complete = λ _. refl;
}
migrate-IsPrefix db (name ∷ names) before =
    let one = migrate_one (db name) name before in
    let rest = migrate-IsPrefix db names one.0 in
    let from : (b : Applied)
        → one.0 ≡ b
        → IsPrefix names b (migrate db names one.0).0 (migrate db names one.0).1 =
      λ b q.
        subst (λ b. IsPrefix names b (migrate db names one.0).0 (migrate db names one.0).1) q
          rest in
    elim (Result-cases one.1) [
      | inr (e, p) ↦
          rw (p, migrate)
            (elim (migrate_one-Turn (db name) name before) [
              | skips t q ↦ rw q (halted (name ∷ names) before e)
              | applies f q ↦ rw q (after_apply name names before _ (err e) f (halted names _ e))
              | stops e' q _ ↦ rw q (halted (name ∷ names) before e)
            ])
      | inl (u, p) ↦
          rw (p, migrate)
            (elim (migrate_one-Turn (db name) name before) [
              | skips t q ↦ after_skip name names before _ _ t (from _ q)
              | applies f q ↦ after_apply name names before _ _ f (from _ q)
              | stops e' q r ↦ absurd (ground arith)
            ])
    ]
