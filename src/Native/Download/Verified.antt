-- ===== src/Native/Download/Verified.antt =====
-- What `downloadModel` of agent/internal/deploy/download.go leaves on the disk.
use gridlink.Prelude.{
  Bool, true, false, not, ◌&&◌, ◌||◌, ◌≡◌, ◌≢◌, refl, ◌∙◌, ◌⊎◌, inl, inr, [], ◌∷◌, Option, none,
  some, Result, ok, err, ◌==◌, if◌then◌else◌, map, arith, Result-cases,
}
use gridlink.Bytes.{Bytes, is_nil, lower, bytes_eq_sound, bytes_eq_refl}
use gridlink.Native.Cache.{ModelSpec, FilePath, dest_of, model_url}
use gridlink.Native.Download.{
  Disk, path_eq, assign, DownloadError, mkdir_failed, bad_url, request_failed, fetch_failed,
  bad_status, temp_failed, copy_failed, close_failed, mismatch, rename_failed, Fetch, matches,
  install, fetch, from_cache, download_model,
}

path_eq_refl : (p : FilePath) → path_eq p p ≡ true
unfolding path_eq
path_eq_refl [] = refl
path_eq_refl (a ∷ p) = ground (arith, bytes_eq_refl a, path_eq_refl p)

assign_here : (p : FilePath) (o : Option Bytes) (disk : Disk) → assign p o disk p ≡ o
unfolding assign
assign_here p o disk = rw (path_eq_refl p) refl

assign_there :
    (p q : FilePath) (o : Option Bytes) (disk : Disk)
    → path_eq p q ≡ false
    → assign p o disk q ≡ disk q
unfolding assign
assign_there p q o disk h = rw h refl

module _ (sha256_hex : Bytes → Bytes) (base : Bytes) (dir : FilePath) (spec : ModelSpec)
    (w : Fetch) where
  -- A path that is returned is that of the cache, and has a file with the digest that is asked for;
  -- after an error the cache has what it had, or nothing.
  abbrev pub IsVerified : Disk → Result DownloadError FilePath → Disk → Type 0
  IsVerified before (ok p) disk =
      (p ≡ dest_of dir spec)
      × (content : Bytes) × (disk p ≡ some content)
      × (spec.sha256 ≢ [] → sha256_hex content ≡ map lower spec.sha256)
  IsVerified before (err e) disk =
      (disk (dest_of dir spec) ≡ before (dest_of dir spec)) ⊎ (disk (dest_of dir spec) ≡ none)

  pub record IsSound (before : Disk) (r : Result DownloadError FilePath × Disk) : Type 0 where
    pub untouched : (q : FilePath) → path_eq (dest_of dir spec) q ≡ false → r.1 q ≡ before q
    pub verified : IsVerified before r.0 r.1

  if_IsSound :
      (before : Disk) (b : Bool) {x y : Result DownloadError FilePath × Disk}
      → (b ≡ true → IsSound before x)
      → (b ≡ false → IsSound before y)
      → IsSound before (if b then x else y)
  if_IsSound before true hx hy = hx refl
  if_IsSound before false hx hy = hy refl

  nil_of_test : (s : Bytes) → is_nil s ≡ true → s ≡ []
  nil_of_test [] h = refl
  nil_of_test (b ∷ s) h = absurd (cc)

  -- What the digest's test says of a file that passes.
  digest_of_test :
      (content : Bytes)
      → (is_nil spec.sha256 ≡ true) ⊎ (matches sha256_hex base dir spec w content ≡ true)
      → spec.sha256 ≢ []
      → sha256_hex content ≡ map lower spec.sha256
  unfolding matches
  digest_of_test content (inl h) ne = absurd (ne (nil_of_test spec.sha256 h))
  digest_of_test content (inr h) ne = bytes_eq_sound (sha256_hex content) (map lower spec.sha256) h

  passes : (a b : Bool) → (not a && not b) ≡ false → (a ≡ true) ⊎ (b ≡ true)
  passes true b h = inl refl
  passes false b h = inr (ground arith)

  hits : (a b c : Bool) → (a || (b && c)) ≡ true → (a ≡ true) ⊎ (c ≡ true)
  hits true b c h = inl refl
  hits false b c h = inr (ground arith)

  installed :
      (before disk : Disk)
      → ((e : DownloadError) → IsSound before (err e, disk))
      → (not (is_nil spec.sha256) && not (matches sha256_hex base dir spec w w.body)) ≡ false
      → IsSound before (ok (dest_of dir spec), assign (dest_of dir spec) (some w.body) disk)
  installed before disk kept pass = record {
    untouched = λ q h.
        assign_there (dest_of dir spec) q (some w.body) disk h ∙ (kept rename_failed).untouched q h;
    verified = (
      refl,
      w.body,
      assign_here (dest_of dir spec) (some w.body) disk,
      digest_of_test w.body
          (passes (is_nil spec.sha256) (matches sha256_hex base dir spec w w.body) pass),
    );
  }

  install-IsSound :
      (before disk : Disk)
      → ((e : DownloadError) → IsSound before (err e, disk))
      → IsSound before (install sha256_hex base dir spec w disk)
  unfolding install
  install-IsSound before disk kept =
      if_IsSound before (not (w.status == 200)) (λ t. kept bad_status)
        λ _.
          if_IsSound before (not w.temp_ok) (λ t. kept temp_failed)
            λ _.
              if_IsSound before (not w.copy_ok) (λ t. kept copy_failed)
                λ _.
                  if_IsSound before (not w.close_ok) (λ t. kept close_failed)
                    λ _.
                      if_IsSound before
                        (not (is_nil spec.sha256)
                          && not (matches sha256_hex base dir spec w w.body))
                        (λ t. kept mismatch)
                        λ pass.
                          if_IsSound before (not w.rename_ok) (λ t. kept rename_failed)
                            λ _. installed before disk kept pass

  fetch-IsSound :
      (before disk : Disk)
      → ((e : DownloadError) → IsSound before (err e, disk))
      → IsSound before (fetch sha256_hex base dir spec w disk)
  unfolding fetch
  fetch-IsSound before disk kept =
      elim (Result-cases (model_url base spec.model_ref spec.model_file spec.revision)) [
        | inr (e, p) ↦ rw (p, fetch) (kept (bad_url e))
        | inl (url, p) ↦
            rw (p, fetch)
              (if_IsSound before (not w.request_ok) (λ t. kept request_failed)
                λ _.
                  if_IsSound before (not w.fetch_ok) (λ t. kept fetch_failed)
                    λ _. install-IsSound before disk kept)
      ]

  kept_whole : (before : Disk) (e : DownloadError) → IsSound before (err e, before)
  kept_whole before e = record { untouched = λ q h. refl; verified = inl refl }

  kept_removed :
      (before : Disk) (e : DownloadError)
      → IsSound before (err e, assign (dest_of dir spec) none before)
  kept_removed before e = record {
    untouched = λ q h. assign_there (dest_of dir spec) q none before h;
    verified = inr (assign_here (dest_of dir spec) none before);
  }

  removed-IsSound :
      (before : Disk) (b : Bool)
      → IsSound before (
          fetch sha256_hex base dir spec w
            (if b then assign (dest_of dir spec) none before else before))
  removed-IsSound before true = fetch-IsSound before _ (kept_removed before)
  removed-IsSound before false = fetch-IsSound before before (kept_whole before)

  from_cache-IsSound :
      (before : Disk) (o : Option Bytes)
      → before (dest_of dir spec) ≡ o
      → IsSound before (from_cache sha256_hex base dir spec w o before)
  unfolding from_cache
  from_cache-IsSound before none e = fetch-IsSound before before (kept_whole before)
  from_cache-IsSound before (some content) e =
      if_IsSound before
        (is_nil spec.sha256 || (w.read_ok && matches sha256_hex base dir spec w content))
        (λ t. record {
          untouched = λ q h. refl;
          verified = (
            refl,
            content,
            e,
            digest_of_test content (
                hits (is_nil spec.sha256) w.read_ok (matches sha256_hex base dir spec w content) t),
          );
        })
        (λ f. removed-IsSound before w.remove_ok)

  -- A download that returns a path returns that of the cache, where there is then a file with the
  -- digest that the spec asks for, if it asks for one; after an error the cache has under that path
  -- what it had, or nothing. Nothing else changes on the disk.
  pub download_model-IsSound :
      (before : Disk) → IsSound before (download_model sha256_hex base dir spec w before)
  unfolding download_model
  download_model-IsSound before =
      if_IsSound before w.mkdir_ok (λ t. from_cache-IsSound before (before (dest_of dir spec)) refl)
        (λ f. kept_whole before mkdir_failed)
