-- ===== src/Native/Download/Names.antt =====
-- The names in the cache of agent/internal/deploy/download.go.
use mathlib.Core.List.{append_assoc}
use gridlink.Prelude.{
  ℕ, zero, suc, Bool, true, false, ◌&&◌, ◌≡◌, ◌≢◌, refl, ap, ◌∙◌, sym, List, [], ◌∷◌, ◌++◌, Option,
  none, some, ok, err, ◌==◌, map, arith, length, some_inj,
}
use gridlink.Bytes.{Bytes, is_nil, bytes_eq, bytes_eq_refl}
use gridlink.Bytes.Search.{has_text, index, has_prefix}
use gridlink.Bytes.Fields.{split, Lacks, split_first}
use gridlink.Native.Cache.{
  ModelSpec, FilePath, safe_byte, safe, revision_or_main, cache_name, walk_one, walk, dest_of,
  not_bare, is_bare, model_url,
}
use gridlink.Native.Download.{
  Disk, assign, bad_url, Fetch, matches, fetch, from_cache, download_model,
}

map-append : (f : ℕ → ℕ) (xs ys : Bytes) → map f (xs ++ ys) ≡ map f xs ++ map f ys
map-append f [] ys = refl
map-append f (x ∷ xs) ys = ap (λ zs. f x ∷ zs) (map-append f xs ys)

not_nil : (x : Bytes) (b : ℕ) (y : Bytes) → revision_or_main (x ++ b ∷ y) ≡ x ++ b ∷ y
unfolding revision_or_main
not_nil [] b y = refl
not_nil (a ∷ x) b y = refl

safe_slash : (x y : Bytes) → safe (x ++ 47 ∷ y) ≡ safe (x ++ 95 ∷ y)
unfolding safe safe_byte
safe_slash x y = map-append safe_byte x (47 ∷ y) ∙ sym (map-append safe_byte x (95 ∷ y))

slash_differs : (x y : Bytes) → bytes_eq (x ++ 47 ∷ y) (x ++ 95 ∷ y) ≡ false
unfolding bytes_eq
slash_differs [] y = refl
slash_differs (a ∷ x) y = ground (arith, slash_differs x y)

true_or_false : (b : Bool) → b ≡ true → b ≢ false
true_or_false b t f = cc

slash_lem : (x y : Bytes) → x ++ 47 ∷ y ≢ x ++ 95 ∷ y
slash_lem x y h =
    true_or_false (bytes_eq (x ++ 47 ∷ y) (x ++ 95 ∷ y))
      (ap (bytes_eq (x ++ 47 ∷ y)) (sym h) ∙ bytes_eq_refl (x ++ 47 ∷ y)) (slash_differs x y)

abbrev pub at_revision : ModelSpec → Bytes → ModelSpec
at_revision spec revision = record spec { revision = revision }

cache_name_slash :
    (spec : ModelSpec) (x y : Bytes)
    → cache_name (at_revision spec (x ++ 47 ∷ y)) ≡ cache_name (at_revision spec (x ++ 95 ∷ y))
unfolding cache_name
cache_name_slash spec x y =
    ap (λ r. safe spec.model_ref ++ 64 ∷ r ++ 95 ∷ spec.model_file)
      (ap safe (not_nil x 47 y) ∙ safe_slash x y ∙ ap safe (sym (not_nil x 95 y)))

-- What an existing file of the cache is to a spec without a digest.
cached_any :
    (sha256_hex : Bytes → Bytes) (base : Bytes) (dir : FilePath) (spec : ModelSpec) (w : Fetch)
    (content : Bytes) (disk : Disk) (o : Option Bytes)
    → spec.sha256 ≡ []
    → o ≡ some content
    → from_cache sha256_hex base dir spec w o disk ≡ (ok (dest_of dir spec), disk)
unfolding from_cache
cached_any sha256_hex base dir spec w content disk none n e = absurd (cc)
cached_any sha256_hex base dir spec w content disk (some c) n e = rw n refl

-- Two revisions of a file that differ in a slash and an underscore have one place in the cache: with
-- the file of one in it, a spec for the other that asks for no digest is given that file.
pub revisions_collide :
    (sha256_hex : Bytes → Bytes) (base : Bytes) (dir : FilePath) (spec : ModelSpec) (w : Fetch)
    (x y content : Bytes) (disk : Disk)
    → spec.sha256 ≡ []
    → w.mkdir_ok ≡ true
    → disk (dest_of dir (at_revision spec (x ++ 47 ∷ y))) ≡ some content
    → (x ++ 47 ∷ y ≢ x ++ 95 ∷ y)
      × (download_model sha256_hex base dir (at_revision spec (x ++ 95 ∷ y)) w disk
          ≡ (ok (dest_of dir (at_revision spec (x ++ 47 ∷ y))), disk))
unfolding download_model dest_of
revisions_collide sha256_hex base dir spec w x y content disk n made has =
    let same : dest_of dir (at_revision spec (x ++ 47 ∷ y))
        ≡ dest_of dir (at_revision spec (x ++ 95 ∷ y)) =
      ap (λ name. walk (split 47 name) dir) (cache_name_slash spec x y) in
    (
      slash_lem x y,
      rw made (
          cached_any sha256_hex base dir (at_revision spec (x ++ 95 ∷ y)) w content disk
            (disk (dest_of dir (at_revision spec (x ++ 95 ∷ y)))) n (ap disk (sym same) ∙ has)
          ∙ ap (λ p. (ok p, disk)) (sym same)),
    )

-- `/..`, so many times, and then `/` before a text.
abbrev pub climb : ℕ → Bytes → Bytes
climb zero rest = 47 ∷ rest
climb (suc k) rest = 47 ∷ 46 ∷ 46 ∷ climb k rest

abbrev dots : ℕ → List Bytes → List Bytes
dots zero segs = segs
dots (suc k) segs = (46 ∷ 46 ∷ []) ∷ dots k segs

split_climb :
    (h : Bytes) (k : ℕ) (rest : Bytes)
    → Lacks 47 h
    → split 47 (h ++ climb k rest) ≡ h ∷ dots k (split 47 rest)
split_climb h zero rest lacks = split_first 47 h rest lacks
split_climb h (suc k) rest lacks =
    split_first 47 h (46 ∷ 46 ∷ climb k rest) lacks
    ∙ ap (λ segs. h ∷ segs) (split_climb (46 ∷ 46 ∷ []) k rest (refl, (refl, tt)))

walk-dots :
    (back : FilePath) (segs : List Bytes) → walk (dots (length back) segs) back ≡ walk segs []
unfolding walk walk_one bytes_eq
walk-dots [] segs = refl
walk-dots (b ∷ back) segs = walk-dots back segs

-- A segment with an `@` in it is a name.
walk_name : (s t : Bytes) (back : FilePath) → walk_one (s ++ 64 ∷ t) back ≡ (s ++ 64 ∷ t) ∷ back
unfolding walk_one bytes_eq
walk_name [] t back = refl
walk_name (a ∷ []) t back = ground arith
walk_name (a ∷ b ∷ []) t back = ground arith
walk_name (a ∷ b ∷ c ∷ s) t back = ground arith

safe_byte-slash : (b : ℕ) → (safe_byte b == 47) ≡ false
unfolding safe_byte
safe_byte-slash b = ground arith

safe-Lacks : (s t : Bytes) → Lacks 47 t → Lacks 47 (safe s ++ t)
unfolding safe
safe-Lacks [] t h = h
safe-Lacks (b ∷ s) t h = (safe_byte-slash b, safe-Lacks s t h)

name_split : (a r c : Bytes) → (a ++ 64 ∷ r) ++ 95 ∷ 120 ∷ c ≡ (a ++ 64 ∷ (r ++ 95 ∷ 120 ∷ [])) ++ c
name_split a r c =
    append_assoc a (64 ∷ r) (95 ∷ 120 ∷ c)
    ∙ ap (λ s. a ++ 64 ∷ s) (sym (append_assoc r (95 ∷ 120 ∷ []) c))
    ∙ sym (append_assoc a (64 ∷ (r ++ 95 ∷ 120 ∷ [])) c)

-- A file name that climbs out of the cache leads to any path at all.
dest_of-climb :
    (dir : FilePath) (spec : ModelSpec) (rest : Bytes)
    → spec.model_file ≡ 120 ∷ climb (suc (length dir)) rest
    → dest_of dir spec ≡ walk (split 47 rest) []
unfolding dest_of cache_name walk
dest_of-climb dir spec rest e =
    let ref = safe spec.model_ref in
    let rev = safe (revision_or_main spec.revision) in
    let head : Bytes = ref ++ 64 ∷ (rev ++ 95 ∷ 120 ∷ []) in
    let lacks : Lacks 47 head =
      safe-Lacks spec.model_ref (64 ∷ (rev ++ 95 ∷ 120 ∷ []))
        (refl, safe-Lacks (revision_or_main spec.revision) (95 ∷ 120 ∷ []) (refl, (refl, tt))) in
    ap (λ file. walk (split 47 (ref ++ 64 ∷ rev ++ 95 ∷ file)) dir) e
    ∙ ap (λ name. walk (split 47 name) dir) (name_split ref rev (climb (suc (length dir)) rest))
    ∙ ap (λ segs. walk segs dir) (split_climb head (suc (length dir)) rest lacks)
    ∙ ap (walk (dots (suc (length dir)) (split 47 rest))) (walk_name ref (rev ++ 95 ∷ 120 ∷ []) dir)
    ∙ walk-dots (head ∷ dir) (split 47 rest)

climb_not_bare : (k : ℕ) (rest : Bytes) → is_bare (120 ∷ climb k rest) ≡ false
unfolding is_bare has_text index has_prefix
climb_not_bare zero rest = refl
climb_not_bare (suc k) rest = refl

refused_url :
    (base : Bytes) (spec : ModelSpec)
    → is_nil spec.model_ref ≡ false
    → is_nil spec.model_file ≡ false
    → is_bare spec.model_file ≡ false
    → model_url base spec.model_ref spec.model_file spec.revision ≡ err not_bare
unfolding model_url
refused_url base spec named filed bare = rw named (rw filed (rw bare refl))

stale_test : (a b : Bool) → b ≡ false → (a && b) ≡ false
stale_test a b h = ground arith

removed_then_refused :
    (sha256_hex : Bytes → Bytes) (base : Bytes) (dir : FilePath) (spec : ModelSpec) (w : Fetch)
    (content : Bytes) (disk : Disk) (o : Option Bytes)
    → o ≡ some content
    → is_nil spec.sha256 ≡ false
    → matches sha256_hex base dir spec w content ≡ false
    → w.remove_ok ≡ true
    → model_url base spec.model_ref spec.model_file spec.revision ≡ err not_bare
    → from_cache sha256_hex base dir spec w o disk
      ≡ (err (bad_url not_bare), assign (dest_of dir spec) none disk)
unfolding from_cache fetch
removed_then_refused sha256_hex base dir spec w content disk none e asks stale removes refused =
    absurd (cc)
removed_then_refused sha256_hex base dir spec w content disk (some c) e asks stale removes refused =
    rw asks (
      rw
        (stale_test w.read_ok (matches sha256_hex base dir spec w c)
          (ap (matches sha256_hex base dir spec w) (some_inj e) ∙ stale))
        (rw removes (rw (refused, fetch) refl)))

-- A spec whose file name climbs out of the cache, and that asks for a digest, is refused, but not
-- before the file that the name leads to, anywhere on the disk, is removed, if its digest is another.
pub refused_name_removes :
    (sha256_hex : Bytes → Bytes) (base : Bytes) (dir : FilePath) (spec : ModelSpec) (w : Fetch)
    (rest content : Bytes) (disk : Disk)
    → spec.model_file ≡ 120 ∷ climb (suc (length dir)) rest
    → is_nil spec.model_ref ≡ false
    → is_nil spec.sha256 ≡ false
    → w.mkdir_ok ≡ true
    → w.remove_ok ≡ true
    → disk (walk (split 47 rest) []) ≡ some content
    → matches sha256_hex base dir spec w content ≡ false
    → download_model sha256_hex base dir spec w disk
      ≡ (err (bad_url not_bare), assign (walk (split 47 rest) []) none disk)
unfolding download_model
refused_name_removes sha256_hex base dir spec w rest content disk e named asks made removes has
      stale =
    let dest = dest_of-climb dir spec rest e in
    rw made (
      removed_then_refused sha256_hex base dir spec w content disk (disk (dest_of dir spec))
        (ap disk dest ∙ has) asks stale removes
        (refused_url base spec named (ap is_nil e)
          (ap is_bare e ∙ climb_not_bare (suc (length dir)) rest))
      ∙ ap (λ p. (err (bad_url not_bare), assign p none disk)) dest)
