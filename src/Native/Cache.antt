-- ===== src/Native/Cache.antt =====
-- `modelURL` and `cacheName` of agent/internal/deploy/download.go: where a model file comes from, and
-- its place in the cache. A path is its segments from the root, the last of them first.
use gridlink.Prelude.{
  ℕ, Bool, not, ◌&&◌, ◌||◌, ◌+◌, ◌/◌, ◌%◌, List, [], ◌∷◌, ◌++◌, Result, ok, err, ◌==◌, ltb, leb,
  if◌then◌else◌, map,
}
use gridlink.Bytes.{Bytes, is_nil, bytes_eq}
use gridlink.Bytes.Search.{has_text}
use gridlink.Bytes.Fields.{split}

-- `modelSpec`
pub record ModelSpec : Type 0 where
  pub model_ref : Bytes
  pub model_file : Bytes
  pub revision : Bytes
  pub sha256 : Bytes

-- `main`
abbrev pub main_revision : Bytes
main_revision = 109 ∷ 97 ∷ 105 ∷ 110 ∷ []

unfoldable pub revision_or_main : Bytes → Bytes
revision_or_main revision = if is_nil revision then main_revision else revision

-- `strings.NewReplacer("/", "_", "\\", "_", ":", "_")`
unfoldable pub safe_byte : ℕ → ℕ
safe_byte b = if (b == 47) || (b == 92) || (b == 58) then 95 else b

unfoldable pub safe : Bytes → Bytes
unfolding safe_byte
safe s = map safe_byte s

-- `cacheName`
unfoldable pub cache_name : ModelSpec → Bytes
unfolding safe revision_or_main
cache_name spec =
    safe spec.model_ref ++ 64 ∷ safe (revision_or_main spec.revision) ++ 95 ∷ spec.model_file

abbrev pub FilePath : Type 0
FilePath = List Bytes

-- One segment of `filepath.Clean`, on the segments before it, the last of them first.
unfoldable pub walk_one : Bytes → FilePath → FilePath
unfolding bytes_eq
walk_one seg back =
    if is_nil seg || bytes_eq seg (46 ∷ [])
    then back
    else if bytes_eq seg (46 ∷ 46 ∷ [])
    then (elim back [ [] ↦ [] | last ∷ rest ↦ rest ])
    else seg ∷ back

unfoldable pub walk : List Bytes → FilePath → FilePath
unfolding walk_one
walk [] back = back
walk (seg ∷ segs) back = walk segs (walk_one seg back)

-- `filepath.Join(dir, cacheName(spec))`; a path has its last segment first.
unfoldable pub dest_of : FilePath → ModelSpec → FilePath
unfolding walk cache_name split
dest_of dir spec = walk (split 47 (cache_name spec)) dir

pub data UrlError : Type 0 where
  missing_name not_bare bad_ref : UrlError

-- `url.PathEscape`
unfoldable pub is_plain : ℕ → Bool
is_plain b =
    (leb 48 b && leb b 57)
    || (leb 65 b && leb b 90)
    || (leb 97 b && leb b 122)
    || (b == 45)
    || (b == 95)
    || (b == 46)
    || (b == 126)
    || (b == 36)
    || (b == 38)
    || (b == 43)
    || (b == 58)
    || (b == 61)
    || (b == 64)

unfoldable pub hex_digit : ℕ → ℕ
hex_digit n = if ltb n 10 then 48 + n else 55 + n

unfoldable pub path_escape : Bytes → Bytes
unfolding is_plain hex_digit
path_escape [] = []
path_escape (b ∷ s) =
    let rest = path_escape s in
    if is_plain b then b ∷ rest else 37 ∷ hex_digit (b / 16) ∷ hex_digit (b % 16) ∷ rest

-- `strings.TrimRight(base, "/")`
unfoldable pub trim_slash : Bytes → Bytes
trim_slash [] = []
trim_slash (b ∷ s) = let rest = trim_slash s in if is_nil rest && (b == 47) then [] else b ∷ rest

-- `/resolve/`
abbrev pub resolve_part : Bytes
resolve_part = 47 ∷ 114 ∷ 101 ∷ 115 ∷ 111 ∷ 108 ∷ 118 ∷ 101 ∷ 47 ∷ []

-- The test that a model file is a bare name.
unfoldable pub is_bare : Bytes → Bool
unfolding has_text bytes_eq
is_bare file =
    not (has_text file (47 ∷ []))
    && not (has_text file (92 ∷ []))
    && not (bytes_eq file (46 ∷ []))
    && not (bytes_eq file (46 ∷ 46 ∷ []))

unfoldable pub model_url : Bytes → Bytes → Bytes → Bytes → Result UrlError Bytes
unfolding is_bare has_text revision_or_main path_escape trim_slash
model_url base ref file revision =
    if is_nil ref || is_nil file
    then err missing_name
    else if not (is_bare file)
    then err not_bare
    else if has_text ref (46 ∷ 46 ∷ [])
    then err bad_ref
    else ok (
        trim_slash base
        ++ 47 ∷ ref
        ++ resolve_part
        ++ path_escape (revision_or_main revision)
        ++ 47 ∷ path_escape file)
