-- ===== src/Native/Download.antt =====
-- agent/internal/deploy/download.go: the cache of model files. The network and the digest are
-- outside; a file system is what each path holds, and a path is its segments from the root. The
-- temporary file has a name of its own, and is gone when `downloadModel` returns. Texts of errors
-- are left out.
pub mod Verified
pub mod Names
use gridlink.Prelude.{
  ℕ, zero, suc, String, Bool, true, false, not, ◌&&◌, ◌||◌, ◌+◌, ◌-◌, ◌*◌, ◌/◌, ◌%◌, ◌^◌, List, [],
  ◌∷◌, ◌++◌, Option, none, some, Result, ok, err, ◌==◌, ltb, leb, if◌then◌else◌, map, ℤ, pos,
  negsuc, Time, second, length,
}
use gridlink.Bytes.{Bytes, is_nil, lower, bytes_eq}
use gridlink.Bytes.Search.{has_text}
use gridlink.Bytes.Fields.{split}
use gridlink.Native.Cache.{FilePath, ModelSpec, UrlError, dest_of, model_url}

abbrev pub Disk : Type 0
Disk = FilePath → Option Bytes

unfoldable pub path_eq : FilePath → FilePath → Bool
unfolding bytes_eq
path_eq [] [] = true
path_eq (a ∷ p) (b ∷ q) = bytes_eq a b && path_eq p q
path_eq _ _ = false

-- `os.Remove` and `os.Rename` as the other paths see them.
unfoldable pub assign : FilePath → Option Bytes → Disk → Disk
unfolding path_eq
assign p content disk = λ q. if path_eq p q then content else disk q

pub data DownloadError : Type 0 where
  mkdir_failed request_failed fetch_failed bad_status temp_failed copy_failed : DownloadError
  close_failed mismatch rename_failed : DownloadError
  bad_url : UrlError → DownloadError

-- What the calls answer: whether each succeeds, the response's status, and its body.
pub record Fetch : Type 0 where
  pub mkdir_ok : Bool
  pub read_ok : Bool
  pub remove_ok : Bool
  pub request_ok : Bool
  pub fetch_ok : Bool
  pub status : ℕ
  pub temp_ok : Bool
  pub body : Bytes
  pub copy_ok : Bool
  pub close_ok : Bool
  pub rename_ok : Bool

module _ (sha256_hex : Bytes → Bytes) (base : Bytes) (dir : FilePath) (spec : ModelSpec)
    (w : Fetch) where
  -- `sum == strings.ToLower(spec.SHA256)`
  unfoldable pub matches : Bytes → Bool
  unfolding bytes_eq lower
  matches content = bytes_eq (sha256_hex content) (map lower spec.sha256)

  -- From the response to the rename.
  unfoldable pub install : Disk → Result DownloadError FilePath × Disk
  unfolding matches assign dest_of
  install disk =
      if not (w.status == 200)
      then (err bad_status, disk)
      else if not w.temp_ok
      then (err temp_failed, disk)
      else if not w.copy_ok
      then (err copy_failed, disk)
      else if not w.close_ok
      then (err close_failed, disk)
      else if not (is_nil spec.sha256) && not (matches w.body)
      then (err mismatch, disk)
      else if not w.rename_ok
      then (err rename_failed, disk)
      else (ok (dest_of dir spec), assign (dest_of dir spec) (some w.body) disk)

  unfoldable pub fetch : Disk → Result DownloadError FilePath × Disk
  unfolding install model_url
  fetch disk = elim (model_url base spec.model_ref spec.model_file spec.revision) [
    | err e ↦ (err (bad_url e), disk)
    | ok url ↦
        if not w.request_ok
        then (err request_failed, disk)
        else if not w.fetch_ok
        then (err fetch_failed, disk)
        else install disk
  ]

  -- With what the cache has under the name.
  unfoldable pub from_cache : Option Bytes → Disk → Result DownloadError FilePath × Disk
  unfolding fetch matches assign dest_of
  from_cache none disk = fetch disk
  from_cache (some content) disk =
      if is_nil spec.sha256 || (w.read_ok && matches content)
      then (ok (dest_of dir spec), disk)
      else fetch (if w.remove_ok then assign (dest_of dir spec) none disk else disk)

  unfoldable pub download_model : Disk → Result DownloadError FilePath × Disk
  unfolding from_cache dest_of
  download_model disk =
      if w.mkdir_ok then from_cache (disk (dest_of dir spec)) disk else (err mkdir_failed, disk)
