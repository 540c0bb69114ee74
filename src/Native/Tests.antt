-- ===== src/Native/Tests.antt =====
-- The manager of deployments on concrete runs.
use gridlink.Prelude.{
  ℕ, true, false, ◌≡◌, ◌≢◌, ◌+◌, ◌*◌, refl, List, [], ◌∷◌, ◌++◌, none, some, ok, err, pos, arith,
  second,
}
use gridlink.Bytes.{Bytes, lower, bytes_eq}
use gridlink.Bytes.Search.{has_prefix}
use gridlink.Bytes.Fields.{split, begins_space}
use gridlink.Proto.{DeploymentState}
use gridlink.Native.Port.{
  reported, read_engine_addr, listening_line, join_host_port, port_of,
  read_engine_addr-listening_line,
}
use gridlink.Native.Port.{cancelled}
use gridlink.Native.Life.{World, run}
use gridlink.Native.Life.Course.{IsLife, IsOrderly, sent, run-IsLife}
use gridlink.Native.Cache.{ModelSpec, FilePath, dest_of, walk, not_bare}
use gridlink.Native.Progress.{ProgressWriter}
use gridlink.Native.Download.{Disk, Fetch, assign, matches, bad_url, download_model}
use gridlink.Native.Download.Verified.{IsSound, download_model-IsSound}
use gridlink.Native.Progress.Throttle.{IsThrottled, reports, reports-IsThrottled}
use gridlink.Native.Download.Names.{at_revision, climb, revisions_collide, refused_name_removes}

-- "10.0.0.7"
abbrev host : Bytes
host = 49 ∷ 48 ∷ 46 ∷ 48 ∷ 46 ∷ 48 ∷ 46 ∷ 55 ∷ []

read_engine_addr-listening_line_example :
    let addr = join_host_port host 49_152 in
    (read_engine_addr reported ((104 ∷ 105 ∷ []) ∷ listening_line addr ∷ []) none ≡ ok addr)
    × (port_of addr ≡ 49_152)
unfolding has_prefix begins_space
read_engine_addr-listening_line_example =
    read_engine_addr-listening_line ((104 ∷ 105 ∷ []) ∷ []) [] none host 49_152 (refl, tt)
      (refl, (refl, (refl, (refl, (refl, (refl, (refl, (refl, tt)))))))) (omega arith)

abbrev stopped_early : World
stopped_early = record {
  pulled = 40 ∷ 100 ∷ [];
  download = ok (47 ∷ []);
  stopped_pulling = false;
  stdout_pipe = none;
  stderr_pipe = none;
  started = none;
  arrival = cancelled "context canceled";
  stdout = [];
  scan_error = none;
  model_name = 109 ∷ [];
  polls = [];
  poll_error = "";
  stopped_loading = true;
  exit = "";
  stopped_serving = true;
  tail = "";
}

run-IsLife_example :
    IsLife "d-1" DeploymentState.unspecified (sent (run "d-1" stopped_early))
    × IsOrderly false (run "d-1" stopped_early)
run-IsLife_example = run-IsLife "d-1" stopped_early

-- A stand-in for the digest.
abbrev digest : Bytes → Bytes
digest content = content

abbrev spec : ModelSpec
spec = record { model_ref = 109 ∷ []; model_file = 102 ∷ []; revision = []; sha256 = 97 ∷ [] }

abbrev works : Fetch
works = record {
  mkdir_ok = true;
  read_ok = true;
  remove_ok = true;
  request_ok = true;
  fetch_ok = true;
  status = 200;
  temp_ok = true;
  body = 97 ∷ [];
  copy_ok = true;
  close_ok = true;
  rename_ok = true;
}

abbrev empty_disk : Disk
empty_disk = λ q. none

abbrev models : FilePath
models = (109 ∷ []) ∷ []

download_model-IsSound_example :
    IsSound digest [] models spec works empty_disk
      (download_model digest [] models spec works empty_disk)
download_model-IsSound_example = download_model-IsSound digest [] models spec works empty_disk

abbrev writer : ProgressWriter
writer = record { total = pos 200; written = 0; last_pct = 0; last_report = 0 }

abbrev writes : List (ℕ × ℕ)
writes = (50, 5 * second) ∷ (50, 5 * second + 1) ∷ (100, 7 * second) ∷ []

reports-IsThrottled_example : IsThrottled 0 0 (reports writes writer)
reports-IsThrottled_example = reports-IsThrottled writes writer

abbrev unchecked : ModelSpec
unchecked = record spec { sha256 = [] }

abbrev full_disk : Disk
full_disk = λ q. some (99 ∷ [])

abbrev v : Bytes
v = 118 ∷ []

abbrev one : Bytes
one = 49 ∷ []

revisions_collide_example :
    (v ++ 47 ∷ one ≢ v ++ 95 ∷ one)
    × (download_model digest [] models (at_revision unchecked (v ++ 95 ∷ one)) works full_disk
        ≡ (ok (dest_of models (at_revision unchecked (v ++ 47 ∷ one))), full_disk))
revisions_collide_example =
    revisions_collide digest [] models unchecked works v one (99 ∷ []) full_disk refl refl refl

abbrev climbing : ModelSpec
climbing = record spec { model_file = 120 ∷ climb 2 (107 ∷ []) }

other_digest : matches digest [] models climbing works (99 ∷ []) ≡ false
unfolding matches bytes_eq lower
other_digest = refl

refused_name_removes_example :
    download_model digest [] models climbing works full_disk
    ≡ (err (bad_url not_bare), assign (walk (split 47 (107 ∷ [])) []) none full_disk)
refused_name_removes_example =
    refused_name_removes digest [] models climbing works (107 ∷ []) (99 ∷ []) full_disk refl refl
      refl refl refl refl other_digest
