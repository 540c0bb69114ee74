-- ===== src/Store/Tests.antt =====
-- The store, coordinator/internal/store, on concrete inputs.
use gridlink.Prelude.{String, contains, true, false, ◌≡◌, refl, [], ◌∷◌, List}
use gridlink.Store.{UsageRecord, validate}
use gridlink.Store.Jsonl.{Jsonl, Disk, whole, partial, open_jsonl, append, insert, stamped}
use gridlink.Store.Lines.{lines_from, lines_for, at_line_start}
use gridlink.Store.Once.{run, acknowledged_once, torn_write_loses_next}

abbrev bill : String → UsageRecord
bill id = record {
  request_id = id;
  timestamp = 7;
  served_model_name = "llama";
  node_id = "mac";
  deployment_id = "d-1";
  api_key_id = "key-0";
  prompt_tokens = 12;
  completion_tokens = 30;
}

abbrev good : Disk
good = record { now = 9; opens = true; writes = whole }

abbrev full : Disk
full = record { now = 8; opens = true; writes = partial }

-- The file cannot be opened for the first report of the request, and a late retry follows the
-- acknowledged one.
abbrev locked : Disk
locked = record { now = 8; opens = false; writes = whole }

abbrev earlier : List (Disk × UsageRecord)
earlier = (good, bill "req-0") ∷ (locked, bill "req-1") ∷ []

abbrev later : List (Disk × UsageRecord)
later = (good, bill "req-1") ∷ (full, bill "req-2") ∷ (good, bill "req-3") ∷ []

acknowledged_once_example :
    lines_for "req-1" (run (insert good (run (open_jsonl []) earlier) (bill "req-1")).0 later).file
    ≡ 1
unfolding lines_from at_line_start run insert append stamped validate open_jsonl contains
acknowledged_once_example =
    acknowledged_once [] earlier later good (bill "req-1") refl refl
      (λ e. absurd (cc), (λ e. absurd (cc), tt)) refl

-- The disk was full for the report before.
abbrev after_torn : Jsonl
after_torn = run (open_jsonl []) ((full, bill "req-0") ∷ [])

torn_write_loses_next_example :
    lines_for "req-1" (run (insert good after_torn (bill "req-1")).0 later).file ≡ 0
unfolding lines_from at_line_start run insert append stamped validate open_jsonl contains
torn_write_loses_next_example =
    torn_write_loses_next after_torn good (bill "req-1") later refl refl refl refl
