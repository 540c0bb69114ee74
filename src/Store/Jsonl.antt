-- ===== src/Store/Jsonl.antt =====
-- coordinator/internal/store/jsonl.go. The file system is outside: whether it opens the file, and
-- whether it writes the line, in part or in full, is given with each call. The file is what was
-- written to it, write behind write: only a whole write ends in a newline, so what is written behind
-- a torn one stands on its line.
use gridlink.Prelude.{
  String, Bool, List, [], ◌∷◌, ◌++◌, ◌==◌, if◌then◌else◌, Time, contains, Result, ok, err,
}
use gridlink.Store.{
  UsageRecord, StoreError, Summary, open_failed, append_failed, not_supported, validate,
}

-- What one write put down: a record and the newline, or the beginning of it, without the newline.
pub data Chunk : Type 0 where
  record_line : UsageRecord → Chunk
  torn : UsageRecord → Chunk

-- `seen` as the list of its keys.
pub record Jsonl : Type 0 where
  pub file : List Chunk
  pub seen : List String

-- The outcome of `f.Write`: the whole line, a part of it, or nothing.
pub data Write : Type 0 where
  whole partial nothing : Write

pub record Disk : Type 0 where
  pub now : Time
  pub opens : Bool
  pub writes : Write

-- A file that may hold lines of earlier processes; none of them is in `seen`.
unfoldable pub open_jsonl : List Chunk → Jsonl
open_jsonl file = record { file = file; seen = [] }

-- `ts.IsZero()`
unfoldable pub stamped : Time → UsageRecord → UsageRecord
stamped now rec = record rec { timestamp = if rec.timestamp == 0 then now else rec.timestamp }

-- The part of `Insert` that writes the line.
unfoldable pub append : Disk → Jsonl → UsageRecord → Jsonl × Result StoreError (Unit {0})
append disk j rec =
    if disk.opens
    then elim disk.writes [
      | whole ↦ (
        record { file = j.file ++ Chunk.record_line rec ∷ []; seen = rec.request_id ∷ j.seen },
        ok tt,
      )
      | partial ↦ (record j { file = j.file ++ Chunk.torn rec ∷ [] }, err append_failed)
      | nothing ↦ (j, err append_failed)
    ]
    else (j, err open_failed)

unfoldable pub insert : Disk → Jsonl → UsageRecord → Jsonl × Result StoreError (Unit {0})
unfolding validate append stamped
insert disk j rec = elim (validate rec) [
  | err e ↦ (j, err e)
  | ok _ ↦
      if contains rec.request_id j.seen then (j, ok tt) else append disk j (stamped disk.now rec)
]

unfoldable pub summarize : Jsonl → Time → Time → Result StoreError Summary
summarize j from to = err not_supported
