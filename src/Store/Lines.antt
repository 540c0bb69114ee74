-- ===== src/Store/Lines.antt =====
-- The lines of the file of coordinator/internal/store/jsonl.go, as a reader finds them.
use gridlink.Prelude.{
  ℕ, suc, String, Bool, true, false, ◌≡◌, List, [], ◌∷◌, ◌++◌, ◌+◌, ◌&&◌, if◌then◌else◌, str_eq,
  arith,
}
use gridlink.Store.{UsageRecord}
use gridlink.Store.Jsonl.{Chunk}

-- Whether what is written next begins a line.
unfoldable pub at_line_start : Bool → List Chunk → Bool
at_line_start fresh [] = fresh
at_line_start fresh (Chunk.record_line r ∷ cs) = at_line_start true cs
at_line_start fresh (Chunk.torn r ∷ cs) = at_line_start false cs

-- How many lines of the file are a record of the request and nothing else.
unfoldable pub lines_from : Bool → String → List Chunk → ℕ
lines_from fresh id [] = 0
lines_from fresh id (Chunk.record_line r ∷ cs) =
    let rest = lines_from true id cs in if fresh && str_eq r.request_id id then suc rest else rest
lines_from fresh id (Chunk.torn r ∷ cs) = lines_from false id cs

abbrev pub lines_for : String → List Chunk → ℕ
lines_for id file = lines_from true id file

abbrev pub ends_line : List Chunk → Bool
ends_line file = at_line_start true file

pub lines_from-append :
    (fresh : Bool) (id : String) (xs : List Chunk) (r : UsageRecord)
    → lines_from fresh id (xs ++ Chunk.record_line r ∷ [])
      ≡ lines_from fresh id xs + (if at_line_start fresh xs && str_eq r.request_id id then 1 else 0)
unfolding lines_from at_line_start
lines_from-append fresh id [] r = ground arith
lines_from-append fresh id (Chunk.record_line x ∷ xs) r =
    ground (arith, lines_from-append true id xs r)
lines_from-append fresh id (Chunk.torn x ∷ xs) r = lines_from-append false id xs r

pub lines_from-torn :
    (fresh : Bool) (id : String) (xs : List Chunk) (r : UsageRecord)
    → lines_from fresh id (xs ++ Chunk.torn r ∷ []) ≡ lines_from fresh id xs
unfolding lines_from
lines_from-torn fresh id [] r = ground arith
lines_from-torn fresh id (Chunk.record_line x ∷ xs) r = ground (arith, lines_from-torn true id xs r)
lines_from-torn fresh id (Chunk.torn x ∷ xs) r = lines_from-torn false id xs r

pub at_line_start-append :
    (fresh : Bool) (xs : List Chunk) (r : UsageRecord)
    → at_line_start fresh (xs ++ Chunk.record_line r ∷ []) ≡ true
unfolding at_line_start
at_line_start-append fresh [] r = ground arith
at_line_start-append fresh (Chunk.record_line x ∷ xs) r = at_line_start-append true xs r
at_line_start-append fresh (Chunk.torn x ∷ xs) r = at_line_start-append false xs r
