-- ===== src/Store/Once.antt =====
-- How often a request stands in the file of coordinator/internal/store/jsonl.go.
use gridlink.Prelude.{
  String, true, false, ◌≡◌, ◌≢◌, refl, ap, ◌∙◌, List, [], ◌∷◌, if◌then◌else◌, contains, str_eq, inl,
  inr, Bool-cases, Result-cases, ok, arith, eq_iff, String-cases,
}
use gridlink.Store.{UsageRecord, validate}
use gridlink.Store.Jsonl.{Chunk, Jsonl, Disk, partial, open_jsonl, append, insert, stamped}
use gridlink.Store.Lines.{
  lines_for, ends_line, lines_from-append, lines_from-torn, at_line_start-append,
}

unfoldable pub run : Jsonl → List (Disk × UsageRecord) → Jsonl
run j [] = j
run j ((disk, rec) ∷ cs) = run (insert disk j rec).0 cs

-- No write is torn.
abbrev pub NoneTorn : List (Disk × UsageRecord) → Type 0
NoneTorn [] = Unit
NoneTorn ((disk, rec) ∷ cs) = (disk.writes ≢ partial) × NoneTorn cs

-- The file ends in a newline, and the requests that are in `seen`, and no others, are on file once.
pub record IsLedger (id : String) (j : Jsonl) : Type 0 where
  pub ended : ends_line j.file ≡ true
  pub counted : lines_for id j.file ≡ (if contains id j.seen then 1 else 0)

append-IsLedger :
    (id : String) (disk : Disk) (j : Jsonl) (rec : UsageRecord)
    → disk.writes ≢ partial
    → contains rec.request_id j.seen ≡ false
    → IsLedger id j
    → IsLedger id (append disk j rec).0
unfolding append contains
append-IsLedger id disk j rec intact new led = record {
  ended = ground (arith, at_line_start-append true j.file rec, led.ended);
  counted = ground (
    arith,
    led.ended,
    led.counted,
    lines_from-append true id j.file rec,
    eq_iff rec.request_id id,
  );
}

insert-IsLedger :
    (id : String) (disk : Disk) (j : Jsonl) (rec : UsageRecord)
    → disk.writes ≢ partial
    → IsLedger id j
    → IsLedger id (insert disk j rec).0
unfolding insert stamped
insert-IsLedger id disk j rec intact led = elim (Result-cases (validate rec)) [
  | inr (e, p) ↦ rw (p, insert) led
  | inl (u, p) ↦ elim (Bool-cases (contains rec.request_id j.seen)) [
    | inl t ↦ rw (p, insert) (rw t led)
    | inr f ↦ rw (p, insert) (rw f (append-IsLedger id disk j (stamped disk.now rec) intact f led))
  ]
]

-- What an acknowledged call does: nothing, for a request that was seen, or a whole write.
acked-IsLedger :
    (id : String) (disk : Disk) (j : Jsonl) (rec : UsageRecord)
    → (insert disk j rec).1 ≡ ok tt
    → IsLedger id j
    → IsLedger id (insert disk j rec).0
unfolding insert stamped append
acked-IsLedger id disk j rec acked led = elim (Result-cases (validate rec)) [
  | inr (e, p) ↦ rw (p, insert) led
  | inl (u, p) ↦ elim (Bool-cases (contains rec.request_id j.seen)) [
    | inl t ↦ rw (p, insert) (rw t led)
    | inr f ↦
        rw (p, insert)
          (rw f (
            append-IsLedger id disk j (stamped disk.now rec)
              (λ w. absurd (let h = rw f at (rw (p, insert) at acked) in ground arith)) f led))
  ]
]

append-seen :
    (disk : Disk) (j : Jsonl) (rec : UsageRecord)
    → (append disk j rec).1 ≡ ok tt
    → contains rec.request_id (append disk j rec).0.seen ≡ true
unfolding append contains
append-seen disk j rec h = ground (arith, eq_iff rec.request_id rec.request_id)

insert-seen :
    (disk : Disk) (j : Jsonl) (rec : UsageRecord)
    → (insert disk j rec).1 ≡ ok tt
    → contains rec.request_id (insert disk j rec).0.seen ≡ true
unfolding insert stamped
insert-seen disk j rec h = elim (Result-cases (validate rec)) [
  | inr (e, p) ↦ absurd (ground arith)
  | inl (u, p) ↦ elim (Bool-cases (contains rec.request_id j.seen)) [
    | inl t ↦ rw (p, insert) (rw t t)
    | inr f ↦
        rw (p, insert)
          (rw f (append-seen disk j (stamped disk.now rec) (rw f at (rw (p, insert) at h))))
  ]
]

insert-seen_before :
    (id : String) (disk : Disk) (j : Jsonl) (rec : UsageRecord)
    → contains id j.seen ≡ true
    → contains id (insert disk j rec).0.seen ≡ true
unfolding insert append contains
insert-seen_before id disk j rec h = ground arith

append-other :
    (id : String) (disk : Disk) (j : Jsonl) (rec : UsageRecord)
    → contains id j.seen ≡ true
    → contains rec.request_id j.seen ≡ false
    → lines_for id (append disk j rec).0.file ≡ lines_for id j.file
unfolding append
append-other id disk j rec old new =
    let apart : str_eq rec.request_id id ≡ false = elim (String-cases rec.request_id id) [
      | inl (e, t) ↦ absurd (let h = ap (λ x. contains x j.seen) e in cc)
      | inr (ne, f) ↦ f
    ] in
    ground (arith, lines_from-append true id j.file rec, lines_from-torn true id j.file rec, apart)

-- No later call adds to the lines of a request that was seen, or takes one away.
insert-other :
    (id : String) (disk : Disk) (j : Jsonl) (rec : UsageRecord)
    → contains id j.seen ≡ true
    → lines_for id (insert disk j rec).0.file ≡ lines_for id j.file
unfolding insert stamped
insert-other id disk j rec old = elim (Result-cases (validate rec)) [
  | inr (e, p) ↦ rw (p, insert) refl
  | inl (u, p) ↦ elim (Bool-cases (contains rec.request_id j.seen)) [
    | inl t ↦ rw (p, insert) (rw t refl)
    | inr f ↦ rw (p, insert) (rw f (append-other id disk j (stamped disk.now rec) old f))
  ]
]

run-other :
    (id : String) (j : Jsonl) (cs : List (Disk × UsageRecord))
    → contains id j.seen ≡ true
    → lines_for id (run j cs).file ≡ lines_for id j.file
unfolding run
run-other id j [] old = refl
run-other id j ((disk, rec) ∷ cs) old =
    run-other id (insert disk j rec).0 cs (insert-seen_before id disk j rec old)
    ∙ insert-other id disk j rec old

run-IsLedger :
    (id : String) (j : Jsonl) (cs : List (Disk × UsageRecord))
    → NoneTorn cs
    → IsLedger id j
    → IsLedger id (run j cs)
unfolding run
run-IsLedger id j [] intact led = led
run-IsLedger id j ((disk, rec) ∷ cs) (whole, intact) led =
    run-IsLedger id (insert disk j rec).0 cs intact (insert-IsLedger id disk j rec whole led)

-- Once a report is acknowledged, the file has exactly one line for its request, whichever reports
-- of it and of others were made before and are made after, and whichever of them failed, provided
-- that the file had none and ended in a newline when it was opened, and that no write before the
-- acknowledged one was torn.
pub acknowledged_once :
    (file : List Chunk) (before after : List (Disk × UsageRecord)) (disk : Disk) (rec : UsageRecord)
    → ends_line file ≡ true
    → lines_for rec.request_id file ≡ 0
    → NoneTorn before
    → (insert disk (run (open_jsonl file) before) rec).1 ≡ ok tt
    → lines_for rec.request_id (run (insert disk (run (open_jsonl file) before) rec).0 after).file
      ≡ 1
unfolding open_jsonl contains
acknowledged_once file before after disk rec ended none_yet intact acked =
    let j = run (open_jsonl file) before in
    let id = rec.request_id in
    let opened =
      run-IsLedger id (open_jsonl file) before intact
        (record { ended = ended; counted = none_yet }) in
    let seen = insert-seen disk j rec acked in
    run-other id (insert disk j rec).0 after seen
    ∙ (acked-IsLedger id disk j rec acked opened).counted
    ∙ ap (λ b. if b then 1 else 0) seen

unseen_acked :
    (id : String) (disk : Disk) (j : Jsonl) (rec : UsageRecord)
    → ends_line j.file ≡ false
    → contains rec.request_id j.seen ≡ false
    → (insert disk j rec).1 ≡ ok tt
    → lines_for id (insert disk j rec).0.file ≡ lines_for id j.file
unfolding insert stamped append
unseen_acked id disk j rec mid new acked = elim (Result-cases (validate rec)) [
  | inr (e, p) ↦ rw (p, insert) refl
  | inl (u, p) ↦
      rw (p, insert)
        (rw new (
          ground (
            arith,
            mid,
            lines_from-append true id j.file (stamped disk.now rec),
            lines_from-torn true id j.file (stamped disk.now rec),
          )))
]

-- While the file ends in a line that a failed write has torn, the next record that is written is
-- put behind it: the report is acknowledged, but the file has no line for its request, whichever
-- reports of it and of others follow.
pub torn_write_loses_next :
    (j : Jsonl) (disk : Disk) (rec : UsageRecord) (after : List (Disk × UsageRecord))
    → ends_line j.file ≡ false
    → contains rec.request_id j.seen ≡ false
    → lines_for rec.request_id j.file ≡ 0
    → (insert disk j rec).1 ≡ ok tt
    → lines_for rec.request_id (run (insert disk j rec).0 after).file ≡ 0
torn_write_loses_next j disk rec after mid new none_yet acked =
    run-other rec.request_id (insert disk j rec).0 after (insert-seen disk j rec acked)
    ∙ unseen_acked rec.request_id disk j rec mid new acked
    ∙ none_yet
