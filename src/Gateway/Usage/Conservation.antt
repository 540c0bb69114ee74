-- ===== src/Gateway/Usage/Conservation.antt =====
-- What becomes of the records passed to `Report` of gateway/internal/usage/usage.go.
use mathlib.Core.Path.{subst}
use mathlib.Core.List.{append_assoc, append-nil}
use gridlink.Prelude.{
  ℕ, suc, Bool, true, false, ◌≡◌, refl, sym, ap, ◌∙◌, ◌%◌, ◌^◌, ◌≤◌, inl, inr, List, [], ◌∷◌, ◌++◌,
  map, ltb, ltb→lt, length, length-append, if◌then◌else◌, Bool-cases, arith,
}
use gridlink.Server.Usage.{ReportUsageRequest}
use gridlink.Gateway.Usage.{
  Record, Reporter, Phase, Event, reports, drains, stops, closes, queue_size, new_reporter,
  request_of, report, receive, flush, drain_step, stop_step, close, step, run,
}

-- The requests of the second list are those of the first, in its order, but for a number of them
-- that were left out.
pub data IsKept : List ReportUsageRequest → List ReportUsageRequest → ℕ → Type 0 where
  start : IsKept [] [] 0
  kept :
      {all some_kept : List ReportUsageRequest} {n : ℕ} (x : ReportUsageRequest)
      → IsKept all some_kept n
      → IsKept (all ++ x ∷ []) (some_kept ++ x ∷ []) n
  lost :
      {all some_kept : List ReportUsageRequest} {n : ℕ} (x : ReportUsageRequest)
      → IsKept all some_kept n
      → IsKept (all ++ x ∷ []) some_kept (suc n)

-- The records with which `Report` was called.
unfoldable pub reported : List Event → List ReportUsageRequest
unfolding request_of
reported [] = []
reported (reports rec ∷ es) = request_of rec ∷ reported es
reported (drains ∷ es) = reported es
reported (stops ∷ es) = reported es
reported (closes ∷ es) = reported es

-- What was sent, then what waits.
abbrev pub accounted : Reporter → List ReportUsageRequest
accounted r = r.sent ++ map request_of r.ch

-- Of all the records reported, those that were sent or wait, and how many were dropped.
pub record IsConserved (all : List ReportUsageRequest) (r : Reporter) : Type 0 where
  pub dropped_total : ℕ
  pub kept_rest : IsKept all (accounted r) dropped_total
  pub counted : r.dropped ≡ dropped_total % 2 ^ 64
  pub bounded : length r.ch ≤ queue_size

map-append_one :
    (xs : List Record) (x : Record)
    → map request_of (xs ++ x ∷ []) ≡ map request_of xs ++ request_of x ∷ []
map-append_one [] x = refl
map-append_one (y ∷ ys) x = ap (λ zs. request_of y ∷ zs) (map-append_one ys x)

report-IsConserved :
    (all : List ReportUsageRequest) (r : Reporter) (rec : Record)
    → r.connected ≡ true
    → IsConserved all r
    → IsConserved (all ++ request_of rec ∷ []) (report rec r)
unfolding report
report-IsConserved all r rec on c = elim (Bool-cases (ltb (length r.ch) queue_size)) [
  | inl t ↦
      rw (on, report)
        (rw t (record {
          dropped_total = c.dropped_total;
          kept_rest =
              subst (λ xs. IsKept (all ++ request_of rec ∷ []) xs c.dropped_total)
                (append_assoc r.sent (map request_of r.ch) (request_of rec ∷ [])
                  ∙ ap (λ xs. r.sent ++ xs) (sym (map-append_one r.ch rec)))
                (kept (request_of rec) c.kept_rest);
          counted = c.counted;
          bounded =
              omega (
                arith,
                length-append r.ch (rec ∷ []),
                ltb→lt (length r.ch) queue_size t,
                c.bounded,
              );
        }))
  | inr f ↦
      rw (on, report)
        (rw f (record {
          dropped_total = suc c.dropped_total;
          kept_rest = lost (request_of rec) c.kept_rest;
          counted = omega (arith, c.counted);
          bounded = c.bounded;
        }))
]

-- The two reporters account for the same records, and the second has no more waiting.
record SameBooks (r r' : Reporter) : Type 0 where
  same : accounted r' ≡ accounted r
  drops : r'.dropped ≡ r.dropped
  shorter : length r'.ch ≤ length r.ch

same-IsConserved :
    (all : List ReportUsageRequest) (r r' : Reporter)
    → SameBooks r r'
    → IsConserved all r
    → IsConserved all r'
same-IsConserved all r r' b c = record {
  dropped_total = c.dropped_total;
  kept_rest = subst (λ xs. IsKept all xs c.dropped_total) (sym b.same) c.kept_rest;
  counted = b.drops ∙ c.counted;
  bounded = omega (arith, b.shorter, c.bounded);
}

as_before : (r : Reporter) → SameBooks r r
as_before r = record { same = refl; drops = refl; shorter = omega arith }

receive-SameBooks : (xs : List Record) (r : Reporter) → r.ch ≡ xs → SameBooks r (receive xs r)
unfolding receive
receive-SameBooks [] r e = as_before r
receive-SameBooks (x ∷ xs) r e = record {
  same =
      append_assoc r.sent (request_of x ∷ []) (map request_of xs)
      ∙ ap (λ ys. r.sent ++ map request_of ys) (sym e);
  drops = refl;
  shorter = omega (arith, ap length e);
}

flush-SameBooks : (xs : List Record) (r : Reporter) → r.ch ≡ xs → SameBooks r (flush xs r)
unfolding flush
flush-SameBooks [] r e = record { same = refl; drops = refl; shorter = omega arith }
flush-SameBooks (x ∷ xs) r e = receive-SameBooks (x ∷ xs) r e

drain_step-SameBooks : (p : Phase) (r : Reporter) → SameBooks r (drain_step p r)
unfolding drain_step
drain_step-SameBooks Phase.looping r = receive-SameBooks r.ch r refl
drain_step-SameBooks Phase.flushing r = flush-SameBooks r.ch r refl
drain_step-SameBooks Phase.returned r = as_before r

stop_step-SameBooks : (r : Reporter) → SameBooks r (stop_step r)
unfolding stop_step
stop_step-SameBooks r = record { same = ground arith; drops = ground arith; shorter = ground arith }

step-connected : (r : Reporter) (e : Event) → r.connected ≡ true → (step r e).connected ≡ true
unfolding step report drain_step receive flush stop_step close
step-connected r (reports rec) on = ground arith
step-connected r drains on = ground arith
step-connected r stops on = ground arith
step-connected r closes on = ground arith

if-SameBooks : (b : Bool) (r r' : Reporter) → SameBooks r r' → SameBooks r (if b then r' else r)
if-SameBooks true r r' s = s
if-SameBooks false r r' s = as_before r

-- A step that reports nothing.
quiet-SameBooks :
    (r : Reporter)
    → SameBooks r (step r drains) × SameBooks r (step r stops) × SameBooks r (step r closes)
unfolding step close
quiet-SameBooks r = (
  if-SameBooks r.connected r _ (drain_step-SameBooks r.phase r),
  if-SameBooks r.connected r _ (stop_step-SameBooks r),
  if-SameBooks r.connected r _ (record { same = refl; drops = refl; shorter = omega arith }),
)

run_from-IsConserved :
    (all : List ReportUsageRequest) (es : List Event) (r : Reporter)
    → r.connected ≡ true
    → IsConserved all r
    → IsConserved (all ++ reported es) (run r es)
unfolding run reported step
run_from-IsConserved all [] r on c = subst (λ xs. IsConserved xs r) (sym (append-nil all)) c
run_from-IsConserved all (reports rec ∷ es) r on c =
    subst (λ xs. IsConserved xs (run (report rec r) es))
      (append_assoc all (request_of rec ∷ []) (reported es))
      (run_from-IsConserved (all ++ request_of rec ∷ []) es (report rec r)
        (step-connected r (reports rec) on) (report-IsConserved all r rec on c))
run_from-IsConserved all (drains ∷ es) r on c =
    run_from-IsConserved all es (step r drains) (step-connected r drains on)
      (same-IsConserved all r _ (quiet-SameBooks r).0 c)
run_from-IsConserved all (stops ∷ es) r on c =
    run_from-IsConserved all es (step r stops) (step-connected r stops on)
      (same-IsConserved all r _ (quiet-SameBooks r).1 c)
run_from-IsConserved all (closes ∷ es) r on c =
    run_from-IsConserved all es (step r closes) (step-connected r closes on)
      (same-IsConserved all r _ (quiet-SameBooks r).2 c)

-- In every interleaving of calls of `Report`, turns of `drain` and `Close`, of a reporter that has
-- its client: the requests sent, then those that wait, are the records reported, in order and each
-- once, but for a number of records that were dropped; the counter is that number modulo 2^64, and
-- never more than 1024 records wait.
pub run-IsConserved : (es : List Event) → IsConserved (reported es) (run (new_reporter true) es)
unfolding new_reporter
run-IsConserved es =
    run_from-IsConserved [] es (new_reporter true) refl (record {
      dropped_total = 0;
      kept_rest = start;
      counted = omega arith;
      bounded = omega arith;
    })
