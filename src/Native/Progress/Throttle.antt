-- ===== src/Native/Progress/Throttle.antt =====
-- The reports of `progressWriter` of agent/internal/deploy/download.go.
use gridlink.Prelude.{
  ℕ, zero, suc, true, not, ◌&&◌, ◌≡◌, ◌≢◌, ◌+◌, ◌≤◌, List, [], ◌∷◌, Option, none, some, ◌==◌, leb,
  arith, ℤ, pos, negsuc, Time, second, Bool-cases, inl, inr,
}
use gridlink.Native.Progress.{
  ProgressWriter, clamp, pct_of, counted, report_pct, write_total, write,
}

-- The percentages that a copy reports, with their times; each write is a number of bytes and a time.
abbrev reported : Time → ProgressWriter × Option ℕ → List (ℕ × Time) → List (ℕ × Time)
reported now (p, none) rest = rest
reported now (p, some pct) rest = (pct, now) ∷ rest

unfoldable pub reports : List (ℕ × Time) → ProgressWriter → List (ℕ × Time)
unfolding write
reports [] p = []
reports ((n, now) ∷ writes) p = reported now (write n now p) (reports writes (write n now p).0)

-- Each report is at most 100, is no repetition, and comes a second or more after the one before.
abbrev pub IsThrottled : ℕ → Time → List (ℕ × Time) → Type 0
IsThrottled pct at [] = Unit
IsThrottled pct at ((q, now) ∷ rest) =
    (q ≤ 100) × (q ≢ pct) × (at + second ≤ now) × IsThrottled q now rest

clamp_le : (pct : ℕ) → clamp pct ≤ 100
unfolding clamp
clamp_le pct = ground arith

report_test :
    (pct last : ℕ) (at now : Time)
    → (not (pct == last) && leb (at + second) now) ≡ true
    → (pct ≢ last) × (at + second ≤ now)
report_test pct last at now h = ground arith

-- What a write leaves, given that the later reports are throttled from there.
IsThrottled-report :
    (pct : ℕ) (now : Time) (p : ProgressWriter) (rest : ProgressWriter → List (ℕ × Time))
    → pct ≤ 100
    → ((q : ProgressWriter) → IsThrottled q.last_pct q.last_report (rest q))
    → IsThrottled p.last_pct p.last_report
        (reported now (report_pct now pct p) (rest (report_pct now pct p).0))
unfolding report_pct
IsThrottled-report pct now p rest le later =
    elim (Bool-cases (not (pct == p.last_pct) && leb (p.last_report + second) now)) [
      | inr f ↦ rw f (later p)
      | inl t ↦
          let (differs, waited) = report_test pct p.last_pct p.last_report now t in
          rw t (le, differs, waited, later (record p { last_pct = pct; last_report = now }))
    ]

IsThrottled-total :
    (total : ℤ) (now : Time) (p : ProgressWriter) (rest : ProgressWriter → List (ℕ × Time))
    → ((q : ProgressWriter) → IsThrottled q.last_pct q.last_report (rest q))
    → IsThrottled p.last_pct p.last_report
        (reported now (write_total total now p) (rest (write_total total now p).0))
unfolding write_total
IsThrottled-total (negsuc n) now p rest later = later p
IsThrottled-total (pos zero) now p rest later = later p
IsThrottled-total (pos (suc n)) now p rest later =
    IsThrottled-report (clamp (pct_of p.written (suc n))) now p rest
      (clamp_le (pct_of p.written (suc n))) later

-- Whatever is written, and whether or not the counters wrap around, what is reported is never above
-- 100, never the percentage reported before, and never earlier than a second after it.
pub reports-IsThrottled :
    (writes : List (ℕ × Time)) (p : ProgressWriter)
    → IsThrottled p.last_pct p.last_report (reports writes p)
unfolding reports write counted
reports-IsThrottled [] p = tt
reports-IsThrottled ((n, now) ∷ writes) p =
    IsThrottled-total p.total now (counted n p) (reports writes) (λ q. reports-IsThrottled writes q)
