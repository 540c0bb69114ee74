-- ===== src/Native/Progress.antt =====
-- `progressWriter` of agent/internal/deploy/download.go.
pub mod Throttle
use gridlink.Prelude.{
  ℕ, zero, suc, String, Bool, true, false, not, ◌&&◌, ◌||◌, ◌+◌, ◌-◌, ◌*◌, ◌/◌, ◌%◌, ◌^◌, List, [],
  ◌∷◌, ◌++◌, Option, none, some, Result, ok, err, ◌==◌, ltb, leb, if◌then◌else◌, map, ℤ, pos,
  negsuc, Time, second, length,
}
use gridlink.Bytes.{Bytes, is_nil, lower, bytes_eq}
use gridlink.Bytes.Search.{has_text}
use gridlink.Bytes.Fields.{split}

-- `progressWriter`; `written` is the bit pattern of an int64.
pub record ProgressWriter : Type 0 where
  pub total : ℤ
  pub written : ℕ
  pub last_pct : ℕ
  pub last_report : Time

-- `uint32(p.written * 100 / p.total)`, for a total that is positive: the product wraps around, and
-- a quotient of signed numbers is cut off towards zero.
unfoldable pub pct_of : ℕ → ℕ → ℕ
pct_of written total =
    let product = (written * 100) % 2 ^ 64 in
    if ltb product (2 ^ 63)
    then product / total % 2 ^ 32
    else (2 ^ 32 - (2 ^ 64 - product) / total % 2 ^ 32) % 2 ^ 32

unfoldable pub clamp : ℕ → ℕ
clamp pct = if ltb 100 pct then 100 else pct

-- `Write` of so many bytes, with the percentage that it reports, if any.
unfoldable pub report_pct : Time → ℕ → ProgressWriter → ProgressWriter × Option ℕ
report_pct now pct p =
    if not (pct == p.last_pct) && leb (p.last_report + second) now
    then (record p { last_pct = pct; last_report = now }, some pct)
    else (p, none)

unfoldable pub counted : ℕ → ProgressWriter → ProgressWriter
counted n p = record p { written = (p.written + n) % 2 ^ 64 }

unfoldable pub write_total : ℤ → Time → ProgressWriter → ProgressWriter × Option ℕ
unfolding report_pct pct_of clamp
write_total (negsuc n) now p = (p, none)
write_total (pos zero) now p = (p, none)
write_total (pos (suc n)) now p = report_pct now (clamp (pct_of p.written (suc n))) p

unfoldable pub write : ℕ → Time → ProgressWriter → ProgressWriter × Option ℕ
unfolding write_total counted
write n now p = write_total p.total now (counted n p)
