-- ===== src/Server/Usage/Window.antt =====
-- The window of `GetUsageSummary` of coordinator/internal/server/server.go.
use gridlink.Prelude.{
  ℕ, true, false, ◌≡◌, refl, ap, ◌∙◌, ◌<◌, ◌≤◌, ◌+◌, ◌-◌, ◌*◌, ◌/◌, ltb, leb, map, if◌then◌else◌,
  Time, ok, err, pos, arith,
}
use gridlink.Store.{Summary, StoreError}
use gridlink.Server.Agents.{Code}
use gridlink.Server.Usage.{
  Store, epoch, millisecond, of_milli, unix_milli, time_or, totals_to_proto, respond,
  get_usage_summary, default_summary_window,
}

unix_milli-of_milli : (ms : ℕ) → unix_milli (of_milli ms) ≡ pos ms
unfolding unix_milli
unix_milli-of_milli ms = rw (reached ms, unix_milli) (ap pos (whole ms))
  where
    reached : (ms : ℕ) → leb epoch (epoch + ms * millisecond) ≡ true
    reached ms = ground arith

    whole : (ms : ℕ) → (epoch + ms * millisecond - epoch) / millisecond ≡ ms
    whole ms = omega arith

time_or-pos : (t : Time) (ms : ℕ) → 0 < ms → time_or t (pos ms) ≡ of_milli ms
unfolding time_or
time_or-pos t ms h = ground arith

of_milli_before : (f t : ℕ) → f < t → ltb (of_milli f) (of_milli t) ≡ true
of_milli_before f t h = ground arith

of_milli_not_before : (f t : ℕ) → t ≤ f → ltb (of_milli f) (of_milli t) ≡ false
of_milli_not_before f t h = ground arith

-- What a summary answers for a window that is given at both ends.
pub record AnswersWindow {ℓ} {S : Type ℓ} (store : Store S) (now : Time) (s : S) (f t : ℕ)
    : Type 0 where
  pub refused : t ≤ f → get_usage_summary store now s (pos f) (pos t) ≡ err Code.invalid_argument
  pub without :
      (e : StoreError)
      → f < t
      → store.summarize s (of_milli f) (of_milli t) ≡ err e
      → get_usage_summary store now s (pos f) (pos t) ≡ err Code.failed_precondition
  pub given :
      (sum : Summary)
      → f < t
      → store.summarize s (of_milli f) (of_milli t) ≡ ok sum
      → get_usage_summary store now s (pos f) (pos t)
        ≡ ok (record {
          from_unix_ms = pos f;
          to_unix_ms = pos t;
          total = totals_to_proto sum.total;
          by_node = map totals_to_proto sum.by_node;
          by_api_key = map totals_to_proto sum.by_api_key;
        })

module _ {ℓ} {S : Type ℓ} (store : Store S) where
  window_lem :
      (now : Time) (s : S) (f t : ℕ)
      → 0 < f
      → 0 < t
      → get_usage_summary store now s (pos f) (pos t) ≡ (
          if ltb (of_milli f) (of_milli t)
          then respond (of_milli f) (of_milli t) (store.summarize s (of_milli f) (of_milli t))
          else err Code.invalid_argument)
  unfolding get_usage_summary
  window_lem now s f t pf pt =
      rw (time_or-pos now t pt, time_or-pos (of_milli t - default_summary_window) f pf) refl

  -- For a window that is given at both ends, by times after the epoch: it is refused if it does not
  -- begin before it ends. The answer otherwise repeats its ends, to the millisecond, and has the
  -- store's totals for exactly that window, or says that the store has none.
  pub summary_window :
      (now : Time) (s : S) (f t : ℕ) → 0 < f → 0 < t → AnswersWindow store now s f t
  unfolding respond
  summary_window now s f t pf pt = record {
    refused = λ h. window_lem now s f t pf pt ∙ rw (of_milli_not_before f t h) refl;
    without =
        λ e h q. window_lem now s f t pf pt ∙ rw (of_milli_before f t h) (rw (q, respond) refl);
    given = λ sum h q.
        window_lem now s f t pf pt
        ∙ rw (of_milli_before f t h)
            (rw (q, respond) (rw (unix_milli-of_milli f, unix_milli-of_milli t) refl));
  }
