-- ===== src/Server/Usage.antt =====
-- `ReportUsage` and `GetUsageSummary` of coordinator/internal/server/server.go, over any store.
pub mod Window
use gridlink.Prelude.{
  ℕ, String, Bool, true, false, ◌≡◌, refl, ap, sym, ◌∙◌, ◌<◌, ◌≤◌, ◌+◌, ◌-◌, ◌*◌, ◌/◌, ◌==◌, ltb,
  leb, List, map, is_empty, if◌then◌else◌, Time, Duration, second, minute, Result, ok, err, ℤ, pos,
  negsuc, arith,
}
use gridlink.Store.{UsageRecord, Totals, Summary, StoreError, invalid_record}
use gridlink.Server.Agents.{Code}

-- The interface `store.Store`, over the state `S` of one of its implementations.
pub record Store {ℓ} (S : Type ℓ) : Type ℓ where
  pub insert : S → UsageRecord → S × Result StoreError (Unit {0})
  pub summarize : S → Time → Time → Result StoreError Summary

pub record ReportUsageRequest : Type 0 where
  pub request_id : String
  pub served_model_name : String
  pub node_id : String
  pub deployment_id : String
  pub api_key_id : String
  pub prompt_tokens : ℕ
  pub completion_tokens : ℕ
  pub timestamp_unix_ms : ℤ

pub record UsageTotals : Type 0 where
  pub key : String
  pub requests : ℕ
  pub prompt_tokens : ℕ
  pub completion_tokens : ℕ

pub record UsageSummary : Type 0 where
  pub from_unix_ms : ℤ
  pub to_unix_ms : ℤ
  pub total : UsageTotals
  pub by_node : List UsageTotals
  pub by_api_key : List UsageTotals

abbrev pub millisecond : Duration
millisecond = 1_000_000

-- The Unix epoch, counted from Go's zero time.
abbrev pub epoch : Time
epoch = 62_135_596_800 * second

-- `time.UnixMilli(ms)` for `ms >= 0`
abbrev pub of_milli : ℕ → Time
of_milli ms = epoch + ms * millisecond

-- `t.UnixMilli()`, which rounds down
unfoldable pub unix_milli : Time → ℤ
unix_milli t =
    if leb epoch t then pos ((t - epoch) / millisecond) else negsuc ((epoch - t - 1) / millisecond)

-- `if ms > 0 { t = time.UnixMilli(ms) }`
unfoldable pub time_or : Time → ℤ → Time
time_or t (pos ms) = if ltb 0 ms then of_milli ms else t
time_or t (negsuc n) = t

-- The status for an error of `Insert`.
abbrev pub insert_code : StoreError → Code
insert_code invalid_record = Code.invalid_argument
insert_code _ = Code.unavailable

unfoldable pub record_of : Time → ReportUsageRequest → UsageRecord
unfolding time_or
record_of now req = record {
  request_id = req.request_id;
  timestamp = time_or now req.timestamp_unix_ms;
  served_model_name = req.served_model_name;
  node_id = req.node_id;
  deployment_id = req.deployment_id;
  api_key_id = req.api_key_id;
  prompt_tokens = req.prompt_tokens;
  completion_tokens = req.completion_tokens;
}

unfoldable pub totals_to_proto : Totals → UsageTotals
totals_to_proto t = record {
  key = t.key;
  requests = t.requests;
  prompt_tokens = t.prompt_tokens;
  completion_tokens = t.completion_tokens;
}

abbrev pub default_summary_window : Duration
default_summary_window = 24 * (60 * minute)

unfoldable pub respond : Time → Time → Result StoreError Summary → Result Code UsageSummary
unfolding unix_milli totals_to_proto
respond from to (err _) = err Code.failed_precondition
respond from to (ok sum) = ok (record {
  from_unix_ms = unix_milli from;
  to_unix_ms = unix_milli to;
  total = totals_to_proto sum.total;
  by_node = map totals_to_proto sum.by_node;
  by_api_key = map totals_to_proto sum.by_api_key;
})

module _ {ℓ} {S : Type ℓ} (store : Store S) where
  unfoldable pub report_usage : Time → S → ReportUsageRequest → S × Result Code (Unit {0})
  unfolding record_of
  report_usage now s req =
      if is_empty req.request_id
      then (s, err Code.invalid_argument)
      else let (s', result) = store.insert s (record_of now req) in
        (s', elim result [ ok u ↦ ok u | err e ↦ err (insert_code e) ])

  -- The window is given in milliseconds, `0` or less for none.
  unfoldable pub get_usage_summary : Time → S → ℤ → ℤ → Result Code UsageSummary
  unfolding time_or respond
  get_usage_summary now s from_unix_ms to_unix_ms =
      let to = time_or now to_unix_ms in
      let from = time_or (to - default_summary_window) from_unix_ms in
      if ltb from to then respond from to (store.summarize s from to) else err Code.invalid_argument
