-- ===== src/Gateway/Usage.antt =====
-- gateway/internal/usage/usage.go: the bounded queue of usage records and the goroutine that ships
-- them. A step is one operation on the channel, so the callers of `Report` and the goroutine
-- interleave in any order.
pub mod Conservation
pub mod Closing
use gridlink.Prelude.{
  ℕ, String, Bool, true, false, ◌+◌, ◌%◌, ◌^◌, List, [], ◌∷◌, ◌++◌, ltb, length, if◌then◌else◌, ℤ,
}
use gridlink.Server.Usage.{ReportUsageRequest}

-- `usage.Record`
pub record Record : Type 0 where
  pub request_id : String
  pub model : String
  pub node_id : String
  pub deployment_id : String
  pub api_key_id : String
  pub prompt_tokens : ℕ
  pub completion_tokens : ℕ
  pub timestamp_unix_ms : ℤ

abbrev pub queue_size : ℕ
queue_size = 1024

-- Where `drain` stands: in its outer loop, in the loop that flushes, or returned.
pub data Phase : Type 0 where
  looping flushing returned : Phase

pub record Reporter : Type 0 where
  -- `r.client != nil`
  pub connected : Bool
  pub ch : List Record
  -- the channel `stop` is closed
  pub stopped : Bool
  pub phase : Phase
  -- a uint64
  pub dropped : ℕ
  -- the calls of `ReportUsage` so far, whatever their outcome
  pub sent : List ReportUsageRequest

unfoldable pub new_reporter : Bool → Reporter
new_reporter connected = record {
  connected = connected;
  ch = [];
  stopped = false;
  phase = Phase.looping;
  dropped = 0;
  sent = [];
}

unfoldable pub request_of : Record → ReportUsageRequest
request_of rec = record {
  request_id = rec.request_id;
  served_model_name = rec.model;
  node_id = rec.node_id;
  deployment_id = rec.deployment_id;
  api_key_id = rec.api_key_id;
  prompt_tokens = rec.prompt_tokens;
  completion_tokens = rec.completion_tokens;
  timestamp_unix_ms = rec.timestamp_unix_ms;
}

unfoldable pub report : Record → Reporter → Reporter
report rec r =
    if r.connected
    then (if ltb (length r.ch) queue_size
        then record r { ch = r.ch ++ rec ∷ [] }
        else record r { dropped = (r.dropped + 1) % 2 ^ 64 })
    else r

-- `rec := <-r.ch; r.send(rec)`, where the channel has a record; its error is only logged.
unfoldable pub receive : List Record → Reporter → Reporter
unfolding request_of
receive [] r = r
receive (rec ∷ rest) r = record r { ch = rest; sent = r.sent ++ request_of rec ∷ [] }

-- The inner loop leaves by its default case when the channel is empty.
unfoldable pub flush : List Record → Reporter → Reporter
unfolding receive
flush [] r = record r { phase = Phase.returned }
flush (rec ∷ rest) r = receive (rec ∷ rest) r

-- One turn of `drain` by a receive. In the outer loop it blocks on an empty channel.
unfoldable pub drain_step : Phase → Reporter → Reporter
unfolding receive flush
drain_step Phase.looping r = receive r.ch r
drain_step Phase.flushing r = flush r.ch r
drain_step Phase.returned r = r

-- The turn of `drain` that takes `<-r.stop`.
unfoldable pub stop_step : Reporter → Reporter
stop_step r = elim r.phase [
  | Phase.looping ↦ if r.stopped then record r { phase = Phase.flushing } else r
  | _ ↦ r
]

-- `Close`, up to its wait for `drain`.
unfoldable pub close : Reporter → Reporter
close r = if r.connected then record r { stopped = true } else r

pub data Event : Type 0 where
  reports : Record → Event
  drains stops closes : Event

unfoldable pub step : Reporter → Event → Reporter
unfolding report drain_step stop_step close
step r (reports rec) = report rec r
step r drains = if r.connected then drain_step r.phase r else r
step r stops = if r.connected then stop_step r else r
step r closes = close r

unfoldable pub run : Reporter → List Event → Reporter
unfolding step
run r [] = r
run r (e ∷ es) = run (step r e) es
