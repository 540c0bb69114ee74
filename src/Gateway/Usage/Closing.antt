-- ===== src/Gateway/Usage/Closing.antt =====
-- `Close` of gateway/internal/usage/usage.go, the records that wait, and those reported after it.
use mathlib.Core.List.{append_assoc, append-nil}
use gridlink.Prelude.{
  ℕ, zero, suc, Bool, true, ◌≡◌, refl, sym, ap, ◌∙◌, ◌+◌, ◌≤◌, List, [], ◌∷◌, ◌++◌, map, lt→ltb,
  length, length-append, arith,
}
use gridlink.Server.Usage.{ReportUsageRequest}
use gridlink.Gateway.Usage.{
  Record, Reporter, Phase, Event, reports, drains, stops, closes, queue_size, request_of, report,
  receive, flush, drain_step, stop_step, close, step, run,
}

-- A number of turns of `drain`.
unfoldable pub turns : ℕ → List Event
turns zero = []
turns (suc n) = drains ∷ turns n

-- A reporter with its client.
abbrev live : Reporter → Bool → Phase → List Record → List ReportUsageRequest → Reporter
live r stopped phase ch sent = record {
  connected = true;
  ch = ch;
  stopped = stopped;
  phase = phase;
  dropped = r.dropped;
  sent = sent;
}

flush_lem :
    (r : Reporter) (b : Bool) (xs : List Record) (sent : List ReportUsageRequest)
    → run (live r b Phase.flushing xs sent) (turns (suc (length xs)))
      ≡ live r b Phase.returned [] (sent ++ map request_of xs)
unfolding turns run step drain_step flush receive
flush_lem r b [] sent = ap (λ ys. live r b Phase.returned [] ys) (sym (append-nil sent))
flush_lem r b (x ∷ xs) sent =
    flush_lem r b xs (sent ++ request_of x ∷ [])
    ∙ ap (λ ys. live r b Phase.returned [] ys)
        (append_assoc sent (request_of x ∷ []) (map request_of xs))

close_live :
    (r : Reporter) (b : Bool) (xs : List Record) (sent : List ReportUsageRequest)
    → run (live r b Phase.looping xs sent) (closes ∷ stops ∷ turns (suc (length xs)))
      ≡ live r true Phase.returned [] (sent ++ map request_of xs)
unfolding run step close stop_step
close_live r b xs sent = flush_lem r true xs sent

-- `Close` returns and loses nothing that waits: from any state in which `drain` is in its outer
-- loop, once `stop` is closed and `drain` has seen it, one turn more than there are records that
-- wait makes it return; by then each of them is sent, in order, and none is dropped.
pub close_flushes :
    (r : Reporter)
    → r.connected ≡ true
    → r.phase ≡ Phase.looping
    → let r' = run r (closes ∷ stops ∷ turns (suc (length r.ch))) in
      (r'.phase ≡ Phase.returned)
      × (r'.ch ≡ [])
      × (r'.sent ≡ r.sent ++ map request_of r.ch)
      × (r'.dropped ≡ r.dropped)
close_flushes r on p =
    let before : r ≡ live r r.stopped Phase.looping r.ch r.sent = λ i. record {
      connected = on i;
      ch = r.ch;
      stopped = r.stopped;
      phase = p i;
      dropped = r.dropped;
      sent = r.sent;
    } in
    let after =
      ap (λ x. run x (closes ∷ stops ∷ turns (suc (length r.ch)))) before
      ∙ close_live r r.stopped r.ch r.sent in
    (
      ap (λ x. x.phase) after,
      ap (λ x. x.ch) after,
      ap (λ x. x.sent) after,
      ap (λ x. x.dropped) after,
    )

-- As many reports as the events have.
unfoldable pub report_count : List Event → ℕ
report_count [] = 0
report_count (reports rec ∷ es) = suc (report_count es)
report_count (drains ∷ es) = report_count es
report_count (stops ∷ es) = report_count es
report_count (closes ∷ es) = report_count es

late_live :
    (r : Reporter) (b : Bool) (ch : List Record) (es : List Event)
    → length ch + report_count es ≤ queue_size
    → ((run (live r b Phase.returned ch r.sent) es).sent ≡ r.sent)
      × ((run (live r b Phase.returned ch r.sent) es).dropped ≡ r.dropped)
unfolding run step report drain_step stop_step close report_count
late_live r b ch [] h = (refl, refl)
late_live r b ch (reports rec ∷ es) h =
    rw (lt→ltb (length ch) queue_size (omega (arith, h)), run)
      (late_live r b (ch ++ rec ∷ []) es (omega (arith, h, length-append ch (rec ∷ []))))
late_live r b ch (drains ∷ es) h = late_live r b ch es h
late_live r b ch (stops ∷ es) h = late_live r b ch es h
late_live r b ch (closes ∷ es) h = late_live r true ch es h

-- The records that are reported once `drain` has returned are not counted as dropped, as long as the
-- queue has room for them.
late_report_uncounted :
    (es : List Event) (r : Reporter)
    → r.connected ≡ true
    → r.phase ≡ Phase.returned
    → length r.ch + report_count es ≤ queue_size
    → (run r es).dropped ≡ r.dropped
late_report_uncounted es r on p h =
    let now : live r r.stopped Phase.returned r.ch r.sent ≡ r = λ i. record {
      connected = sym on i;
      ch = r.ch;
      stopped = r.stopped;
      phase = sym p i;
      dropped = r.dropped;
      sent = r.sent;
    } in
    ap (λ x. (run x es).dropped) (sym now) ∙ (late_live r r.stopped r.ch es h).1
