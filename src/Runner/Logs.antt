-- ===== src/Runner/Logs.antt =====
-- `logCoalescer` of agent/internal/runner/docker.go.
use mathlib.Core.List.{append_assoc, append-nil}
use mathlib.Core.Path.{subst}
use gridlink.Prelude.{◌≡◌, ◌≢◌, refl, ap, ◌∙◌, sym, List, [], ◌∷◌, ◌++◌}
use gridlink.Bytes.{Bytes}

-- What happens to it: a write, or a tick of its goroutine.
pub data Event : Type 0 where
  written : Bytes → Event
  tick : Event

-- `flush`: what is emitted; the buffer is empty then.
unfoldable pub flush : Bytes → List Bytes
flush [] = []
flush (b ∷ buf) = (b ∷ buf) ∷ []

-- The buffer through the events, and the flush when it is stopped.
unfoldable pub coalesce : List Event → Bytes → List Bytes
unfolding flush
coalesce [] buf = flush buf
coalesce (written p ∷ events) buf = coalesce events (buf ++ p)
coalesce (tick ∷ events) buf = flush buf ++ coalesce events []

abbrev pub written_text : List Event → Bytes
written_text [] = []
written_text (written p ∷ events) = p ++ written_text events
written_text (tick ∷ events) = written_text events

abbrev pub concat : List Bytes → Bytes
concat [] = []
concat (c ∷ chunks) = c ++ concat chunks

abbrev pub NoneEmpty : List Bytes → Type 0
NoneEmpty [] = Unit
NoneEmpty (c ∷ chunks) = (c ≢ []) × NoneEmpty chunks

concat-flush :
    (buf : Bytes) (chunks : List Bytes) → concat (flush buf ++ chunks) ≡ buf ++ concat chunks
unfolding flush
concat-flush [] chunks = refl
concat-flush (b ∷ buf) chunks = refl

NoneEmpty-flush :
    (buf : Bytes) (chunks : List Bytes) → NoneEmpty chunks → NoneEmpty (flush buf ++ chunks)
unfolding flush
NoneEmpty-flush [] chunks h = h
NoneEmpty-flush (b ∷ buf) chunks h = (λ e. absurd (cc), h)

-- However writes and ticks follow each other, once the coalescer is stopped the chunks that it
-- emitted are together what it held and what was written since, in order; none is empty.
pub coalesce-concat :
    (events : List Event) (buf : Bytes)
    → (concat (coalesce events buf) ≡ buf ++ written_text events) × NoneEmpty (coalesce events buf)
unfolding coalesce
coalesce-concat [] buf = (
  ap concat (sym (append-nil (flush buf))) ∙ concat-flush buf [],
  subst NoneEmpty (append-nil (flush buf)) (NoneEmpty-flush buf [] tt),
)
coalesce-concat (written p ∷ events) buf =
    let (same, full) = coalesce-concat events (buf ++ p) in
    (same ∙ append_assoc buf p (written_text events), full)
coalesce-concat (tick ∷ events) buf =
    let (same, full) = coalesce-concat events [] in
    (
      concat-flush buf (coalesce events []) ∙ ap (λ s. buf ++ s) same,
      NoneEmpty-flush buf (coalesce events []) full,
    )
