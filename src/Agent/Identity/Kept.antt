-- ===== src/Agent/Identity/Kept.antt =====
-- A node keeps the id that it was given, in agent/internal/client/client.go.
use gridlink.Prelude.{
  ℕ, Bool, true, false, not, ◌&&◌, ◌≡◌, ◌≢◌, refl, ap, ◌∙◌, sym, ◌⊎◌, inl, inr, ◌≤◌, ◌/◌, List, [],
  ◌∷◌, Option, none, some, if◌then◌else◌, arith, Bool-cases,
}
use gridlink.Bytes.{Bytes, is_nil, bytes_eq, bytes_eq_sound}
use gridlink.Bytes.Fields.{is_white, trim_right, keep, NoSpace, trim_space_behind}
use gridlink.Agent.Backoff.{
  Backoff, reset, next, at_least_base, advanced, backoff_base, backoff_cap,
}
use gridlink.Agent.Identity.{
  File, read_node_id, write_node_id, Attempt, no_stream, no_ack, acked, Write, refused, written,
  cut_short, persist, State, run_once, turn, registrations,
}

-- What is written is read back.
read_node_id-write_node_id :
    (id : Bytes) (file : File)
    → NoSpace id
    → id ≢ []
    → read_node_id true (write_node_id written id file) ≡ id
unfolding read_node_id write_node_id trim_right keep is_white
read_node_id-write_node_id id file plain ne = trim_space_behind id (10 ∷ []) plain ne refl

-- The id is not cut short when it is written.
abbrev pub IsIntact : Write → Type 0
IsIntact refused = Unit
IsIntact (cut_short n) = ⊥
IsIntact written = Unit

-- The coordinator answers with no id, or with the one that the node goes by, and a write of that is
-- not cut short.
abbrev pub Confirms : Bytes → List (Attempt × ℕ) → Type 0
Confirms id [] = Unit
Confirms id ((no_stream, draw) ∷ turns) = Confirms id turns
Confirms id ((no_ack readable, draw) ∷ turns) = Confirms id turns
Confirms id ((acked readable given outcome, draw) ∷ turns) =
    ((given ≡ []) ⊎ (given ≡ id)) × IsIntact outcome × Confirms id turns

-- Of the sessions that register: those that can read the file have the id, and the others none.
abbrev pub AllRegister : Bytes → List (Attempt × ℕ) → List (Option Bytes) → Type 0
AllRegister id [] registered = registered ≡ []
AllRegister id (turn ∷ turns) [] = ⊥
AllRegister id ((no_stream, draw) ∷ turns) (sent ∷ registered) =
    (sent ≡ none) × AllRegister id turns registered
AllRegister id ((no_ack readable, draw) ∷ turns) (sent ∷ registered) =
    (sent ≡ some (if readable then id else [])) × AllRegister id turns registered
AllRegister id ((acked readable given outcome, draw) ∷ turns) (sent ∷ registered) =
    (sent ≡ some (if readable then id else [])) × AllRegister id turns registered

-- The file has the id.
abbrev Holds : Bytes → File → Type 0
Holds id file = read_node_id true file ≡ id

read_with :
    (id : Bytes) (readable : Bool) (file : File)
    → Holds id file
    → read_node_id readable file ≡ (if readable then id else [])
unfolding read_node_id
read_with id true file e = e
read_with id false none e = refl
read_with id false (some content) e = refl

write_keeps :
    (id : Bytes) (outcome : Write) (file : File)
    → NoSpace id
    → id ≢ []
    → IsIntact outcome
    → Holds id file
    → Holds id (write_node_id outcome id file)
unfolding write_node_id
write_keeps id refused file plain ne intact e = e
write_keeps id (cut_short n) file plain ne intact e = absurd intact
write_keeps id written file plain ne intact e = read_node_id-write_node_id id file plain ne

-- What an acknowledgement leaves in the file, if it has no id or that id.
persist_keeps :
    (id given known : Bytes) (outcome : Write) (file : File)
    → NoSpace id
    → id ≢ []
    → (given ≡ []) ⊎ (given ≡ id)
    → IsIntact outcome
    → Holds id file
    → Holds id (persist given outcome known file)
unfolding persist
persist_keeps id [] known outcome file plain ne h intact e = e
persist_keeps id (b ∷ given) known outcome file plain ne (inl h) intact e = absurd (cc)
persist_keeps id (b ∷ given) known outcome file plain ne (inr h) intact e =
    elim (Bool-cases (bytes_eq (b ∷ given) known)) [
      | inl t ↦ rw t e
      | inr f ↦ rw f (
          ap (λ x. read_node_id true (write_node_id outcome x file)) h
          ∙ write_keeps id outcome file plain ne intact e)
    ]

registers_from :
    (id : Bytes) (turns : List (Attempt × ℕ)) (s : State)
    → NoSpace id
    → id ≢ []
    → Holds id s.file
    → Confirms id turns
    → AllRegister id turns (registrations turns s)
unfolding registrations turn run_once
registers_from id [] s plain ne e h = refl
registers_from id ((no_stream, draw) ∷ turns) s plain ne e h =
    (refl, registers_from id turns (turn no_stream draw s).0 plain ne e h)
registers_from id ((no_ack readable, draw) ∷ turns) s plain ne e h = (
  ap some (read_with id readable s.file e),
  registers_from id turns (turn (no_ack readable) draw s).0 plain ne e h,
)
registers_from id ((acked readable given outcome, draw) ∷ turns) s plain ne e (same, intact, h) = (
  ap some (read_with id readable s.file e),
  registers_from id turns (turn (acked readable given outcome) draw s).0 plain ne
      (persist_keeps id given (read_node_id readable s.file) outcome s.file plain ne same intact e)
      h,
)

known_of_test :
    (id known : Bytes) → id ≢ [] → (not (is_nil id) && not (bytes_eq id known)) ≡ false → known ≡ id
known_of_test [] known ne h = absurd (ne refl)
known_of_test (b ∷ id) known ne h = sym (bytes_eq_sound (b ∷ id) known (ground arith))

held :
    (id : Bytes) (readable : Bool) (file : File)
    → id ≢ []
    → read_node_id readable file ≡ id
    → Holds id file
unfolding read_node_id
held id true file ne e = e
held id false none ne e = e
held id false (some content) ne e = absurd (ne (sym e))

-- The file after a session that was given the id, in which the file was as `readable` has it.
adopted :
    (id : Bytes) (readable : Bool) (file : File)
    → NoSpace id
    → id ≢ []
    → Holds id (persist id written (read_node_id readable file) file)
unfolding persist
adopted id readable file plain ne =
    elim (Bool-cases (not (is_nil id) && not (bytes_eq id (read_node_id readable file)))) [
      | inl t ↦ rw t (read_node_id-write_node_id id file plain ne)
      | inr f ↦ rw f (held id readable file ne (known_of_test id (read_node_id readable file) ne f))
    ]

-- Once a node was given an id that could be written to its file, every `Register` that it sends
-- from then on, over however many sessions and restarts, has that id if the file can be read at the
-- time, and no id if it cannot, as long as the coordinator answers with that id or with none and no
-- write of it is cut short.
pub identity_kept :
    (id : Bytes) (readable : Bool) (draw : ℕ) (turns : List (Attempt × ℕ)) (s : State)
    → NoSpace id
    → id ≢ []
    → Confirms id turns
    → AllRegister id turns (registrations turns (turn (acked readable id written) draw s).0)
unfolding turn run_once
identity_kept id readable draw turns s plain ne h =
    registers_from id turns (turn (acked readable id written) draw s).0 plain ne
      (adopted id readable s.file plain ne) h

-- The draws are at most half of the current value, as `Int63n` has it.
abbrev pub DrawsFit : List (Attempt × ℕ) → State → Type 0
DrawsFit [] s = Unit
DrawsFit ((attempt, draw) ∷ turns) s =
    (draw ≤ at_least_base (if (run_once attempt s.file).2 then reset else s.backoff).cur / 2)
    × DrawsFit turns (turn attempt draw s).0

-- Each wait is half a second or more, and a minute at most; behind a session that came up it is a
-- second at most.
abbrev pub WaitsFit : List (Attempt × ℕ) → State → Type 0
WaitsFit [] s = Unit
WaitsFit ((attempt, draw) ∷ turns) s =
    (backoff_base / 2 ≤ (turn attempt draw s).2)
    × ((turn attempt draw s).2 ≤ backoff_cap)
    × ((run_once attempt s.file).2 ≡ true → (turn attempt draw s).2 ≤ backoff_base)
    × WaitsFit turns (turn attempt draw s).0

next_fits :
    (draw : ℕ) (b : Backoff)
    → b.cur ≤ backoff_cap
    → draw ≤ at_least_base b.cur / 2
    → (backoff_base / 2 ≤ (next draw b).0)
      × ((next draw b).0 ≤ backoff_cap)
      × (b.cur ≤ backoff_base → (next draw b).0 ≤ backoff_base)
      × ((next draw b).1.cur ≤ backoff_cap)
unfolding next at_least_base advanced
next_fits draw b le fits = ground arith

turn_fits :
    (attempt : Attempt) (draw : ℕ) (s : State) (connected : Bool)
    → s.backoff.cur ≤ backoff_cap
    → draw ≤ at_least_base (if connected then reset else s.backoff).cur / 2
    → (run_once attempt s.file).2 ≡ connected
    → (backoff_base / 2 ≤ (turn attempt draw s).2)
      × ((turn attempt draw s).2 ≤ backoff_cap)
      × (connected ≡ true → (turn attempt draw s).2 ≤ backoff_base)
      × ((turn attempt draw s).0.backoff.cur ≤ backoff_cap)
unfolding turn reset
turn_fits attempt draw s true le fits e =
    let (low, high, short, later) = next_fits draw reset (omega arith) fits in
    rw e (low, high, λ t. short (omega arith), later)
turn_fits attempt draw s false le fits e =
    let (low, high, short, later) = next_fits draw s.backoff le fits in
    rw e (low, high, λ t. absurd (cc), later)

pub turns_fit :
    (turns : List (Attempt × ℕ)) (s : State)
    → s.backoff.cur ≤ backoff_cap
    → DrawsFit turns s
    → WaitsFit turns s
turns_fit [] s le h = tt
turns_fit ((attempt, draw) ∷ turns) s le (fits, h) =
    let (low, high, short, later) =
      turn_fits attempt draw s (run_once attempt s.file).2 le fits refl in
    (low, high, short, turns_fit turns (turn attempt draw s).0 later h)
