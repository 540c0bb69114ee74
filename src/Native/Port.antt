-- ===== src/Native/Port.antt =====
-- How the agent learns the engine's port: the line that agent/cmd/agent/engine.go prints, and
-- `readEngineAddr` and `portOf` of agent/internal/deploy/native.go.
use gridlink.Prelude.{
  ℕ, String, Bool, true, false, ◌≡◌, ◌≢◌, refl, ap, ◌∙◌, sym, ◌<◌, ◌^◌, ◌||◌, List, [], ◌∷◌, ◌++◌,
  Option, none, some, Result, ok, err, ok_inj, ◌==◌, if◌then◌else◌, length, arith, Bool-cases, inl,
  inr,
}
use gridlink.Bytes.{Bytes, drop, drop-append}
use gridlink.Bytes.Search.{has_prefix}
use gridlink.Bytes.Decimal.{
  format, is_digit, scan_uint32, scan_uint32-format, AllDigits, format-AllDigits,
}
use gridlink.Bytes.Fields.{begins_space, trim_space, NoSpace, NoSpace-append, trim_space-NoSpace}

-- `enginePortPrefix`: "GRIDLINK_ENGINE_LISTENING ".
abbrev pub engine_port_prefix : Bytes
engine_port_prefix =
    71 ∷ 82 ∷ 73 ∷ 68 ∷ 76 ∷ 73 ∷ 78 ∷ 75 ∷ 95 ∷ 69 ∷ 78 ∷ 71 ∷ 73 ∷ 78 ∷ 69 ∷ 95 ∷ 76 ∷ 73 ∷ 83
    ∷ 84 ∷ 69 ∷ 78 ∷ 73 ∷ 78 ∷ 71 ∷ 32 ∷ []

unfoldable pub has_byte : ℕ → Bytes → Bool
has_byte c [] = false
has_byte c (b ∷ s) = (b == c) || has_byte c s

-- `net.JoinHostPort`, by which the listener's address prints itself.
unfoldable pub join_host_port : Bytes → ℕ → Bytes
unfolding has_byte
join_host_port host port =
    if has_byte 58 host || has_byte 37 host
    then (91 ∷ host) ++ 93 ∷ 58 ∷ format port
    else host ++ 58 ∷ format port

-- `fmt.Printf("GRIDLINK_ENGINE_LISTENING %s\n", ln.Addr().String())`, without its newline.
unfoldable pub listening_line : Bytes → Bytes
listening_line addr = engine_port_prefix ++ addr

-- What comes first to the `select`: a result of the reader, the timeout, or the end of the context.
pub data Arrival : Type 0 where
  reported timed_out : Arrival
  cancelled : String → Arrival

-- The goroutine that reads the lines of the engine's output, with the scanner's error at their end.
unfoldable pub scan_lines : List Bytes → Option String → Result String Bytes
unfolding has_prefix drop trim_space
scan_lines [] (some e) = err e
scan_lines [] none = err "engine stdout closed before reporting a port"
scan_lines (line ∷ lines) e =
    let rest = scan_lines lines e in
    if has_prefix line engine_port_prefix
    then ok (trim_space (drop line (length engine_port_prefix)))
    else rest

unfoldable pub not_empty_addr : Result String Bytes → Result String Bytes
not_empty_addr (err e) = err e
not_empty_addr (ok []) = err "engine reported an empty address"
not_empty_addr (ok (b ∷ addr)) = ok (b ∷ addr)

unfoldable pub read_engine_addr : Arrival → List Bytes → Option String → Result String Bytes
unfolding scan_lines not_empty_addr
read_engine_addr reported lines e = not_empty_addr (scan_lines lines e)
read_engine_addr timed_out lines e = err "timed out after 30s"
read_engine_addr (cancelled why) lines e = err why

-- What follows the last colon.
unfoldable pub after_colon : Bytes → Option Bytes
after_colon [] = none
after_colon (b ∷ s) = elim (after_colon s) [
  | some rest ↦ some rest
  | none ↦ if b == 58 then some s else none
]

-- `portOf`, with 0 for an address that has no port.
unfoldable pub port_of : Bytes → ℕ
unfolding after_colon scan_uint32
port_of addr = elim (after_colon addr) [
  | none ↦ 0
  | some rest ↦ elim (scan_uint32 rest) [ none ↦ 0 | some p ↦ p ]
]

-- No line of these announces a port.
abbrev pub NoneAnnounces : List Bytes → Type 0
NoneAnnounces [] = Unit
NoneAnnounces (line ∷ lines) = (has_prefix line engine_port_prefix ≡ false) × NoneAnnounces lines

has_prefix-append : (p s : Bytes) → has_prefix (p ++ s) p ≡ true
unfolding has_prefix
has_prefix-append [] [] = refl
has_prefix-append [] (b ∷ s) = refl
has_prefix-append (a ∷ p) s = ground (arith, has_prefix-append p s)

digit_no_space : (b : ℕ) → is_digit b ≡ true → begins_space b ≡ false
unfolding is_digit begins_space
digit_no_space b h = ground arith

AllDigits-NoSpace : (s : Bytes) → AllDigits s → NoSpace s
AllDigits-NoSpace [] h = tt
AllDigits-NoSpace (b ∷ s) (hb, hs) = (digit_no_space b hb, AllDigits-NoSpace s hs)

digit_no_colon : (b : ℕ) → is_digit b ≡ true → (b == 58) ≡ false
unfolding is_digit
digit_no_colon b h = ground arith

after_colon_digits : (s : Bytes) → AllDigits s → after_colon s ≡ none
unfolding after_colon
after_colon_digits [] h = refl
after_colon_digits (b ∷ s) (hb, hs) = rw (after_colon_digits s hs) (rw (digit_no_colon b hb) refl)

after_colon-append : (s t u : Bytes) → after_colon t ≡ some u → after_colon (s ++ t) ≡ some u
unfolding after_colon
after_colon-append [] t u h = h
after_colon-append (b ∷ s) t u h = rw (after_colon-append s t u h) refl

after_colon_head : (s : Bytes) → after_colon s ≡ none → after_colon (58 ∷ s) ≡ some s
unfolding after_colon
after_colon_head s h = rw (h, after_colon) refl

after_colon_port : (s : Bytes) (port : ℕ) → after_colon (s ++ 58 ∷ format port) ≡ some (format port)
unfolding after_colon
after_colon_port s port =
    after_colon-append s (58 ∷ format port) (format port)
      (after_colon_head (format port) (after_colon_digits (format port) (format-AllDigits port)))

port_of_after :
    (addr : Bytes) (port : ℕ)
    → after_colon addr ≡ some (format port)
    → port < 2 ^ 32
    → port_of addr ≡ port
unfolding port_of
port_of_after addr port e lt = rw (e, port_of) (rw (scan_uint32-format port lt) refl)

port_of-join_host_port :
    (host : Bytes) (port : ℕ) → port < 2 ^ 32 → port_of (join_host_port host port) ≡ port
unfolding join_host_port
port_of-join_host_port host port lt = elim (Bool-cases (has_byte 58 host || has_byte 37 host)) [
  | inl t ↦ rw t (
      port_of_after ((91 ∷ host) ++ 93 ∷ 58 ∷ format port) port
        (after_colon-append (91 ∷ host) (93 ∷ 58 ∷ format port) (format port)
          (after_colon_port (93 ∷ []) port))
        lt)
  | inr f ↦ rw f (port_of_after (host ++ 58 ∷ format port) port (after_colon_port host port) lt)
]

join_host_port-NoSpace :
    (host : Bytes) (port : ℕ) → NoSpace host → NoSpace (join_host_port host port)
unfolding join_host_port begins_space
join_host_port-NoSpace host port h =
    let digits = AllDigits-NoSpace (format port) (format-AllDigits port) in
    elim (Bool-cases (has_byte 58 host || has_byte 37 host)) [
      | inl t ↦ rw t (refl, NoSpace-append host (93 ∷ 58 ∷ format port) h (refl, (refl, digits)))
      | inr f ↦ rw f (NoSpace-append host (58 ∷ format port) h (refl, digits))
    ]

-- The lines before the one that announces a port are passed over.
scan_past :
    (noise rest : List Bytes) (e : Option String)
    → NoneAnnounces noise
    → scan_lines (noise ++ rest) e ≡ scan_lines rest e
unfolding scan_lines
scan_past [] rest e h = refl
scan_past (line ∷ noise) rest e (hl, hn) = rw hl (scan_past noise rest e hn)

scan_hit :
    (line : Bytes) (rest : List Bytes) (e : Option String)
    → has_prefix line engine_port_prefix ≡ true
    → scan_lines (line ∷ rest) e ≡ ok (trim_space (drop line (length engine_port_prefix)))
unfolding scan_lines
scan_hit line rest e h = rw h refl

scan_announced :
    (addr : Bytes) (rest : List Bytes) (e : Option String)
    → NoSpace addr
    → scan_lines (listening_line addr ∷ rest) e ≡ ok addr
unfolding scan_lines listening_line
scan_announced addr rest e h =
    scan_hit (engine_port_prefix ++ addr) rest e (has_prefix-append engine_port_prefix addr)
    ∙ ap (λ s. ok (trim_space s)) (drop-append engine_port_prefix addr)
    ∙ ap ok (trim_space-NoSpace addr h)

append_ne_nil : (s t : Bytes) (b : ℕ) → s ++ b ∷ t ≢ []
append_ne_nil [] t b h = cc
append_ne_nil (a ∷ s) t b h = cc

join_host_port-ne : (host : Bytes) (port : ℕ) → join_host_port host port ≢ []
unfolding join_host_port
join_host_port-ne host port = elim (Bool-cases (has_byte 58 host || has_byte 37 host)) [
  | inl t ↦ rw t (append_ne_nil (91 ∷ host) (58 ∷ format port) 93)
  | inr f ↦ rw f (append_ne_nil host (format port) 58)
]

not_empty_port :
    (host : Bytes) (port : ℕ) (r : Result String Bytes)
    → r ≡ ok (join_host_port host port)
    → not_empty_addr r ≡ ok (join_host_port host port)
unfolding not_empty_addr
not_empty_port host port (err e) h = absurd (cc)
not_empty_port host port (ok []) h = absurd (join_host_port-ne host port (sym (ok_inj h)))
not_empty_port host port (ok (b ∷ addr)) h = h

-- The port that the engine announces is the one that the agent reads: whatever the engine wrote
-- before, the agent's result is the address that was announced, and the port in it is the engine's.
pub read_engine_addr-listening_line :
    (noise rest : List Bytes) (e : Option String) (host : Bytes) (port : ℕ)
    → NoneAnnounces noise
    → NoSpace host
    → port < 2 ^ 32
    → let addr = join_host_port host port in
      (read_engine_addr reported (noise ++ listening_line addr ∷ rest) e ≡ ok addr)
      × (port_of addr ≡ port)
unfolding read_engine_addr
read_engine_addr-listening_line noise rest e host port quiet plain lt = (
  not_empty_port host port
      (scan_lines (noise ++ listening_line (join_host_port host port) ∷ rest) e)
      (scan_past noise _ e quiet
        ∙ scan_announced (join_host_port host port) rest e
            (join_host_port-NoSpace host port plain)),
  port_of-join_host_port host port lt,
)
