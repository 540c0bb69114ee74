-- ===== src/Runner/Pull.antt =====
-- `pull` of agent/internal/runner/docker.go.
use mathlib.Core.List.{Memᴰ}
use gridlink.Prelude.{
  Bool, true, false, not, ◌&&◌, ◌||◌, ◌≡◌, ◌≢◌, ◌⊎◌, inl, inr, refl, sym, ap, ◌∙◌, List, [], ◌∷◌,
  Option, none, some, if◌then◌else◌, arith, Bool-cases, mem-cons_split,
}
use gridlink.Bytes.{Bytes, is_nil, bytes_eq, bytes_eq_sound}

-- One message of the progress stream, or what ends it: the end of the file or an error of the
-- decoder.
pub data Decoded : Type 0 where
  message : Bytes → Bytes → Decoded
  end_of_file : Decoded
  decode_error : Decoded

pub data PullError : Type 0 where
  open_failed bad_stream : PullError
  refused : Bytes → PullError

-- `seen[m.Status]`
unfoldable pub is_seen : Bytes → List Bytes → Bool
unfolding bytes_eq
is_seen status [] = false
is_seen status (s ∷ seen) = bytes_eq s status || is_seen status seen

-- The statuses that are passed on, and the error of the loop; a stream that is cut off in this list
-- is one that has not ended.
unfoldable pub pull_loop : List Decoded → List Bytes → List Bytes × Option PullError
unfolding is_seen
pull_loop [] seen = ([], none)
pull_loop (end_of_file ∷ rest) seen = ([], none)
pull_loop (decode_error ∷ rest) seen = ([], some bad_stream)
pull_loop (message status (b ∷ error) ∷ rest) seen = ([], some (refused (b ∷ error)))
pull_loop (message status [] ∷ rest) seen =
    let skipped = pull_loop rest seen in
    let (statuses, error) = pull_loop rest (status ∷ seen) in
    if not (is_nil status) && not (is_seen status seen) then (status ∷ statuses, error) else skipped

unfoldable pub pull : Bool → List Decoded → List Bytes × Option PullError
unfolding pull_loop
pull opened messages = if opened then pull_loop messages [] else ([], some open_failed)

-- None of the statuses is empty, repeats another or is one of those seen before.
abbrev pub AreFresh : List Bytes → List Bytes → Type 0
AreFresh seen [] = Unit
AreFresh seen (s ∷ rest) = (s ≢ []) × (is_seen s seen ≡ false) × AreFresh (s ∷ seen) rest

fresh_status :
    (status : Bytes) (seen : List Bytes)
    → (not (is_nil status) && not (is_seen status seen)) ≡ true
    → (status ≢ []) × (is_seen status seen ≡ false)
fresh_status [] seen h = absurd (ground arith)
fresh_status (b ∷ status) seen h = (λ e. absurd (cc), ground arith)

pull_loop_fresh :
    (messages : List Decoded) (seen : List Bytes) → AreFresh seen (pull_loop messages seen).0
unfolding pull_loop
pull_loop_fresh [] seen = tt
pull_loop_fresh (end_of_file ∷ rest) seen = tt
pull_loop_fresh (decode_error ∷ rest) seen = tt
pull_loop_fresh (message status (b ∷ error) ∷ rest) seen = tt
pull_loop_fresh (message status [] ∷ rest) seen =
    elim (Bool-cases (not (is_nil status) && not (is_seen status seen))) [
      | inr f ↦ rw f (pull_loop_fresh rest seen)
      | inl t ↦
          let (ne, fresh) = fresh_status status seen t in
          rw t (ne, fresh, pull_loop_fresh rest (status ∷ seen))
    ]

-- Those messages of the stream that come before what ends it, and report no error.
abbrev pub statuses_of : List Decoded → List Bytes
statuses_of [] = []
statuses_of (end_of_file ∷ rest) = []
statuses_of (decode_error ∷ rest) = []
statuses_of (message status (b ∷ error) ∷ rest) = []
statuses_of (message status [] ∷ rest) = status ∷ statuses_of rest

stale_status :
    (status : Bytes) (seen : List Bytes)
    → (not (is_nil status) && not (is_seen status seen)) ≡ false
    → (status ≡ []) ⊎ (is_seen status seen ≡ true)
stale_status [] seen h = inl refl
stale_status (b ∷ status) seen h = inr (ground arith)

seen_cons :
    (s status : Bytes) (seen : List Bytes)
    → is_seen s (status ∷ seen) ≡ true
    → (s ≡ status) ⊎ (is_seen s seen ≡ true)
unfolding is_seen
seen_cons s status seen h = elim (Bool-cases (bytes_eq status s)) [
  | inl t ↦ inl (sym (bytes_eq_sound status s t))
  | inr f ↦ inr (rw f at h)
]

-- A status of the stream is passed on, unless it is empty or was seen before.
pull_loop_all :
    (messages : List Decoded) (seen : List Bytes) (s : Bytes)
    → Memᴰ s (statuses_of messages)
    → s ≢ []
    → (is_seen s seen ≡ true) ⊎ Memᴰ s (pull_loop messages seen).0
unfolding pull_loop is_seen
pull_loop_all [] seen s m ne = elim m [ ]
pull_loop_all (end_of_file ∷ rest) seen s m ne = elim m [ ]
pull_loop_all (decode_error ∷ rest) seen s m ne = elim m [ ]
pull_loop_all (message status (b ∷ error) ∷ rest) seen s m ne = elim m [ ]
pull_loop_all (message status [] ∷ rest) seen s m ne =
    elim (Bool-cases (not (is_nil status) && not (is_seen status seen))) [
      | inl t ↦ rw t (elim (mem-cons_split m) [
        | inl e ↦ inr (Memᴰ.head e)
        | inr n ↦ elim (pull_loop_all rest (status ∷ seen) s n ne) [
          | inr found ↦ inr (Memᴰ.tail found)
          | inl old ↦ elim (seen_cons s status seen old) [
            | inl e ↦ inr (Memᴰ.head e)
            | inr older ↦ inl older
          ]
        ]
      ])
      | inr f ↦ rw f (elim (mem-cons_split m) [
        | inr n ↦ pull_loop_all rest seen s n ne
        | inl e ↦ elim (stale_status status seen f) [
          | inl nothing ↦ absurd (ne (e ∙ nothing))
          | inr old ↦ inl (ap (λ x. is_seen x seen) e ∙ old)
        ]
      ])
    ]

in_none : (s : Bytes) → is_seen s [] ≢ true
unfolding is_seen
in_none s h = cc

-- Of the progress of a pull each status is passed on exactly once, empty ones never, up to the
-- message that ends the pull.
pub pull-AreFresh :
    (messages : List Decoded)
    → AreFresh [] (pull true messages).0
      × ((s : Bytes) → Memᴰ s (statuses_of messages) → s ≢ [] → Memᴰ s (pull true messages).0)
unfolding pull
pull-AreFresh messages = (
  pull_loop_fresh messages [],
  λ s m ne. elim (pull_loop_all messages [] s m ne) [
    | inl old ↦ absurd (in_none s old)
    | inr found ↦ found
  ],
)
