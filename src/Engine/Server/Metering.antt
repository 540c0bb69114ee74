-- ===== src/Engine/Server/Metering.antt =====
-- From the stream of agent/internal/engine/server.go to the usage that the gateway captures of it
-- in gateway/internal/proxy/proxy.go, which forwards the bytes as they are.
use gridlink.Prelude.{
  true, false, ◌≡◌, ◌≢◌, refl, ap, ◌∙◌, sym, List, [], ◌∷◌, ◌++◌, Option, none, some, Bool-cases,
  inl, inr, Option-cases, if◌then◌else◌,
}
use gridlink.Bytes.{Bytes, bytes_eq, bytes_eq_sound, bytes_eq_refl, take-append, drop-append}
use gridlink.Engine.{Token}
use gridlink.Engine.Wire.{Usage, StreamChunk, Completion, Frame, chunk, done, usage_of}
use gridlink.Engine.Server.{
  Gathered, gathered_none, absorb, send_text, stream_tokens, Server, Call, text_chunk, text_frames,
  delta_chunk, stream_chunk, chat_frames, completion,
}
use gridlink.Gateway.Proxy.{TokenUsage}
use gridlink.Gateway.Proxy.Capture.{
  data_prefix, done_mark, has_data, payload_of, is_done, usage_after, scan_sse,
}

-- The fields of a usage that the gateway reads.
unfoldable pub token_usage : Option Usage → Option TokenUsage
token_usage none = none
token_usage (some u) =
    some (record { prompt_tokens = u.prompt_tokens; completion_tokens = u.completion_tokens })

-- `sendJSON`, and the literal that ends the stream, as the lines that they are read as.
unfoldable pub lines_of {ℓ} : {C : Type ℓ} → (C → Bytes) → List (Frame C) → List Bytes
lines_of encode [] = []
lines_of encode (chunk c ∷ frames) = (data_prefix ++ encode c) ∷ [] ∷ lines_of encode frames
lines_of encode (done ∷ frames) = (data_prefix ++ done_mark) ∷ [] ∷ lines_of encode frames

has_data-prefix : (xs : Bytes) → has_data (data_prefix ++ xs) ≡ true
unfolding has_data
has_data-prefix xs =
    ap (λ p. bytes_eq p data_prefix) (take-append data_prefix xs) ∙ bytes_eq_refl data_prefix

payload_of-prefix : (xs : Bytes) → payload_of (data_prefix ++ xs) ≡ xs
unfolding payload_of
payload_of-prefix xs = drop-append data_prefix xs

is_done-prefix : (xs : Bytes) → xs ≢ done_mark → is_done (data_prefix ++ xs) ≡ false
unfolding is_done
is_done-prefix xs ne = elim (Bool-cases (bytes_eq (payload_of (data_prefix ++ xs)) done_mark)) [
  | inr f ↦ f
  | inl t ↦ absurd (ne (sym (payload_of-prefix xs) ∙ bytes_eq_sound _ _ t))
]

-- What the gateway's decoder makes of the chunks that the engine encodes, by the usage they carry.
abbrev pub Decodes {ℓ} :
    {C : Type ℓ} → (C → Option Usage) → (C → Bytes) → (Bytes → Option (Option TokenUsage)) → Type ℓ
Decodes {C = C} usage_in encode decode =
    (c : C) → (encode c ≢ done_mark) × (decode (encode c) ≡ some (token_usage (usage_in c)))

module _ (decode : Bytes → Option (Option TokenUsage)) where
  scan_line :
      (xs : Bytes) (lines : List Bytes) (got : Option TokenUsage)
      → xs ≢ done_mark
      → scan_sse decode ((data_prefix ++ xs) ∷ [] ∷ lines) got
        ≡ scan_sse decode lines (usage_after decode got (decode xs))
  unfolding scan_sse
  scan_line xs lines got ne =
      rw (has_data-prefix xs, is_done-prefix xs ne, payload_of-prefix xs) refl

  scan_done :
      (lines : List Bytes) (got : Option TokenUsage)
      → scan_sse decode ((data_prefix ++ done_mark) ∷ lines) got ≡ got
  unfolding scan_sse has_data is_done payload_of bytes_eq
  scan_done lines got = refl

  scan_chunk {ℓ} :
      {C : Type ℓ} (encode : C → Bytes) (usage_in : C → Option Usage)
      → Decodes usage_in encode decode
      → (c : C) (frames : List (Frame C)) (got : Option TokenUsage)
      → scan_sse decode (lines_of encode (chunk c ∷ frames)) got
        ≡ scan_sse decode
            (lines_of encode frames)
            (usage_after decode got (some (token_usage (usage_in c))))
  unfolding lines_of
  scan_chunk encode usage_in decodes c frames got =
      scan_line (encode c) (lines_of encode frames) got (decodes c).0
      ∙ ap (λ o. scan_sse decode (lines_of encode frames) (usage_after decode got o)) (decodes c).1

  scan-send_text {ℓ} :
      {C : Type ℓ} (encode : C → Bytes) (content : Bytes → C)
      → ((piece : Bytes) → encode (content piece) ≢ done_mark)
      → ((piece : Bytes) → decode (encode (content piece)) ≡ some none)
      → (piece : Bytes) (frames more : List (Frame C)) (got : Option TokenUsage)
      → scan_sse decode (lines_of encode (send_text content piece frames ++ more)) got
        ≡ scan_sse decode (lines_of encode (frames ++ more)) got
  unfolding send_text lines_of usage_after
  scan-send_text encode content ends bare [] frames more got = refl
  scan-send_text encode content ends bare (b ∷ piece) frames more got =
      scan_line (encode (content (b ∷ piece))) (lines_of encode (frames ++ more)) got
        (ends (b ∷ piece))
      ∙ rw (bare (b ∷ piece)) refl

  -- The chunks of texts carry no usage.
  scan-stream_tokens {ℓ} :
      {C : Type ℓ} (encode : C → Bytes) (content : Bytes → C)
      → ((piece : Bytes) → encode (content piece) ≢ done_mark)
      → ((piece : Bytes) → decode (encode (content piece)) ≡ some none)
      → (ts : List Token) (g : Gathered) (more : List (Frame C)) (got : Option TokenUsage)
      → scan_sse decode (lines_of encode ((stream_tokens content ts g).0 ++ more)) got
        ≡ scan_sse decode (lines_of encode more) got
  unfolding stream_tokens
  scan-stream_tokens encode content ends bare [] g more got = refl
  scan-stream_tokens encode content ends bare (t ∷ ts) g more got = elim (Option-cases t.err) [
    | inr (m, e) ↦ rw e refl
    | inl e ↦ rw e (
        scan-send_text encode content ends bare t.text (stream_tokens content ts (absorb t g)).0
          more got
        ∙ scan-stream_tokens encode content ends bare ts (absorb t g) more got)
  ]

-- No token carries an error, and only the last one ends the generation.
abbrev pub IsWhole : Token → List Token → Type 0
IsWhole t [] = (t.err ≡ none) × (t.done ≡ true)
IsWhole t (u ∷ us) = (t.err ≡ none) × (t.done ≡ false) × IsWhole u us

abbrev pub last : Token → List Token → Token
last t [] = t
last t (u ∷ us) = last u us

stream_tokens_next {ℓ} :
    {C : Type ℓ} (content : Bytes → C) (t : Token) (ts : List Token) (g : Gathered)
    → t.err ≡ none
    → (stream_tokens content (t ∷ ts) g).1 ≡ (stream_tokens content ts (absorb t g)).1
unfolding stream_tokens
stream_tokens_next content t ts g clean = rw clean refl

absorb_last : (t : Token) (g : Gathered) → t.done ≡ true → (absorb t g).usage ≡ usage_of t
unfolding absorb
absorb_last t g over = ap (λ b. if b then usage_of t else g.usage) over

stream_tokens_usage {ℓ} :
    {C : Type ℓ} (content : Bytes → C) (t : Token) (ts : List Token) (g : Gathered)
    → IsWhole t ts
    → (stream_tokens content (t ∷ ts) g).1.usage ≡ usage_of (last t ts)
unfolding stream_tokens
stream_tokens_usage content t [] g (clean, over) =
    ap (λ x. x.usage) (stream_tokens_next content t [] g clean) ∙ absorb_last t g over
stream_tokens_usage content t (u ∷ us) g (clean, more, rest) =
    ap (λ x. x.usage) (stream_tokens_next content t (u ∷ us) g clean)
    ∙ stream_tokens_usage content u us (absorb t g) rest

-- The counts of the token that ends a generation.
abbrev pub counts : Token → TokenUsage
counts t = record { prompt_tokens = t.prompt_tokens; completion_tokens = t.completion_tokens }

module _ (s : Server) (call : Call) (decode : Bytes → Option (Option TokenUsage)) where
  -- The gateway captures of a streamed chat the counts of the token that ends the generation, if no
  -- token carries an error and its decoder reads the chunks that the engine encodes.
  pub chat_frames_metered :
      (encode : StreamChunk → Bytes) (t : Token) (ts : List Token)
      → Decodes (λ c. c.usage) encode decode
      → IsWhole t ts
      → scan_sse decode (lines_of encode (chat_frames s call (t ∷ ts))) none
        ≡ some (counts (last t ts))
  unfolding chat_frames lines_of usage_after token_usage usage_of delta_chunk stream_chunk
  chat_frames_metered encode t ts decodes whole =
      let content : Bytes → StreamChunk = λ piece. delta_chunk s call "" piece none in
      let g = (stream_tokens content (t ∷ ts) gathered_none).1 in
      scan_chunk decode encode (λ c. c.usage) decodes (delta_chunk s call "assistant" [] none) _
        none
      ∙ scan-stream_tokens decode encode content (λ piece. (decodes (content piece)).0)
          (λ piece. (decodes (content piece)).1) (t ∷ ts) gathered_none _ none
      ∙ scan_chunk decode encode (λ c. c.usage) decodes (delta_chunk s call "" [] (some g.finish))
          (chunk (stream_chunk s call [] (some g.usage)) ∷ done ∷ []) none
      ∙ scan_chunk decode encode (λ c. c.usage) decodes (stream_chunk s call [] (some g.usage))
          (done ∷ []) none
      ∙ scan_done decode ([] ∷ []) (token_usage (some g.usage))
      ∙ ap (λ u. token_usage (some u)) (stream_tokens_usage content t ts gathered_none whole)

  -- The same of a streamed completion.
  pub text_frames_metered :
      (encode : Completion → Bytes) (t : Token) (ts : List Token)
      → Decodes (λ c. c.usage) encode decode
      → IsWhole t ts
      → scan_sse decode (lines_of encode (text_frames s call (t ∷ ts))) none
        ≡ some (counts (last t ts))
  unfolding text_frames lines_of usage_after token_usage usage_of text_chunk completion
  text_frames_metered encode t ts decodes whole =
      let content : Bytes → Completion = text_chunk s call in
      let g = (stream_tokens content (t ∷ ts) gathered_none).1 in
      scan-stream_tokens decode encode content (λ piece. (decodes (content piece)).0)
        (λ piece. (decodes (content piece)).1) (t ∷ ts) gathered_none _ none
      ∙ scan_chunk decode encode (λ c. c.usage) decodes
          (completion s call "cmpl-"
            (record { index = 0; text = []; finish_reason = g.finish } ∷ []) (some g.usage))
          (done ∷ []) none
      ∙ scan_done decode ([] ∷ []) (token_usage (some g.usage))
      ∙ ap (λ u. token_usage (some u)) (stream_tokens_usage content t ts gathered_none whole)
