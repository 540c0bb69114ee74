-- ===== src/Engine/Server/Agreement.antt =====
-- The two answers of agent/internal/engine/server.go to one request, blocking and streaming, as a
-- client reads them: of each chunk or body it has the text that `json.Marshal` makes of it.
use mathlib.Core.List.{append-nil, append_assoc}
use gridlink.Prelude.{
  zero, true, ◌≡◌, refl, ap, ◌∙◌, sym, List, [], ◌∷◌, ◌++◌, none, some, ok, Result-cases, ok_inj,
  inl, inr, Option-cases,
}
use gridlink.Bytes.{Bytes}
use gridlink.Bytes.Utf8.{to_valid, to_valid_from, IsText, IsText-append, to_valid-IsText}
use gridlink.Engine.{GenerateRequest, Token}
use gridlink.Engine.Wire.{ChatResponse, StreamChunk, Completion, Frame, Answer, body, stream}
use gridlink.Engine.Server.{
  Gathered, gathered_none, absorb, gather, send_text, stream_tokens, Server, Call, completion,
  text_chunk, text_frames, stream_text, blocking_text, stream_chunk, delta_chunk, chat_frames,
  stream_chat, blocking_chat,
}
use gridlink.Engine.Server.Reading.{
  Seen, nothing_seen, newer, read, see_chat, reason_of, see_text, see_response,
}

-- Every piece is made of whole characters.
abbrev pub AllText : List Token → Type 0
AllText [] = Unit
AllText (t ∷ ts) = IsText zero t.text × AllText ts

-- The text that the chunks of a stream carry, up to the first error.
unfoldable pub streamed_text : List Token → Bytes
streamed_text [] = []
streamed_text (t ∷ ts) =
    let rest = streamed_text ts in elim t.err [ some e ↦ [] | none ↦ to_valid t.text ++ rest ]

streamed_text-gather :
    (ts : List Token) (g g' : Gathered)
    → AllText ts
    → IsText zero g.text
    → gather ts g ≡ ok g'
    → (g.text ++ streamed_text ts ≡ g'.text) × IsText zero g'.text
unfolding streamed_text gather absorb
streamed_text-gather [] g g' all valid h =
    (append-nil g.text ∙ ap (λ x. x.text) (ok_inj h), rw (ok_inj h) at valid)
streamed_text-gather (t ∷ ts) g g' (piece, all) valid h = elim (Option-cases t.err) [
  | inr (m, e) ↦ absurd (let h' = rw e at h in cc)
  | inl e ↦
      let (same, valid') =
        streamed_text-gather ts (absorb t g) g' all (IsText-append zero g.text t.text valid piece)
          (rw e at h) in
      (
        rw e (
            ap (λ s. g.text ++ (s ++ streamed_text ts)) (to_valid-IsText t.text piece)
            ∙ sym (append_assoc g.text t.text (streamed_text ts))
            ∙ same),
        valid',
      )
]

module _ {ℓ} {C : Type ℓ} (content : Bytes → C) where
  -- Both loops have gathered the same when no token carries an error.
  stream_tokens-gather :
      (ts : List Token) (g g' : Gathered)
      → gather ts g ≡ ok g'
      → (stream_tokens content ts g).1 ≡ g'
  unfolding gather stream_tokens
  stream_tokens-gather [] g g' h = ok_inj h
  stream_tokens-gather (t ∷ ts) g g' h = elim (Option-cases t.err) [
    | inl e ↦ rw e (stream_tokens-gather ts (absorb t g) g' (rw e at h))
    | inr (m, e) ↦ absurd (let h' = rw e at h in cc)
  ]

  module _ (see : C → Seen → Seen)
      (see-content : (piece : Bytes) (seen : Seen)
        → see (content piece) seen ≡ record seen { content = seen.content ++ to_valid piece }) where
    read-send_text :
        (piece : Bytes) (frames : List (Frame C)) (seen : Seen)
        → read see (send_text content piece frames) seen
          ≡ read see frames (record seen { content = seen.content ++ to_valid piece })
    unfolding send_text to_valid to_valid_from
    read-send_text [] frames seen =
        ap (λ c. read see frames (record seen { content = c })) (sym (append-nil seen.content))
    read-send_text (b ∷ piece) frames seen = ap (read see frames) (see-content (b ∷ piece) seen)

    send_text-append :
        (piece : Bytes) (frames more : List (Frame C))
        → send_text content piece frames ++ more ≡ send_text content piece (frames ++ more)
    unfolding send_text
    send_text-append [] frames more = refl
    send_text-append (b ∷ piece) frames more = refl

    read-stream_tokens :
        (ts : List Token) (g : Gathered) (more : List (Frame C)) (seen : Seen)
        → read see ((stream_tokens content ts g).0 ++ more) seen
          ≡ read see more (record seen { content = seen.content ++ streamed_text ts })
    unfolding stream_tokens streamed_text
    read-stream_tokens [] g more seen =
        ap (λ c. read see more (record seen { content = c })) (sym (append-nil seen.content))
    read-stream_tokens (t ∷ ts) g more seen = elim (Option-cases t.err) [
      | inr (m, e) ↦
          rw e
            (ap (λ c. read see more (record seen { content = c })) (sym (append-nil seen.content)))
      | inl e ↦ rw e (
          ap (λ fs. read see fs seen)
            (send_text-append t.text (stream_tokens content ts (absorb t g)).0 more)
          ∙ read-send_text t.text ((stream_tokens content ts (absorb t g)).0 ++ more) seen
          ∙ read-stream_tokens ts (absorb t g) more
              (record seen { content = seen.content ++ to_valid t.text })
          ∙ ap (λ c. read see more (record seen { content = c }))
              (append_assoc seen.content (to_valid t.text) (streamed_text ts)))
    ]

body_inj {ℓ} : {R C : Type ℓ} {a b : R} → ◌≡◌ {A = Answer R C} (body a) (body b) → a ≡ b
body_inj h = cc

module _ (s : Server) (call : Call) where
  -- What a client reads of a streamed chat, whatever the tokens.
  pub read-chat_frames :
      (tokens : List Token)
      → let g =
          (stream_tokens (λ piece. delta_chunk s call "" piece none) tokens gathered_none).1 in
        read see_chat (chat_frames s call tokens) nothing_seen
        ≡ record { content = streamed_text tokens; finish = some g.finish; usage = some g.usage }
  unfolding chat_frames delta_chunk stream_chunk to_valid to_valid_from
  read-chat_frames tokens =
      let content : Bytes → StreamChunk = λ piece. delta_chunk s call "" piece none in
      let g = (stream_tokens content tokens gathered_none).1 in
      read-stream_tokens content see_chat (λ piece seen. refl) tokens gathered_none _ nothing_seen
      ∙ ap (λ text. record { content = text; finish = some g.finish; usage = some g.usage })
          (append-nil (streamed_text tokens))

  -- When every piece of a generation is made of whole characters and the blocking chat handler
  -- answers the request with a response, the streaming one answers it with a stream of which a
  -- client reads the same text, finish reason and usage.
  pub stream_chat-IsSame :
      (req : GenerateRequest) (tokens : List Token) (r : ChatResponse)
      → call.flushes ≡ true
      → s.model.generate req ≡ ok tokens
      → AllText tokens
      → blocking_chat s call req ≡ body r
      → (frames : List (Frame StreamChunk)) × (stream_chat s call req ≡ stream frames)
        × (read see_chat frames nothing_seen ≡ see_response r)
  unfolding stream_chat blocking_chat
  stream_chat-IsSame req tokens r flushes q all h =
      elim (Result-cases (gather tokens gathered_none)) [
        | inr (e, p) ↦ absurd (let h' = rw (q, blocking_chat, p) at h in cc)
        | inl (g, p) ↦
            let h' = rw (q, blocking_chat, p) at h in
            let (same, valid) = streamed_text-gather tokens gathered_none g all tt p in
            (
              chat_frames s call tokens,
              rw flushes (rw (q, stream_chat) refl),
              read-chat_frames tokens
                  ∙ rw
                      (stream_tokens-gather (λ piece. delta_chunk s call "" piece none) tokens
                        gathered_none g p)
                      (ap
                          (λ text. record {
                            content = text;
                            finish = some g.finish;
                            usage = some g.usage;
                          })
                          (same ∙ sym (to_valid-IsText g.text valid))
                        ∙ ap see_response (body_inj h')),
            )
      ]

  read-text_frames :
      (tokens : List Token)
      → let g = (stream_tokens (text_chunk s call) tokens gathered_none).1 in
        read see_text (text_frames s call tokens) nothing_seen ≡ record {
          content = streamed_text tokens;
          finish = newer none (reason_of g.finish);
          usage = some g.usage;
        }
  unfolding text_frames text_chunk completion to_valid to_valid_from
  read-text_frames tokens =
      let g = (stream_tokens (text_chunk s call) tokens gathered_none).1 in
      read-stream_tokens (text_chunk s call) see_text (λ piece seen. refl) tokens gathered_none _
        nothing_seen
      ∙ ap
          (λ text. record {
            content = text;
            finish = newer none (reason_of g.finish);
            usage = some g.usage;
          })
          (append-nil (streamed_text tokens))

  -- The same of the handlers of plain completions.
  pub stream_text-IsSame :
      (req : GenerateRequest) (tokens : List Token) (r : Completion)
      → call.flushes ≡ true
      → s.model.generate req ≡ ok tokens
      → AllText tokens
      → blocking_text s call req ≡ body r
      → (frames : List (Frame Completion)) × (stream_text s call req ≡ stream frames)
        × (read see_text frames nothing_seen ≡ see_text r nothing_seen)
  unfolding stream_text blocking_text completion
  stream_text-IsSame req tokens r flushes q all h =
      elim (Result-cases (gather tokens gathered_none)) [
        | inr (e, p) ↦ absurd (let h' = rw (q, blocking_text, p) at h in cc)
        | inl (g, p) ↦
            let h' = rw (q, blocking_text, p) at h in
            let (same, valid) = streamed_text-gather tokens gathered_none g all tt p in
            (
              text_frames s call tokens,
              rw flushes (rw (q, stream_text) refl),
              read-text_frames tokens
                  ∙ rw (stream_tokens-gather (text_chunk s call) tokens gathered_none g p) (
                      ap
                        (λ text. record {
                          content = text;
                          finish = newer none (reason_of g.finish);
                          usage = some g.usage;
                        })
                        (same ∙ sym (to_valid-IsText g.text valid))
                      ∙ ap (λ c. see_text c nothing_seen) (body_inj h')),
            )
      ]
