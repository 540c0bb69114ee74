-- ===== src/Engine/Server/Failure.antt =====
-- A generation that fails behind the first token, in agent/internal/engine/server.go.
use gridlink.Prelude.{
  String, true, false, ◌≡◌, refl, ap, ◌∙◌, List, [], ◌∷◌, ◌++◌, none, some, ok, err,
}
use gridlink.Bytes.{Bytes}
use gridlink.Engine.{GenerateRequest, Token}
use gridlink.Engine.Wire.{zero_usage, Fault, refused, stream, StreamChunk}
use gridlink.Engine.Server.{
  Gathered, gathered_none, absorb, gather, send_text, stream_tokens, Server, Call, delta_chunk,
  chat_frames, stream_chat, blocking_chat,
}
use gridlink.Engine.Server.Reading.{nothing_seen, see_chat, read}
use gridlink.Engine.Server.Agreement.{read-chat_frames}

-- None of them carries an error, and none is marked as the last.
abbrev pub AllPlain : List Token → Type 0
AllPlain [] = Unit
AllPlain (t ∷ ts) = (t.err ≡ none) × (t.done ≡ false) × AllPlain ts

gather_fails :
    (pre rest : List Token) (e : Token) (m : String) (g : Gathered)
    → AllPlain pre
    → e.err ≡ some m
    → gather (pre ++ e ∷ rest) g ≡ err m
unfolding gather
gather_fails [] rest e m g plain failed = rw failed refl
gather_fails (t ∷ pre) rest e m g (clean, more, plain) failed =
    rw clean (gather_fails pre rest e m (absorb t g) plain failed)

module _ {ℓ} {C : Type ℓ} (content : Bytes → C) where
  -- The loop leaves at the error with what it would have at the end of the tokens before it.
  stream_tokens_cut :
      (pre rest : List Token) (e : Token) (m : String) (g : Gathered)
      → AllPlain pre
      → e.err ≡ some m
      → stream_tokens content (pre ++ e ∷ rest) g ≡ stream_tokens content pre g
  unfolding stream_tokens
  stream_tokens_cut [] rest e m g plain failed = rw failed refl
  stream_tokens_cut (t ∷ pre) rest e m g (clean, more, plain) failed = rw clean (
      ap (λ r. (send_text content t.text r.0, r.1))
        (stream_tokens_cut pre rest e m (absorb t g) plain failed))

  stream_tokens_plain :
      (pre : List Token) (g : Gathered)
      → AllPlain pre
      → ((stream_tokens content pre g).1.finish ≡ g.finish)
        × ((stream_tokens content pre g).1.usage ≡ g.usage)
  unfolding stream_tokens absorb
  stream_tokens_plain [] g plain = (refl, refl)
  stream_tokens_plain (t ∷ pre) g (clean, more, plain) =
      rw (clean, more) (stream_tokens_plain pre (record g { text = g.text ++ t.text }) plain)

frames_cut :
    (s : Server) (call : Call) (pre rest : List Token) (e : Token) (m : String)
    → AllPlain pre
    → e.err ≡ some m
    → chat_frames s call (pre ++ e ∷ rest) ≡ chat_frames s call pre
unfolding chat_frames
frames_cut s call pre rest e m plain failed =
    rw
      (stream_tokens_cut (λ piece. delta_chunk s call "" piece none) pre rest e m gathered_none
        plain failed)
      refl

-- When a generation fails behind plain tokens, the blocking chat handler answers with an error, but
-- the streaming one sends, and ends, the very stream of a generation that yields those tokens and
-- is over: a client reads the reason `stop` in it, and a usage of no tokens.
pub failed_stream_reads_complete :
    (s : Server) (call : Call) (req : GenerateRequest) (pre rest : List Token) (e : Token)
    (m : String)
    → call.flushes ≡ true
    → s.model.generate req ≡ ok (pre ++ e ∷ rest)
    → AllPlain pre
    → e.err ≡ some m
    → (blocking_chat s call req ≡ refused Fault.token_failed)
      × (stream_chat s call req ≡ stream (chat_frames s call pre))
      × ((read see_chat (chat_frames s call pre) nothing_seen).finish ≡ some "stop")
      × ((read see_chat (chat_frames s call pre) nothing_seen).usage ≡ some zero_usage)
unfolding blocking_chat stream_chat
failed_stream_reads_complete s call req pre rest e m flushes q plain failed =
    let content : Bytes → StreamChunk = λ piece. delta_chunk s call "" piece none in
    let kept = stream_tokens_plain content pre gathered_none plain in
    let seen = read-chat_frames s call pre in
    (
      rw (q, blocking_chat, gather_fails pre rest e m gathered_none plain failed) refl,
      rw flushes (rw (q, stream_chat) (ap stream (frames_cut s call pre rest e m plain failed))),
      ap (λ x. x.finish) seen ∙ ap some kept.0,
      ap (λ x. x.usage) seen ∙ ap some kept.1,
    )
