-- ===== src/Engine/Server.antt =====
-- agent/internal/engine/server.go: the OpenAI-compatible API in front of one model. HTTP and the
-- JSON decoder are outside: a handler is given what was decoded of the body, a fresh id and the
-- clock. Log lines and the texts of errors are left out. The mutex makes a generation one step.
pub mod Reading
pub mod Agreement
pub mod Failure
pub mod Metering
use gridlink.Prelude.{
  ℕ, String, Bool, true, false, not, ◌&&◌, ◌+◌, ◌%◌, ◌^◌, List, [], ◌∷◌, ◌++◌, Option, none, some,
  Result, ok, err, ℤ, pos, is_empty, str_eq, if◌then◌else◌, map,
}
use Prim.Native.String.{◌++◌ as ◌<>◌}
use gridlink.Bytes.{Bytes}
use gridlink.Engine.{GenerateRequest, Token, ChatMessage, Model}
use gridlink.Engine.Wire.{
  Answer, ChatRequest, ChatResponse, Completion, CompletionChoice, CompletionRequest, Fault, Frame,
  StreamChoice, StreamChunk, Usage, body, chunk, done, prompt_text, refused, stop_from, text,
  usage_of, zero_usage, stream,
}

-- `sb`, `finish` and `u` of the loops over the tokens.
pub record Gathered : Type 0 where
  pub text : Bytes
  pub finish : String
  pub usage : Usage

abbrev pub gathered_none : Gathered
gathered_none = record { text = []; finish = "stop"; usage = zero_usage }

-- A token that carries no error.
unfoldable pub absorb : Token → Gathered → Gathered
unfolding usage_of
absorb t g = record {
  text = g.text ++ t.text;
  finish = if t.done then (if is_empty t.reason then g.finish else t.reason) else g.finish;
  usage = if t.done then usage_of t else g.usage;
}

-- The loop of a blocking handler, which returns at the first error.
unfoldable pub gather : List Token → Gathered → Result String Gathered
unfolding absorb
gather [] g = ok g
gather (t ∷ ts) g = let rest = gather ts (absorb t g) in elim t.err [ some e ↦ err e | none ↦ rest ]

-- The loop of a streaming handler: the chunks that it sends, by way of `content`, and what it has
-- once it leaves the loop, at the end or at the first error.
module _ {ℓ} {C : Type ℓ} (content : Bytes → C) where
  unfoldable pub send_text : Bytes → List (Frame C) → List (Frame C)
  send_text [] frames = frames
  send_text (b ∷ s) frames = chunk (content (b ∷ s)) ∷ frames

  unfoldable pub stream_tokens : List Token → Gathered → List (Frame C) × Gathered
  unfolding absorb send_text
  stream_tokens [] g = ([], g)
  stream_tokens (t ∷ ts) g =
      let rest = stream_tokens ts (absorb t g) in
      elim t.err [ some e ↦ ([], g) | none ↦ (send_text t.text rest.0, rest.1) ]

pub record Server : Type 0 where
  pub model : Model
  pub model_name : String

-- What a handler finds outside: `randomID`, the clock, and whether the writer is a `Flusher`.
pub record Call : Type 0 where
  pub random_id : String
  pub now_unix : ℕ
  pub flushes : Bool

module _ (s : Server) (call : Call) where
  unfoldable pub completion : String → List CompletionChoice → Option Usage → Completion
  completion prefix choices usage = record {
    id = prefix <> call.random_id;
    object = "text_completion";
    created = call.now_unix;
    model = s.model_name;
    choices = choices;
    usage = usage;
  }

  unfoldable pub blocking_text : GenerateRequest → Answer Completion Completion
  unfolding gather completion
  blocking_text req = elim (s.model.generate req) [
    | err _ ↦ refused Fault.generate_failed
    | ok tokens ↦ elim (gather tokens gathered_none) [
      | err _ ↦ refused Fault.token_failed
      | ok g ↦ body (
          completion "cmpl-" (record { index = 0; text = g.text; finish_reason = g.finish } ∷ [])
            (some g.usage))
    ]
  ]

  unfoldable pub text_chunk : Bytes → Completion
  unfolding completion
  text_chunk piece =
      completion "cmpl-" (record { index = 0; text = piece; finish_reason = "" } ∷ []) none

  unfoldable pub text_frames : List Token → List (Frame Completion)
  unfolding stream_tokens text_chunk completion
  text_frames tokens =
      let (sent, g) = stream_tokens text_chunk tokens gathered_none in
      sent
      ++ chunk (
          completion "cmpl-" (record { index = 0; text = []; finish_reason = g.finish } ∷ [])
            (some g.usage))
        ∷ done
        ∷ []

  unfoldable pub stream_text : GenerateRequest → Answer Completion Completion
  unfolding text_frames
  stream_text req =
      if call.flushes
      then elim (s.model.generate req) [
        | err _ ↦ refused Fault.generate_failed
        | ok tokens ↦ stream (text_frames tokens)
      ]
      else refused Fault.no_stream

  unfoldable pub blocking_chat : GenerateRequest → Answer ChatResponse StreamChunk
  unfolding gather
  blocking_chat req = elim (s.model.generate req) [
    | err _ ↦ refused Fault.generate_failed
    | ok tokens ↦ elim (gather tokens gathered_none) [
      | err _ ↦ refused Fault.token_failed
      | ok g ↦ body (record {
        id = "chatcmpl-" <> call.random_id;
        object = "chat.completion";
        created = call.now_unix;
        model = s.model_name;
        choices =
            record {
              index = 0;
              message = some (record { role = "assistant"; content = g.text });
              finish_reason = g.finish;
            }
            ∷ [];
        usage = some g.usage;
      })
    ]
  ]

  unfoldable pub stream_chunk : List StreamChoice → Option Usage → StreamChunk
  stream_chunk choices usage = record {
    id = "chatcmpl-" <> call.random_id;
    object = "chat.completion.chunk";
    created = call.now_unix;
    model = s.model_name;
    choices = choices;
    usage = usage;
  }

  unfoldable pub delta_chunk : String → Bytes → Option String → StreamChunk
  unfolding stream_chunk
  delta_chunk role content finish =
      stream_chunk
        (record {
          index = 0;
          delta = some (record { role = role; content = content });
          finish_reason = finish;
        }
          ∷ [])
        none

  -- The role first, then a chunk for each text, the reason, the usage and the literal that ends it.
  unfoldable pub chat_frames : List Token → List (Frame StreamChunk)
  unfolding stream_tokens delta_chunk stream_chunk
  chat_frames tokens =
      let (sent, g) = stream_tokens (λ piece. delta_chunk "" piece none) tokens gathered_none in
      chunk (delta_chunk "assistant" [] none) ∷ sent
      ++ chunk (delta_chunk "" [] (some g.finish))
        ∷ chunk (stream_chunk [] (some g.usage))
        ∷ done
        ∷ []

  unfoldable pub stream_chat : GenerateRequest → Answer ChatResponse StreamChunk
  unfolding chat_frames
  stream_chat req =
      if call.flushes
      then elim (s.model.generate req) [
        | err _ ↦ refused Fault.generate_failed
        | ok tokens ↦ stream (chat_frames tokens)
      ]
      else refused Fault.no_stream

  -- `req.Model != "" && req.Model != s.modelName`
  unfoldable pub other_model : String → Bool
  other_model name = not (is_empty name) && not (str_eq name s.model_name)

  unfoldable pub chat_generate : ChatRequest → Bytes → GenerateRequest
  unfolding stop_from
  chat_generate req prompt = record {
    prompt = prompt;
    max_tokens = req.max_tokens;
    temperature = req.temperature;
    stop = stop_from req.stop;
  }

  unfoldable pub answer_chat : ChatRequest → Answer ChatResponse StreamChunk
  unfolding stream_chat blocking_chat other_model chat_generate
  answer_chat req =
      if other_model req.model
      then refused Fault.wrong_model
      else elim (s.model.apply_chat_template req.messages) [
        | err _ ↦ refused Fault.template_failed
        | ok prompt ↦
            if req.stream
            then stream_chat (chat_generate req prompt)
            else blocking_chat (chat_generate req prompt)
      ]

  unfoldable pub chat_decoded : ChatRequest → List ChatMessage → Answer ChatResponse StreamChunk
  unfolding answer_chat
  chat_decoded req [] = refused Fault.no_messages
  chat_decoded req (m ∷ ms) = answer_chat req

  unfoldable pub handle_chat : Option ChatRequest → Answer ChatResponse StreamChunk
  unfolding chat_decoded
  handle_chat none = refused Fault.malformed
  handle_chat (some req) = chat_decoded req req.messages

  unfoldable pub completion_generate : CompletionRequest → Bytes → GenerateRequest
  unfolding stop_from
  completion_generate req prompt = record {
    prompt = prompt;
    max_tokens = req.max_tokens;
    temperature = req.temperature;
    stop = stop_from req.stop;
  }

  unfoldable pub handle_completion : Option CompletionRequest → Answer Completion Completion
  unfolding prompt_text other_model stream_text blocking_text completion_generate
  handle_completion none = refused Fault.malformed
  handle_completion (some req) = elim (prompt_text req.prompt) [
    | err e ↦ refused (Fault.bad_prompt e)
    | ok prompt ↦
        if other_model req.model
        then refused Fault.wrong_model
        else if req.stream
        then stream_text (completion_generate req prompt)
        else blocking_text (completion_generate req prompt)
  ]

  -- `handleModels`: the names that it lists.
  unfoldable pub handle_models : List String
  handle_models = s.model_name ∷ []
