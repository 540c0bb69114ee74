-- ===== src/Engine/Wire.antt =====
-- The bodies that agent/internal/engine/server.go reads and writes.
use gridlink.Prelude.{ℕ, String, Bool, ◌+◌, ◌%◌, ◌^◌, List, [], ◌∷◌, Option, Result, ok, err, ℤ}
use gridlink.Bytes.{Bytes}
use gridlink.Engine.{Token, ChatMessage}

-- A `json.RawMessage`, as `json.Unmarshal` reads it: `null` reads as an empty text.
pub data Raw : Type 0 where
  absent : Raw
  text : Bytes → Raw
  texts : List Bytes → Raw
  other : Raw

-- `stopFrom`
unfoldable pub stop_from : Raw → List Bytes
stop_from Raw.absent = []
stop_from (Raw.text []) = []
stop_from (Raw.text (b ∷ one)) = (b ∷ one) ∷ []
stop_from (Raw.texts many) = many
stop_from Raw.other = []

pub data PromptError : Type 0 where
  prompt_required prompt_empty batched not_a_text : PromptError

-- `promptText`
unfoldable pub prompt_text : Raw → Result PromptError Bytes
prompt_text Raw.absent = err PromptError.prompt_required
prompt_text (Raw.text []) = err PromptError.prompt_empty
prompt_text (Raw.text (b ∷ one)) = ok (b ∷ one)
prompt_text (Raw.texts []) = err PromptError.prompt_empty
prompt_text (Raw.texts (one ∷ [])) = ok one
prompt_text (Raw.texts (one ∷ two ∷ more)) = err PromptError.batched
prompt_text Raw.other = err PromptError.not_a_text

pub record ChatRequest : Type 0 where
  pub model : String
  pub messages : List ChatMessage
  pub max_tokens : ℤ
  pub temperature : ℕ
  pub stream : Bool
  pub stop : Raw

pub record CompletionRequest : Type 0 where
  pub model : String
  pub max_tokens : ℤ
  pub temperature : ℕ
  pub stream : Bool
  pub prompt : Raw
  pub stop : Raw

pub record Usage : Type 0 where
  pub prompt_tokens : ℕ
  pub completion_tokens : ℕ
  pub total_tokens : ℕ

abbrev pub zero_usage : Usage
zero_usage = record { prompt_tokens = 0; completion_tokens = 0; total_tokens = 0 }

-- `usageOf`; the sum of two ints wraps around.
unfoldable pub usage_of : Token → Usage
usage_of t = record {
  prompt_tokens = t.prompt_tokens;
  completion_tokens = t.completion_tokens;
  total_tokens = (t.prompt_tokens + t.completion_tokens) % 2 ^ 64;
}

pub record ChatChoice : Type 0 where
  pub index : ℕ
  pub message : Option ChatMessage
  pub finish_reason : String

pub record ChatResponse : Type 0 where
  pub id : String
  pub object : String
  pub created : ℕ
  pub model : String
  pub choices : List ChatChoice
  pub usage : Option Usage

pub record StreamChoice : Type 0 where
  pub index : ℕ
  pub delta : Option ChatMessage
  pub finish_reason : Option String

pub record StreamChunk : Type 0 where
  pub id : String
  pub object : String
  pub created : ℕ
  pub model : String
  pub choices : List StreamChoice
  pub usage : Option Usage

pub record CompletionChoice : Type 0 where
  pub index : ℕ
  pub text : Bytes
  pub finish_reason : String

-- `completionResponse` and `completionChunk`, which have the same fields.
pub record Completion : Type 0 where
  pub id : String
  pub object : String
  pub created : ℕ
  pub model : String
  pub choices : List CompletionChoice
  pub usage : Option Usage

-- One event of a stream: a chunk, as `sendJSON` is given it and before it is marshalled, or the
-- literal that ends it. Marshalling turns a text that is not UTF-8 into one that is, chunk by chunk.
pub data Frame {ℓ} (C : Type ℓ) : Type ℓ where
  chunk : C → Frame C
  done : Frame C

pub data Fault : Type 0 where
  malformed no_messages wrong_model template_failed no_stream generate_failed token_failed : Fault
  bad_prompt : PromptError → Fault

-- The HTTP status and the `error.type` of `writeError`.
unfoldable pub status_of : Fault → ℕ × String
status_of Fault.malformed = (400, "invalid_request_error")
status_of Fault.no_messages = (400, "invalid_request_error")
status_of (Fault.bad_prompt _) = (400, "invalid_request_error")
status_of Fault.wrong_model = (404, "model_not_found")
status_of Fault.template_failed = (500, "server_error")
status_of Fault.no_stream = (500, "server_error")
status_of Fault.generate_failed = (500, "server_error")
status_of Fault.token_failed = (500, "server_error")

-- What is written to the client: an error, a JSON body with status 200, or a stream with status 200.
pub data Answer {ℓ} (R C : Type ℓ) : Type ℓ where
  refused : Fault → Answer R C
  body : R → Answer R C
  stream : List (Frame C) → Answer R C
