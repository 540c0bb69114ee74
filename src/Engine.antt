-- ===== src/Engine.antt =====
-- agent/internal/engine/engine.go: what the layers of the engine pass to each other. A text that is
-- cut or searched is its bytes; a count is the bit pattern of an int.
pub mod Stops
pub mod Wire
pub mod Server
pub mod Generate
pub mod Billing
mod Tests
use gridlink.Prelude.{ℕ, String, Bool, List, Option, Result, ℤ}
use gridlink.Bytes.{Bytes}

pub record GenerateRequest : Type 0 where
  pub prompt : Bytes
  pub max_tokens : ℤ
  pub temperature : ℕ  -- the bit pattern of a float32
  pub stop : List Bytes

pub record Token : Type 0 where
  pub text : Bytes
  pub done : Bool
  pub reason : String
  pub err : Option String
  pub prompt_tokens : ℕ
  pub completion_tokens : ℕ

pub record ChatMessage : Type 0 where
  pub role : String
  pub content : Bytes

-- `Model`. What the channel of `Generate` yields until it is closed is a list.
pub record Model : Type 0 where
  pub generate : GenerateRequest → Result String (List Token)
  pub apply_chat_template : List ChatMessage → Result String Bytes
