-- ===== src/Engine/Billing.antt =====
-- A chat from the decode loop of agent/internal/engine/llama_darwin.go, by way of the stream of
-- agent/internal/engine/server.go, to the usage that gateway/internal/proxy/proxy.go captures.
use gridlink.Prelude.{ℕ, Bool, ◌≡◌, ap, ◌∙◌, ◌≤◌, List, [], ◌∷◌, Option, none, some, length}
use gridlink.Bytes.{Bytes}
use gridlink.Engine.{GenerateRequest, Token}
use gridlink.Engine.Wire.{StreamChunk}
use gridlink.Engine.Server.{Server, Call, chat_frames}
use gridlink.Engine.Server.Metering.{lines_of, Decodes, IsWhole, last, counts, chat_frames_metered}
use gridlink.Engine.Generate.{Round, max_tokens_of, generate_tokens}
use gridlink.Engine.Generate.Ending.{EndsAt, IsEnded, sampled, generate_tokens-IsEnded}
use gridlink.Gateway.Proxy.{TokenUsage}
use gridlink.Gateway.Proxy.Capture.{scan_sse}

abbrev pub AllClean : List Token → Type 0
AllClean [] = Unit
AllClean (t ∷ ts) = (t.err ≡ none) × AllClean ts

IsWhole-of_ends :
    (prompt n : ℕ) (t : Token) (ts : List Token)
    → EndsAt prompt n t ts
    → AllClean (t ∷ ts)
    → IsWhole t ts × (counts (last t ts) ≡ record { prompt_tokens = prompt; completion_tokens = n })
IsWhole-of_ends prompt n t [] (over, p, c) (clean, _) =
    ((clean, over), λ i. record { prompt_tokens = p i; completion_tokens = c i })
IsWhole-of_ends prompt n t (u ∷ us) (_, more, rest) (clean, all) =
    let (whole, e) = IsWhole-of_ends prompt n u us rest all in ((clean, more, whole), e)

module _ (s : Server) (call : Call) (decode : Bytes → Option (Option TokenUsage)) where
  metered_of_ended :
      (encode : StreamChunk → Bytes) (prompt n : ℕ) (tokens : List Token)
      → Decodes (λ c. c.usage) encode decode
      → IsEnded prompt n tokens
      → AllClean tokens
      → scan_sse decode (lines_of encode (chat_frames s call tokens)) none
        ≡ some (record { prompt_tokens = prompt; completion_tokens = n })
  metered_of_ended encode prompt n [] decodes ended clean = elim ended [ ]
  metered_of_ended encode prompt n (t ∷ ts) decodes ended clean =
      let (whole, e) = IsWhole-of_ends prompt n t ts ended clean in
      chat_frames_metered s call decode encode t ts decodes whole ∙ ap some e

  -- A streamed chat whose generation meets no error is metered by the gateway with the number of
  -- the prompt's tokens and of the pieces that were sampled, if its decoder reads the chunks that
  -- the engine encodes.
  pub generated_chat_metered :
      (encode : StreamChunk → Bytes) (req : GenerateRequest) (prompt : ℕ) (prefilled : Bool)
      (rounds : List Round)
      → Decodes (λ c. c.usage) encode decode
      → max_tokens_of req.max_tokens ≤ length rounds
      → AllClean (generate_tokens req prompt prefilled rounds)
      → scan_sse decode
          (lines_of encode (chat_frames s call (generate_tokens req prompt prefilled rounds)))
          none
        ≡ some (record {
          prompt_tokens = prompt;
          completion_tokens = length (sampled req prefilled rounds);
        })
  generated_chat_metered encode req prompt prefilled rounds decodes enough clean =
      metered_of_ended encode prompt _ (generate_tokens req prompt prefilled rounds) decodes
        (generate_tokens-IsEnded req prompt prefilled rounds enough).0 clean
