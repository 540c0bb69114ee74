-- ===== src/Engine/Generate.antt =====
-- `llamaModel` of agent/internal/engine/llama_darwin.go: the decode loop. What the calls into
-- llama.cpp answer is given: the outcome of each round, as the library's state makes it. The codes in
-- the texts of errors are left out.
pub mod Ending
pub mod Emission
use gridlink.Prelude.{
  ℕ, zero, suc, String, Bool, true, false, ◌+◌, ◌==◌, List, [], ◌∷◌, ◌++◌, Option, none, some,
  Result, ok, err, ℤ, pos, negsuc, length, ltb, if◌then◌else◌,
}
use gridlink.Bytes.{Bytes, take, drop}
use gridlink.Engine.{GenerateRequest, Token}
use gridlink.Engine.Stops.{index_any_stop}

-- What the calls of one round answer, in the order of the round: the context was cancelled; the
-- sampled token ends the generation; its piece is not to be had; or a piece, and whether the
-- decoding of it succeeds.
pub data Round : Type 0 where
  cancelled : String → Round
  end_of_generation : Round
  no_piece : Round
  piece : Bytes → Bool → Round

-- `finish` stamps the token with the counts.
unfoldable pub finish : ℕ → ℕ → String → Option String → Token
finish prompt_tokens generated reason error = record {
  text = [];
  done = true;
  reason = reason;
  err = error;
  prompt_tokens = prompt_tokens;
  completion_tokens = generated;
}

-- `Token{Text: text}`
unfoldable pub plain : Bytes → Token
plain text = record {
  text = text;
  done = false;
  reason = "";
  err = none;
  prompt_tokens = 0;
  completion_tokens = 0;
}

-- `if idx > emitted { out <- Token{Text: sb.String()[emitted:idx]} }`
unfoldable pub unsent : Bytes → ℕ → ℕ → List Token → List Token
unfolding plain take drop
unsent text emitted idx rest =
    if ltb emitted idx then plain (drop (take text idx) emitted) ∷ rest else rest

module _ (stops : List Bytes) (prompt_tokens : ℕ) where
  -- The round once its piece is there, by the place of a stop sequence in the text with the piece;
  -- `rest` is what the rounds behind it send.
  unfoldable pub after_piece : Bytes → Bool → Bytes → ℕ → List Token → Option ℕ → List Token
  unfolding finish plain unsent
  after_piece p decodes text generated rest (some idx) =
      unsent (text ++ p) (length text) idx (finish prompt_tokens (generated + 1) "stop" none ∷ [])
  after_piece p true text generated rest none = plain p ∷ rest
  after_piece p false text generated rest none =
      plain p ∷ finish prompt_tokens (generated + 1) "" (some "decode failed") ∷ []

  -- The loop with the rounds that are left, the text so far and the count. `rounds` has an answer
  -- for each of them; where it ends before, nothing more is asked.
  unfoldable pub decode_loop : ℕ → List Round → Bytes → ℕ → List Token
  unfolding finish after_piece index_any_stop
  decode_loop zero rounds text generated = finish prompt_tokens generated "length" none ∷ []
  decode_loop (suc left) [] text generated = []
  decode_loop (suc left) (cancelled e ∷ rounds) text generated =
      finish prompt_tokens generated "stop" (some e) ∷ []
  decode_loop (suc left) (end_of_generation ∷ rounds) text generated =
      finish prompt_tokens generated "stop" none ∷ []
  decode_loop (suc left) (no_piece ∷ rounds) text generated =
      finish prompt_tokens generated "" (some "token_to_piece failed") ∷ []
  decode_loop (suc left) (piece p decodes ∷ rounds) text generated =
      let rest = decode_loop left rounds (text ++ p) (generated + 1) in
      after_piece p decodes text generated rest (index_any_stop (text ++ p) stops)

abbrev pub default_max_tokens : ℕ
default_max_tokens = 512

-- `if maxTokens <= 0 { maxTokens = 512 }`
unfoldable pub max_tokens_of : ℤ → ℕ
max_tokens_of (pos zero) = default_max_tokens
max_tokens_of (pos (suc n)) = suc n
max_tokens_of (negsuc n) = default_max_tokens

-- `generate`, for a prompt of so many tokens.
unfoldable pub generate_tokens : GenerateRequest → ℕ → Bool → List Round → List Token
unfolding decode_loop max_tokens_of
generate_tokens req prompt_tokens prefilled rounds =
    if prefilled
    then decode_loop req.stop prompt_tokens (max_tokens_of req.max_tokens) rounds [] 0
    else finish prompt_tokens 0 "" (some "prefill decode failed") ∷ []

-- `tokenize`: the first call answers with the negated count, the second with the count it wrote.
-- The result is the number of tokens.
unfoldable pub tokenize : ℤ → ℤ → Result String ℕ
tokenize (pos zero) got = err "tokenize: prompt produced no tokens"
tokenize (pos (suc n)) got = err "tokenize: unexpected positive count for empty buffer"
tokenize (negsuc n) (negsuc m) = err "tokenize failed"
tokenize (negsuc n) (pos got) = ok got

-- `Generate`. The model's mutex is held until the last token is sent.
unfoldable pub generate :
    Bool → GenerateRequest → ℤ → ℤ → Bool → List Round → Result String (List Token)
unfolding tokenize generate_tokens
generate closed req need got prefilled rounds =
    if closed then err "model is closed" else elim (tokenize need got) [
      | err e ↦ err e
      | ok prompt_tokens ↦ ok (generate_tokens req prompt_tokens prefilled rounds)
    ]
