-- ===== src/Engine/Tests.antt =====
-- The engine on concrete requests.
use gridlink.Prelude.{
  String, true, false, ◌≡◌, ◌≢◌, ◌≤◌, refl, List, [], ◌∷◌, ◌++◌, Option, none, some, ok, pos,
  length, arith, Result,
}
use gridlink.Bytes.{Bytes}
use gridlink.Engine.{GenerateRequest, Token}
use gridlink.Bytes.Search.{has_prefix, index}
use gridlink.Bytes.Utf8.{rest_of_char, followers, width_at, fits}
use gridlink.Engine.Stops.{better, index_from, index_any_stop, IsBest, index_any_stop-IsBest}
use gridlink.Engine.Wire.{
  Usage, zero_usage, ChatResponse, StreamChunk, Frame, Fault, refused, body, stream, usage_of,
}
use gridlink.Engine.Server.{gather, blocking_chat, stream_chat, chat_frames, Server, Call}
use gridlink.Engine.Server.Reading.{nothing_seen, see_chat, see_response, read}
use gridlink.Engine.Server.Agreement.{AllText, stream_chat-IsSame}
use gridlink.Engine.Server.Failure.{failed_stream_reads_complete}
use gridlink.Engine.Server.Metering.{lines_of, Decodes, token_usage}
use gridlink.Engine.Generate.{
  Round, end_of_generation, piece, finish, plain, unsent, after_piece, decode_loop, max_tokens_of,
  generate_tokens,
}
use gridlink.Engine.Generate.Ending.{IsEnded, sampled, generate_tokens-IsEnded}
use gridlink.Engine.Generate.Emission.{joined, IsShown, generate_tokens-IsShown}
use gridlink.Engine.Billing.{generated_chat_metered}
use gridlink.Gateway.Proxy.{TokenUsage}
use gridlink.Gateway.Proxy.Capture.{done_mark, scan_sse}

abbrev stops : List Bytes
stops = (69 ∷ 78 ∷ 68 ∷ []) ∷ [] ∷ []

abbrev hello : Bytes
hello = 72 ∷ 105 ∷ 69 ∷ 78 ∷ []

index_any_stop-IsBest_example :
    IsBest (hello ++ 68 ∷ []) stops (index_any_stop (hello ++ 68 ∷ []) stops)
index_any_stop-IsBest_example = index_any_stop-IsBest (hello ++ 68 ∷ []) stops

abbrev chat : GenerateRequest
chat = record { prompt = 1 ∷ []; max_tokens = pos 3; temperature = 0; stop = stops }

abbrev rounds : List Round
rounds = piece hello true ∷ piece (68 ∷ []) true ∷ end_of_generation ∷ []

three : max_tokens_of chat.max_tokens ≤ length rounds
unfolding max_tokens_of
three = omega arith

generate_tokens-IsEnded_example :
    IsEnded 7 (length (sampled chat true rounds)) (generate_tokens chat 7 true rounds)
    × (length (sampled chat true rounds) ≤ max_tokens_of chat.max_tokens)
generate_tokens-IsEnded_example = generate_tokens-IsEnded chat 7 true rounds three

generate_tokens-IsShown_example :
    IsShown chat.stop [] (sampled chat true rounds) (joined (generate_tokens chat 7 true rounds))
generate_tokens-IsShown_example = generate_tokens-IsShown chat 7 rounds three

-- A stand-in for the encoder, which keeps the usage of a chunk, and its decoder.
abbrev encode : StreamChunk → Bytes
encode c = elim c.usage [ none ↦ 0 ∷ [] | some u ↦ 1 ∷ u.prompt_tokens ∷ u.completion_tokens ∷ [] ]

abbrev decode : Bytes → Option (Option TokenUsage)
decode (tag ∷ p ∷ c ∷ []) = some (some (record { prompt_tokens = p; completion_tokens = c }))
decode (tag ∷ []) = some none
decode _ = none

short_lem :
    (u : Option Usage)
    → elim u [ none ↦ 0 ∷ [] | some u ↦ 1 ∷ u.prompt_tokens ∷ u.completion_tokens ∷ [] ] ≢ done_mark
short_lem none h = absurd (cc)
short_lem (some u) h = absurd (cc)

decode_lem :
    (u : Option Usage)
    → decode (elim u [ none ↦ 0 ∷ [] | some u ↦ 1 ∷ u.prompt_tokens ∷ u.completion_tokens ∷ [] ])
      ≡ some (token_usage u)
unfolding token_usage
decode_lem none = refl
decode_lem (some u) = refl

decodes : Decodes (λ c. c.usage) encode decode
decodes = λ c. (short_lem c.usage, decode_lem c.usage)

abbrev loaded : (GenerateRequest → Result String (List Token)) → Server
loaded generate = record {
  model = record { generate = generate; apply_chat_template = λ msgs. ok [] };
  model_name = "llama";
}

abbrev call : Call
call = record { random_id = "id"; now_unix = 9; flushes = true }

clean_tokens : generate_tokens chat 7 true rounds ≡ plain hello ∷ finish 7 2 "stop" none ∷ []
unfolding generate_tokens max_tokens_of decode_loop after_piece unsent plain finish index_any_stop
    index_from index better has_prefix
clean_tokens = refl

generated_chat_metered_example :
    scan_sse decode
      (lines_of encode
        (chat_frames (loaded (λ req. ok [])) call (generate_tokens chat 7 true rounds)))
      none
    ≡ some (record { prompt_tokens = 7; completion_tokens = length (sampled chat true rounds) })
unfolding generate_tokens max_tokens_of decode_loop after_piece unsent plain finish index_any_stop
    index_from index better has_prefix
generated_chat_metered_example =
    generated_chat_metered (loaded (λ req. ok [])) call decode encode chat 7 true rounds decodes
      three (refl, (refl, tt))

abbrev plain_end : Token
plain_end = record {
  text = [];
  done = true;
  reason = "length";
  err = none;
  prompt_tokens = 7;
  completion_tokens = 1;
}

abbrev word : Token
word = record {
  text = hello;
  done = false;
  reason = "";
  err = none;
  prompt_tokens = 0;
  completion_tokens = 0;
}

abbrev answered : ChatResponse
answered = record {
  id = "chatcmpl-id";
  object = "chat.completion";
  created = 9;
  model = "llama";
  choices =
      record {
        index = 0;
        message = some (record { role = "assistant"; content = hello });
        finish_reason = "length";
      }
      ∷ [];
  usage = some (record { prompt_tokens = 7; completion_tokens = 1; total_tokens = 8 });
}

abbrev speaks : Server
speaks = loaded (λ req. ok (word ∷ plain_end ∷ []))

blocking_answer : blocking_chat speaks call chat ≡ body answered
unfolding blocking_chat gather usage_of
blocking_answer = refl

texts : AllText (word ∷ plain_end ∷ [])
unfolding rest_of_char followers width_at fits
texts = ((0, refl, (0, refl, (0, refl, (0, refl, tt)))), (tt, tt))

stream_chat-IsSame_example :
    (frames : List (Frame StreamChunk)) × (stream_chat speaks call chat ≡ stream frames)
    × (read see_chat frames nothing_seen ≡ see_response answered)
stream_chat-IsSame_example =
    stream_chat-IsSame speaks call chat (word ∷ plain_end ∷ []) answered refl refl texts
      blocking_answer

abbrev fails : Token
fails = record {
  text = [];
  done = true;
  reason = "";
  err = some "decode failed";
  prompt_tokens = 7;
  completion_tokens = 1;
}

abbrev breaks : Server
breaks = loaded (λ req. ok (word ∷ fails ∷ []))

failed_stream_reads_complete_example :
    (blocking_chat breaks call chat ≡ refused Fault.token_failed)
    × (stream_chat breaks call chat ≡ stream (chat_frames breaks call (word ∷ [])))
    × ((read see_chat (chat_frames breaks call (word ∷ [])) nothing_seen).finish ≡ some "stop")
    × ((read see_chat (chat_frames breaks call (word ∷ [])) nothing_seen).usage ≡ some zero_usage)
failed_stream_reads_complete_example =
    failed_stream_reads_complete breaks call chat (word ∷ []) [] fails "decode failed" refl refl
      (refl, refl, tt) refl
