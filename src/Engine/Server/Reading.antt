-- ===== src/Engine/Server/Reading.antt =====
-- What a client reads of the answers of agent/internal/engine/server.go: of each chunk or body the
-- text that `json.Marshal` makes of it.
use gridlink.Prelude.{
  String, ◌≡◌, refl, List, [], ◌∷◌, ◌++◌, Option, none, some, is_empty, if◌then◌else◌,
}
use gridlink.Bytes.{Bytes}
use gridlink.Bytes.Utf8.{to_valid}
use gridlink.Engine.Wire.{
  Usage, ChatChoice, ChatResponse, StreamChoice, StreamChunk, CompletionChoice, Completion, Frame,
  chunk, done,
}

-- What a client has read.
pub record Seen : Type 0 where
  pub content : Bytes
  pub finish : Option String
  pub usage : Option Usage

abbrev pub nothing_seen : Seen
nothing_seen = record { content = []; finish = none; usage = none }

-- The later of two optional values.
abbrev pub newer {ℓ} : {A : Type ℓ} → Option A → Option A → Option A
newer old none = old
newer old (some a) = some a

pub newer-none {ℓ} : {A : Type ℓ} (o : Option A) → newer none o ≡ o
newer-none none = refl
newer-none (some a) = refl

-- A client reads the chunks in order, up to the literal that ends the stream.
module _ {ℓ} {C : Type ℓ} (see : C → Seen → Seen) where
  abbrev pub read : List (Frame C) → Seen → Seen
  read [] seen = seen
  read (chunk c ∷ frames) seen = read frames (see c seen)
  read (done ∷ frames) seen = seen

abbrev pub delta_content : StreamChoice → Bytes
delta_content choice = elim choice.delta [ none ↦ [] | some m ↦ m.content ]

abbrev pub see_choices : List StreamChoice → Seen → Seen
see_choices [] seen = seen
see_choices (choice ∷ choices) seen = see_choices choices (record seen {
  content = seen.content ++ to_valid (delta_content choice);
  finish = newer seen.finish choice.finish_reason;
})

abbrev pub see_chat : StreamChunk → Seen → Seen
see_chat c seen = see_choices c.choices (record seen { usage = newer seen.usage c.usage })

-- A completion's `finish_reason` is left out of its JSON when it is empty.
abbrev pub reason_of : String → Option String
reason_of reason = if is_empty reason then none else some reason

abbrev pub see_texts : List CompletionChoice → Seen → Seen
see_texts [] seen = seen
see_texts (choice ∷ choices) seen = see_texts choices (record seen {
  content = seen.content ++ to_valid choice.text;
  finish = newer seen.finish (reason_of choice.finish_reason);
})

abbrev pub see_text : Completion → Seen → Seen
see_text c seen = see_texts c.choices (record seen { usage = newer seen.usage c.usage })

abbrev pub message_content : ChatChoice → Bytes
message_content choice = elim choice.message [ none ↦ [] | some m ↦ m.content ]

abbrev pub see_messages : List ChatChoice → Seen → Seen
see_messages [] seen = seen
see_messages (choice ∷ choices) seen = see_messages choices (record seen {
  content = seen.content ++ to_valid (message_content choice);
  finish = some choice.finish_reason;
})

-- A blocking answer, read the same way.
abbrev pub see_response : ChatResponse → Seen
see_response r = see_messages r.choices (record nothing_seen { usage = r.usage })
