-- ===== src/Engine/Generate/Ending.antt =====
-- How a generation of agent/internal/engine/llama_darwin.go ends, and what it counts.
use mathlib.Core.Path.{subst}
use gridlink.Prelude.{
  ℕ, zero, suc, Bool, true, false, ◌≡◌, refl, ◌+◌, ◌≤◌, List, [], ◌∷◌, ◌++◌, Option, none, some,
  length, ltb, if◌then◌else◌, arith, Bool-cases, inl, inr,
}
use gridlink.Bytes.{Bytes, take, drop}
use gridlink.Engine.{GenerateRequest, Token}
use gridlink.Engine.Stops.{index_any_stop}
use gridlink.Engine.Generate.{
  Round, cancelled, end_of_generation, no_piece, piece, finish, plain, unsent, after_piece,
  decode_loop, max_tokens_of, generate_tokens,
}

-- One token ends the list, with these counts, and every token before it is plain.
abbrev pub EndsAt : ℕ → ℕ → Token → List Token → Type 0
EndsAt prompt completion t [] =
    (t.done ≡ true) × (t.prompt_tokens ≡ prompt) × (t.completion_tokens ≡ completion)
EndsAt prompt completion t (u ∷ us) =
    (t.err ≡ none) × (t.done ≡ false) × EndsAt prompt completion u us

abbrev pub IsEnded : ℕ → ℕ → List Token → Type 0
IsEnded prompt completion [] = ⊥
IsEnded prompt completion (t ∷ ts) = EndsAt prompt completion t ts

module _ (stops : List Bytes) where
  -- Those behind a piece, by the place of a stop sequence.
  abbrev pub kept : Bool → List Bytes → Option ℕ → List Bytes
  kept decodes rest (some idx) = []
  kept true rest none = rest
  kept false rest none = []

  length-kept_le :
      (decodes : Bool) (rest : List Bytes) (o : Option ℕ)
      → length (kept decodes rest o) ≤ length rest
  length-kept_le decodes rest (some idx) = omega arith
  length-kept_le true rest none = omega arith
  length-kept_le false rest none = omega arith

  -- The pieces that the loop samples.
  unfoldable pub consumed : ℕ → List Round → Bytes → List Bytes
  consumed zero rounds text = []
  consumed (suc left) [] text = []
  consumed (suc left) (cancelled e ∷ rounds) text = []
  consumed (suc left) (end_of_generation ∷ rounds) text = []
  consumed (suc left) (no_piece ∷ rounds) text = []
  consumed (suc left) (piece p decodes ∷ rounds) text =
      let rest = consumed left rounds (text ++ p) in
      p ∷ kept decodes rest (index_any_stop (text ++ p) stops)

  length-consumed_le :
      (left : ℕ) (rounds : List Round) (text : Bytes) → length (consumed left rounds text) ≤ left
  unfolding consumed
  length-consumed_le zero rounds text = omega arith
  length-consumed_le (suc left) [] text = omega arith
  length-consumed_le (suc left) (cancelled e ∷ rounds) text = omega arith
  length-consumed_le (suc left) (end_of_generation ∷ rounds) text = omega arith
  length-consumed_le (suc left) (no_piece ∷ rounds) text = omega arith
  length-consumed_le (suc left) (piece p decodes ∷ rounds) text = omega (
    arith,
    length-kept_le decodes (consumed left rounds (text ++ p)) (index_any_stop (text ++ p) stops),
    length-consumed_le left rounds (text ++ p),
  )

module _ (stops : List Bytes) (prompt : ℕ) where
  plain_then :
      (p : Bytes) (completion : ℕ) (ts : List Token)
      → IsEnded prompt completion ts
      → IsEnded prompt completion (plain p ∷ ts)
  unfolding plain
  plain_then p completion [] h = elim h [ ]
  plain_then p completion (t ∷ ts) h = (refl, refl, h)

  unsent_then :
      (text : Bytes) (emitted idx completion : ℕ) (ts : List Token)
      → IsEnded prompt completion ts
      → IsEnded prompt completion (unsent text emitted idx ts)
  unfolding unsent
  unsent_then text emitted idx completion ts h = elim (Bool-cases (ltb emitted idx)) [
    | inl t ↦ rw t (plain_then (drop (take text idx) emitted) completion ts h)
    | inr f ↦ rw f h
  ]

  after_piece-IsEnded :
      (p : Bytes) (decodes : Bool) (text : Bytes) (generated : ℕ) (rest : List Token)
      (more : List Bytes) (o : Option ℕ)
      → IsEnded prompt (generated + 1 + length more) rest
      → IsEnded prompt
          (generated + length (p ∷ kept stops decodes more o))
          (after_piece stops prompt p decodes text generated rest o)
  unfolding after_piece finish
  after_piece-IsEnded p decodes text generated rest more (some idx) h =
      unsent_then (text ++ p) (length text) idx _ _ (refl, refl, omega arith)
  after_piece-IsEnded p true text generated rest more none h =
      plain_then p _ rest (subst (λ n. IsEnded prompt n rest) (omega arith) h)
  after_piece-IsEnded p false text generated rest more none h =
      plain_then p (generated + 1) (finish prompt (generated + 1) "" (some "decode failed") ∷ [])
        (refl, refl, refl)

  -- As long as there is an answer for each round, the loop ends, and the count is exact.
  decode_loop-IsEnded :
      (left : ℕ) (rounds : List Round) (text : Bytes) (generated : ℕ)
      → left ≤ length rounds
      → IsEnded prompt
          (generated + length (consumed stops left rounds text))
          (decode_loop stops prompt left rounds text generated)
  unfolding decode_loop consumed finish
  decode_loop-IsEnded zero rounds text generated le = (refl, refl, omega arith)
  decode_loop-IsEnded (suc left) [] text generated le = absurd (omega arith)
  decode_loop-IsEnded (suc left) (cancelled e ∷ rounds) text generated le =
      (refl, refl, omega arith)
  decode_loop-IsEnded (suc left) (end_of_generation ∷ rounds) text generated le =
      (refl, refl, omega arith)
  decode_loop-IsEnded (suc left) (no_piece ∷ rounds) text generated le = (refl, refl, omega arith)
  decode_loop-IsEnded (suc left) (piece p decodes ∷ rounds) text generated le =
      after_piece-IsEnded p decodes text generated _ _ (index_any_stop (text ++ p) stops)
        (decode_loop-IsEnded left rounds (text ++ p) (generated + 1) (omega arith))

zero_add : (n : ℕ) → 0 + n ≡ n
zero_add n = omega arith

-- The pieces that a generation samples; a prompt that is not decoded has none.
abbrev pub sampled : GenerateRequest → Bool → List Round → List Bytes
sampled req prefilled rounds =
    if prefilled then consumed req.stop (max_tokens_of req.max_tokens) rounds [] else []

-- Whichever way a generation goes, it sends plain tokens and then one that ends it, with the number
-- of the prompt's tokens and of the pieces that were sampled, which are never more than the request
-- allows, or 512 where it sets no limit.
pub generate_tokens-IsEnded :
    (req : GenerateRequest) (prompt : ℕ) (prefilled : Bool) (rounds : List Round)
    → max_tokens_of req.max_tokens ≤ length rounds
    → IsEnded prompt
        (length (sampled req prefilled rounds))
        (generate_tokens req prompt prefilled rounds)
      × (length (sampled req prefilled rounds) ≤ max_tokens_of req.max_tokens)
unfolding generate_tokens finish
generate_tokens-IsEnded req prompt true rounds enough = (
  subst (λ n. IsEnded prompt n (generate_tokens req prompt true rounds))
      (zero_add (length (sampled req true rounds)))
      (decode_loop-IsEnded req.stop prompt (max_tokens_of req.max_tokens) rounds [] 0 enough),
  length-consumed_le req.stop (max_tokens_of req.max_tokens) rounds [],
)
generate_tokens-IsEnded req prompt false rounds enough = ((refl, refl, refl), omega arith)
