-- ===== src/Engine/Generate/Emission.antt =====
-- Which text a generation of agent/internal/engine/llama_darwin.go sends.
use mathlib.Core.List.{append-nil, append_assoc}
use gridlink.Prelude.{
  ℕ, zero, suc, Bool, true, false, ◌≡◌, refl, ap, ◌∙◌, sym, ◌+◌, ◌≤◌, ◌⊎◌, inl, inr, List, [], ◌∷◌,
  ◌++◌, Option, none, some, length, ltb, if◌then◌else◌, arith, Bool-cases, ltb→lt,
}
use gridlink.Bytes.{Bytes, take, drop, take-append}
use gridlink.Engine.{GenerateRequest, Token}
use gridlink.Bytes.Search.{has_prefix, index}
use gridlink.Engine.Stops.{better, index_from, index_any_stop}
use gridlink.Engine.Generate.{
  Round, cancelled, end_of_generation, no_piece, piece, finish, plain, unsent, after_piece,
  decode_loop, max_tokens_of, generate_tokens,
}
use gridlink.Engine.Generate.Ending.{kept, consumed, sampled}

abbrev pub joined : List Token → Bytes
joined [] = []
joined (t ∷ ts) = t.text ++ joined ts

abbrev pub concat : List Bytes → Bytes
concat [] = []
concat (p ∷ ps) = p ++ concat ps

abbrev pub max : ℕ → ℕ → ℕ
max a b = if ltb a b then b else a

drop_of_take :
    (x y : Bytes) (n : ℕ) → length x ≤ n → x ++ drop (take (x ++ y) n) (length x) ≡ take (x ++ y) n
unfolding take drop
drop_of_take [] [] n le = refl
drop_of_take [] (b ∷ y) zero le = refl
drop_of_take [] (b ∷ y) (suc n) le = refl
drop_of_take (b ∷ x) y zero le = absurd (omega arith)
drop_of_take (b ∷ x) y (suc n) le = ap (λ zs. b ∷ zs) (drop_of_take x y n (omega arith))

-- All pieces but the last.
abbrev pub but_last : List Bytes → List Bytes
but_last [] = []
but_last (p ∷ []) = []
but_last (p ∷ q ∷ ps) = p ∷ but_last (q ∷ ps)

-- Behind a text, the text that is shown is all of the pieces, and they have no stop sequence; or,
-- where the last piece is the one that makes up the first stop sequence, what stands before the
-- sequence, or the pieces before the last if those are longer.
abbrev pub IsShown : List Bytes → Bytes → List Bytes → Bytes → Type 0
IsShown stops text pieces shown =
    ((index_any_stop (text ++ concat pieces) stops ≡ none) × (shown ≡ text ++ concat pieces))
    ⊎ ((idx : ℕ) × (index_any_stop (text ++ concat (but_last pieces)) stops ≡ none)
        × (index_any_stop (text ++ concat pieces) stops ≡ some idx)
        × (shown
            ≡ take (text ++ concat pieces) (max (length (text ++ concat (but_last pieces))) idx)))

-- A piece that is shown whole goes before the pieces.
IsShown-behind :
    (stops : List Bytes) (text p : Bytes) (pieces : List Bytes) (rest : Bytes)
    → index_any_stop (text ++ p) stops ≡ none
    → IsShown stops (text ++ p) pieces ((text ++ p) ++ rest)
    → IsShown stops text (p ∷ pieces) (text ++ (p ++ rest))
IsShown-behind stops text p pieces rest clear (inl (none_yet, shown)) = inl (
  ap (λ s. index_any_stop s stops) (sym (append_assoc text p (concat pieces))) ∙ none_yet,
  sym (append_assoc text p rest) ∙ shown ∙ append_assoc text p (concat pieces),
)
IsShown-behind stops text p [] rest clear (inr (idx, before, now, shown)) =
    absurd (let e = sym now ∙ before in cc)
IsShown-behind stops text p (q ∷ pieces) rest clear (inr (idx, before, now, shown)) = inr (
  idx,
  ap (λ s. index_any_stop s stops) (sym (append_assoc text p (concat (but_last (q ∷ pieces)))))
      ∙ before,
  ap (λ s. index_any_stop s stops) (sym (append_assoc text p (concat (q ∷ pieces)))) ∙ now,
  sym (append_assoc text p rest)
      ∙ shown
      ∙ ap (λ s. take s (max (length ((text ++ p) ++ concat (but_last (q ∷ pieces)))) idx))
          (append_assoc text p (concat (q ∷ pieces)))
      ∙ ap (λ s. take (text ++ (p ++ concat (q ∷ pieces))) (max (length s) idx))
          (append_assoc text p (concat (but_last (q ∷ pieces)))),
)

module _ (stops : List Bytes) (prompt : ℕ) where
  unsent_text :
      (text p : Bytes) (idx : ℕ) (t : Token)
      → t.text ≡ []
      → text ++ joined (unsent (text ++ p) (length text) idx (t ∷ []))
        ≡ take (text ++ p) (max (length text) idx)
  unfolding unsent plain
  unsent_text text p idx t e = elim (Bool-cases (ltb (length text) idx)) [
    | inl lt ↦ rw lt (
        rw e (rw append-nil (drop_of_take text p idx (omega (arith, ltb→lt (length text) idx lt)))))
    | inr f ↦ rw f (rw e (append-nil text ∙ sym (take-append text p)))
  ]

  -- Where the loop ends behind a text that has no stop sequence.
  IsShown-end :
      (text : Bytes) → index_any_stop text stops ≡ none → IsShown stops text [] (text ++ [])
  IsShown-end text e = inl (ap (λ s. index_any_stop s stops) (append-nil text) ∙ e, refl)

  IsShown-piece :
      (p : Bytes) (decodes : Bool) (text : Bytes) (generated : ℕ) (rest : List Token)
      (more : List Bytes) (o : Option ℕ)
      → index_any_stop text stops ≡ none
      → index_any_stop (text ++ p) stops ≡ o
      → (o ≡ none → IsShown stops (text ++ p) more ((text ++ p) ++ joined rest))
      → IsShown stops text
          (p ∷ kept stops decodes more o)
          (text ++ joined (after_piece stops prompt p decodes text generated rest o))
  unfolding after_piece plain finish
  IsShown-piece p decodes text generated rest more (some idx) before now h = inr (
    idx,
    ap (λ s. index_any_stop s stops) (append-nil text) ∙ before,
    ap (λ s. index_any_stop (text ++ s) stops) (append-nil p) ∙ now,
    unsent_text text p idx (finish prompt (generated + 1) "stop" none) refl
        ∙ ap (λ s. take (text ++ s) (max (length text) idx)) (sym (append-nil p))
        ∙ ap (λ s. take (text ++ (p ++ [])) (max (length s) idx)) (sym (append-nil text)),
  )
  IsShown-piece p true text generated rest more none before now h =
      IsShown-behind stops text p more (joined rest) now (h refl)
  IsShown-piece p false text generated rest more none before now h =
      IsShown-behind stops text p [] [] now (IsShown-end (text ++ p) now)

  IsShown-loop :
      (left : ℕ) (rounds : List Round) (text : Bytes) (generated : ℕ)
      → left ≤ length rounds
      → index_any_stop text stops ≡ none
      → IsShown stops text
          (consumed stops left rounds text)
          (text ++ joined (decode_loop stops prompt left rounds text generated))
  unfolding decode_loop consumed finish
  IsShown-loop zero rounds text generated le e = IsShown-end text e
  IsShown-loop (suc left) [] text generated le e = absurd (omega arith)
  IsShown-loop (suc left) (cancelled m ∷ rounds) text generated le e = IsShown-end text e
  IsShown-loop (suc left) (end_of_generation ∷ rounds) text generated le e = IsShown-end text e
  IsShown-loop (suc left) (no_piece ∷ rounds) text generated le e = IsShown-end text e
  IsShown-loop (suc left) (piece p decodes ∷ rounds) text generated le e =
      IsShown-piece p decodes text generated _ _ (index_any_stop (text ++ p) stops) e refl
        (λ none_yet. IsShown-loop left rounds (text ++ p) (generated + 1) (omega arith) none_yet)

-- The empty text has no stop sequence.
no_stop_in_nothing : (stops : List Bytes) → index_any_stop [] stops ≡ none
unfolding index_any_stop index_from index has_prefix better
no_stop_in_nothing [] = refl
no_stop_in_nothing ([] ∷ stops) = no_stop_in_nothing stops
no_stop_in_nothing ((b ∷ stop) ∷ stops) = no_stop_in_nothing stops

-- Of a generation that decodes its prompt, the client is sent all pieces that were sampled if they
-- have no stop sequence; else the last of them is the first that makes one up, and the client is
-- sent what stands before it, or all pieces but the last if those are longer.
pub generate_tokens-IsShown :
    (req : GenerateRequest) (prompt : ℕ) (rounds : List Round)
    → max_tokens_of req.max_tokens ≤ length rounds
    → IsShown req.stop []
        (sampled req true rounds)
        (joined (generate_tokens req prompt true rounds))
unfolding generate_tokens
generate_tokens-IsShown req prompt rounds enough =
    IsShown-loop req.stop prompt (max_tokens_of req.max_tokens) rounds [] 0 enough
      (no_stop_in_nothing req.stop)
