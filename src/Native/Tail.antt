-- ===== src/Native/Tail.antt =====
-- `tailBuffer` of agent/internal/deploy/native.go.
use mathlib.Core.List.{append-nil, append_assoc}
use gridlink.Prelude.{
  ℕ, zero, suc, true, false, ◌≡◌, refl, ap, ◌∙◌, sym, ◌-◌, ◌≤◌, List, [], ◌∷◌, ◌++◌, ltb, length,
  if◌then◌else◌, arith, Bool-cases, inl, inr, length-append, ltb→lt, ◌<◌,
}
use gridlink.Bytes.{Bytes}
use gridlink.Bytes.Fields.{join}

-- `stderrTailLines`
abbrev pub stderr_tail_lines : ℕ
stderr_tail_lines = 20

pub record TailBuffer : Type 0 where
  pub lines : List Bytes
  pub n : ℕ

unfoldable pub new_tail_buffer : ℕ → TailBuffer
new_tail_buffer n = record { lines = []; n = n }

-- `lines[k:]`
unfoldable pub skip {ℓ} : {A : Type ℓ} → ℕ → List A → List A
skip zero xs = xs
skip (suc k) [] = []
skip (suc k) (x ∷ xs) = skip k xs

-- One turn of `consume`.
unfoldable pub push_line : Bytes → TailBuffer → TailBuffer
unfolding skip
push_line line t =
    let lines = t.lines ++ line ∷ [] in
    record t { lines = if ltb t.n (length lines) then skip (length lines - t.n) lines else lines }

unfoldable pub consume : List Bytes → TailBuffer → TailBuffer
unfolding push_line
consume [] t = t
consume (line ∷ rest) t = consume rest (push_line line t)

-- `String`: the lines joined by ` | `.
unfoldable pub show_tail : TailBuffer → Bytes
unfolding join
show_tail t = join (32 ∷ 124 ∷ 32 ∷ []) t.lines

-- The last so many of a list.
abbrev pub last_of {ℓ} : {A : Type ℓ} → ℕ → List A → List A
last_of n xs = skip (length xs - n) xs

skip_all_append {ℓ} :
    {A : Type ℓ} (k : ℕ) (xs ys : List A) → k ≤ length xs → skip k (xs ++ ys) ≡ skip k xs ++ ys
unfolding skip
skip_all_append zero xs ys h = refl
skip_all_append (suc k) [] ys h = absurd (omega arith)
skip_all_append (suc k) (x ∷ xs) ys h = skip_all_append k xs ys (omega arith)

skip_one {ℓ} : {A : Type ℓ} (k : ℕ) (xs : List A) → skip 1 (skip k xs) ≡ skip (suc k) xs
unfolding skip
skip_one zero xs = refl
skip_one (suc k) [] = refl
skip_one (suc k) (x ∷ xs) = skip_one k xs

length-skip {ℓ} : {A : Type ℓ} (k : ℕ) (xs : List A) → length (skip k xs) ≡ length xs - k
unfolding skip
length-skip zero xs = omega arith
length-skip (suc k) [] = omega arith
length-skip (suc k) (x ∷ xs) = omega (arith, length-skip k xs)

skip_by {ℓ} : {A : Type ℓ} (xs : List A) (j k : ℕ) → j ≡ k → skip j xs ≡ skip k xs
skip_by xs j k e = ap (λ m. skip m xs) e

full_test : (m n : ℕ) → m ≡ suc n → ltb n m ≡ true
full_test m n e = ground arith

short_test : (m n : ℕ) → m ≤ n → ltb n m ≡ false
short_test m n le = ground arith

push_full :
    (seen : List Bytes) (line : Bytes) (n : ℕ)
    → n ≤ length seen
    → push_line line (record { lines = last_of n seen; n = n })
      ≡ record { lines = last_of n (seen ++ line ∷ []); n = n }
unfolding push_line
push_full seen line n le =
    let lines = last_of n seen ++ line ∷ [] in
    let total : length lines ≡ suc n =
      omega
        (arith, length-append (last_of n seen) (line ∷ []), length-skip (length seen - n) seen) in
    rw (full_test (length lines) n total) (
      ap (λ ls. record { lines = ls; n = n })
        (skip_by lines (length lines - n) 1 (omega arith)
          ∙ ap (skip 1) (sym (skip_all_append (length seen - n) seen (line ∷ []) (omega arith)))
          ∙ skip_one (length seen - n) (seen ++ line ∷ [])
          ∙ skip_by (seen ++ line ∷ []) (suc (length seen - n)) (length (seen ++ line ∷ []) - n)
              (omega (arith, length-append seen (line ∷ [])))))

push_short :
    (seen : List Bytes) (line : Bytes) (n : ℕ)
    → length seen < n
    → push_line line (record { lines = last_of n seen; n = n })
      ≡ record { lines = last_of n (seen ++ line ∷ []); n = n }
unfolding push_line skip
push_short seen line n lt =
    let here : last_of n seen ≡ seen = skip_by seen (length seen - n) 0 (omega arith) in
    let there : last_of n (seen ++ line ∷ []) ≡ seen ++ line ∷ [] =
      skip_by (seen ++ line ∷ []) (length (seen ++ line ∷ []) - n) 0
        (omega (arith, length-append seen (line ∷ []))) in
    ap (λ ls. push_line line (record { lines = ls; n = n })) here
    ∙ rw (short_test (length (seen ++ line ∷ [])) n (omega (arith, length-append seen (line ∷ []))))
        (ap (λ ls. record { lines = ls; n = n }) (sym there))

push_any :
    (seen : List Bytes) (line : Bytes) (n : ℕ)
    → push_line line (record { lines = last_of n seen; n = n })
      ≡ record { lines = last_of n (seen ++ line ∷ []); n = n }
push_any seen line n = elim (Bool-cases (ltb (length seen) n)) [
  | inl t ↦ push_short seen line n (ltb→lt (length seen) n t)
  | inr f ↦ push_full seen line n (ground arith)
]

consume_from :
    (rest seen : List Bytes) (n : ℕ)
    → consume rest (record { lines = last_of n seen; n = n })
      ≡ record { lines = last_of n (seen ++ rest); n = n }
unfolding consume
consume_from [] seen n = ap (λ ls. record { lines = last_of n ls; n = n }) (sym (append-nil seen))
consume_from (line ∷ rest) seen n =
    ap (consume rest) (push_any seen line n)
    ∙ consume_from rest (seen ++ line ∷ []) n
    ∙ ap (λ ls. record { lines = last_of n ls; n = n }) (append_assoc seen (line ∷ []) rest)

empty_tail : (n : ℕ) → last_of {A = Bytes} n [] ≡ []
unfolding skip
empty_tail n = skip_by [] (0 - n) 0 (omega arith)

-- Whatever the engine writes, the buffer holds the last of its lines, no more than it was made for.
pub consume_last :
    (lines : List Bytes) (n : ℕ)
    → ((consume lines (new_tail_buffer n)).lines ≡ last_of n lines)
      × (length (consume lines (new_tail_buffer n)).lines ≤ n)
unfolding new_tail_buffer
consume_last lines n =
    let held : (consume lines (new_tail_buffer n)).lines ≡ last_of n lines =
      ap (λ ls. (consume lines (record { lines = ls; n = n })).lines) (sym (empty_tail n))
      ∙ ap (λ t. t.lines) (consume_from lines [] n) in
    (held, rw held (omega (arith, length-skip (length lines - n) lines)))
