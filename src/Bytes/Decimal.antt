-- ===== src/Bytes/Decimal.antt =====
-- Decimal numbers as Go prints and reads them: `strconv.Itoa`, `strconv.ParseUint` and the verb `%d`
-- of `fmt.Sscanf`.
use mathlib.Core.Path.{subst}
use gridlink.Prelude.{
  ℕ, zero, suc, Bool, true, ◌≡◌, ◌≢◌, refl, ap, ◌∙◌, ◌+◌, ◌-◌, ◌*◌, ◌/◌, ◌%◌, ◌^◌, ◌<◌, ◌&&◌, ◌||◌,
  [], ◌∷◌, Option, none, some, ltb, leb, ◌==◌, if◌then◌else◌, arith, lt→ltb,
}
use gridlink.Bytes.{Bytes}

unfoldable pub is_digit : ℕ → Bool
is_digit b = leb 48 b && leb b 57

-- The digits of a number that is below the fuel, before a text.
unfoldable pub digits : ℕ → ℕ → Bytes → Bytes
digits zero n out = out
digits (suc fuel) zero out = out
digits (suc fuel) (suc n) out = digits fuel (suc n / 10) ((48 + suc n % 10) ∷ out)

unfoldable pub format : ℕ → Bytes
unfolding digits
format zero = 48 ∷ []
format (suc n) = digits (suc (suc n)) (suc n) []

-- The number that the leading digits of a text spell behind `n`, and what follows them.
unfoldable pub read_digits : Bytes → ℕ → ℕ × Bytes
unfolding is_digit
read_digits [] n = (n, [])
read_digits (b ∷ s) n =
    let more = read_digits s (n * 10 + (b - 48)) in if is_digit b then more else (n, b ∷ s)

abbrev bounded : ℕ → ℕ → Option ℕ
bounded limit n = if ltb n limit then some n else none

abbrev whole_number : ℕ × Bytes → Option ℕ
whole_number (n, []) = bounded (2 ^ 64) n
whole_number (n, b ∷ rest) = none

-- `strconv.ParseUint(s, 10, 64)`, with `none` for an error.
unfoldable pub parse_uint64 : Bytes → Option ℕ
unfolding read_digits
parse_uint64 [] = none
parse_uint64 (b ∷ s) = whole_number (read_digits (b ∷ s) 0)

-- `fmt.Sscanf(s, "%d", &p)` for a uint32: spaces are skipped, and what follows the digits is left.
unfoldable pub scan_uint32 : Bytes → Option ℕ
unfolding read_digits is_digit
scan_uint32 [] = none
scan_uint32 (b ∷ s) =
    let later = scan_uint32 s in
    if is_digit b
    then bounded (2 ^ 32) (read_digits (b ∷ s) 0).0
    else if (b == 32) || (b == 9) || (b == 11) || (b == 12)
    then later
    else none

is_digit-last : (n : ℕ) → is_digit (48 + n % 10) ≡ true
unfolding is_digit
is_digit-last n = ground arith

last_digit : (n : ℕ) → n / 10 * 10 + (48 + n % 10 - 48) ≡ n
last_digit n = omega arith

read_last : (n : ℕ) (out : Bytes) → read_digits ((48 + n % 10) ∷ out) (n / 10) ≡ read_digits out n
unfolding read_digits
read_last n out = rw (is_digit-last n) (ap (read_digits out) (last_digit n))

-- What is printed is read back.
read_digits-digits :
    (fuel n : ℕ) (out : Bytes) → n < fuel → read_digits (digits fuel n out) 0 ≡ read_digits out n
unfolding digits
read_digits-digits zero n out h = absurd (omega arith)
read_digits-digits (suc fuel) zero out h = refl
read_digits-digits (suc fuel) (suc n) out h =
    read_digits-digits fuel (suc n / 10) ((48 + suc n % 10) ∷ out) (omega arith)
    ∙ read_last (suc n) out

-- Digits stand in front of a text that begins with one.
abbrev StartsDigit : Bytes → Type 0
StartsDigit [] = ⊥
StartsDigit (b ∷ s) = is_digit b ≡ true

digits-StartsDigit : (fuel n : ℕ) (out : Bytes) → StartsDigit out → StartsDigit (digits fuel n out)
unfolding digits
digits-StartsDigit zero n out h = h
digits-StartsDigit (suc fuel) zero out h = h
digits-StartsDigit (suc fuel) (suc n) out h =
    digits-StartsDigit fuel (suc n / 10) ((48 + suc n % 10) ∷ out) (is_digit-last (suc n))

format-StartsDigit : (n : ℕ) → StartsDigit (format n)
unfolding format digits is_digit
format-StartsDigit zero = refl
format-StartsDigit (suc n) =
    digits-StartsDigit (suc n) (suc n / 10) ((48 + suc n % 10) ∷ []) (is_digit-last (suc n))

pub read_digits-format : (n : ℕ) → read_digits (format n) 0 ≡ (n, [])
unfolding format read_digits is_digit
read_digits-format zero = refl
read_digits-format (suc n) = read_digits-digits (suc (suc n)) (suc n) [] (omega arith)

bounded_lem : (limit n : ℕ) → n < limit → bounded limit n ≡ some n
bounded_lem limit n lt = rw (lt→ltb n limit lt) refl

scan_step :
    (b : ℕ) (s : Bytes)
    → is_digit b ≡ true
    → scan_uint32 (b ∷ s) ≡ bounded (2 ^ 32) (read_digits (b ∷ s) 0).0
unfolding scan_uint32
scan_step b s h =
    ap
      (λ c.
        if c
        then bounded (2 ^ 32) (read_digits (b ∷ s) 0).0
        else if (b == 32) || (b == 9) || (b == 11) || (b == 12)
        then scan_uint32 s
        else none)
      h

scan_of_digits :
    (s : Bytes) (n : ℕ)
    → StartsDigit s
    → read_digits s 0 ≡ (n, [])
    → n < 2 ^ 32
    → scan_uint32 s ≡ some n
scan_of_digits [] n h e lt = elim h [ ]
scan_of_digits (b ∷ s) n h e lt =
    scan_step b s h ∙ ap (λ r. bounded (2 ^ 32) r.0) e ∙ bounded_lem (2 ^ 32) n lt

-- A uint32 is read back from its print.
pub scan_uint32-format : (n : ℕ) → n < 2 ^ 32 → scan_uint32 (format n) ≡ some n
scan_uint32-format n lt =
    scan_of_digits (format n) n (format-StartsDigit n) (read_digits-format n) lt

parse_of_digits :
    (s : Bytes) (n : ℕ)
    → StartsDigit s
    → read_digits s 0 ≡ (n, [])
    → n < 2 ^ 64
    → parse_uint64 s ≡ some n
unfolding parse_uint64
parse_of_digits [] n h e lt = elim h [ ]
parse_of_digits (b ∷ s) n h e lt = ap whole_number e ∙ bounded_lem (2 ^ 64) n lt

-- A uint64 is read back from its print.
pub parse_uint64-format : (n : ℕ) → n < 2 ^ 64 → parse_uint64 (format n) ≡ some n
parse_uint64-format n lt =
    parse_of_digits (format n) n (format-StartsDigit n) (read_digits-format n) lt

abbrev pub AllDigits : Bytes → Type 0
AllDigits [] = Unit
AllDigits (b ∷ s) = (is_digit b ≡ true) × AllDigits s

digits-AllDigits : (fuel n : ℕ) (out : Bytes) → AllDigits out → AllDigits (digits fuel n out)
unfolding digits
digits-AllDigits zero n out h = h
digits-AllDigits (suc fuel) zero out h = h
digits-AllDigits (suc fuel) (suc n) out h =
    digits-AllDigits fuel (suc n / 10) ((48 + suc n % 10) ∷ out) (is_digit-last (suc n), h)

pub format-AllDigits : (n : ℕ) → AllDigits (format n)
unfolding format is_digit
format-AllDigits zero = (refl, tt)
format-AllDigits (suc n) = digits-AllDigits (suc (suc n)) (suc n) [] tt

pub format-ne : (n : ℕ) → format n ≢ []
format-ne n h = subst StartsDigit h (format-StartsDigit n)
