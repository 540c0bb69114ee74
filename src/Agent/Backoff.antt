-- ===== src/Agent/Backoff.antt =====
-- The backoff between two attempts to connect, in agent/internal/client/client.go. What
-- `rand.Int63n` draws is given with each call.
use native.Mathlib.Nat.{pow-succ'}
use gridlink.Prelude.{
  ℕ, zero, suc, ◌≡◌, sym, ap, ◌∙◌, ◌+◌, ◌*◌, ◌/◌, ◌^◌, ◌≤◌, ltb, List, [], ◌∷◌, length,
  if◌then◌else◌, Duration, second, arith,
}

abbrev pub backoff_base : Duration
backoff_base = second

abbrev pub backoff_cap : Duration
backoff_cap = 60 * second

pub record Backoff : Type 0 where
  pub cur : Duration

unfoldable pub reset : Backoff
reset = record { cur = backoff_base }

-- `b.cur = backoffBase` if it is less
unfoldable pub at_least_base : Duration → Duration
at_least_base cur = if ltb cur backoff_base then backoff_base else cur

-- Twice as long, up to the cap.
unfoldable pub advanced : Duration → Duration
advanced cur =
    if ltb cur backoff_cap
    then (if ltb backoff_cap (cur * 2) then backoff_cap else cur * 2)
    else cur

-- The wait, and the schedule for the next one.
unfoldable pub next : ℕ → Backoff → Duration × Backoff
unfolding at_least_base advanced
next draw b = let cur = at_least_base b.cur in (cur / 2 + draw, record b { cur = advanced cur })

-- The schedule after a number of attempts that failed.
unfoldable pub after : List ℕ → Backoff → Backoff
unfolding next
after [] b = b
after (draw ∷ draws) b = after draws (next draw b).1

-- The longest wait of the `n`-th attempt: a second, doubled `n` times, but at most a minute.
unfoldable pub ceiling : ℕ → Duration
ceiling n = if ltb (backoff_base * 2 ^ n) backoff_cap then backoff_base * 2 ^ n else backoff_cap

-- The ceiling, by the power of two.
abbrev capped : ℕ → Duration
capped x = if ltb (backoff_base * x) backoff_cap then backoff_base * x else backoff_cap

power_positive : (n : ℕ) → 1 ≤ 2 ^ n
power_positive zero = omega arith
power_positive (suc n) = omega (arith, power_positive n, pow-succ' 2 n)

advanced-capped :
    (x cur : ℕ) → 1 ≤ x → cur ≡ capped x → advanced (at_least_base cur) ≡ capped (2 * x)
unfolding advanced at_least_base
advanced-capped x cur h e = ground arith

capped-at_least_base : (x cur : ℕ) → 1 ≤ x → cur ≡ capped x → at_least_base cur ≡ cur
unfolding at_least_base
capped-at_least_base x cur h e = ground arith

next-ceiling :
    (draw n : ℕ) (b : Backoff) → b.cur ≡ ceiling n → (next draw b).1.cur ≡ ceiling (suc n)
unfolding next ceiling
next-ceiling draw n b e =
    advanced-capped (2 ^ n) b.cur (power_positive n) e ∙ ap capped (sym (pow-succ' 2 n))

after-ceiling :
    (draws : List ℕ) (n : ℕ) (b : Backoff)
    → b.cur ≡ ceiling n
    → (after draws b).cur ≡ ceiling (length draws + n)
unfolding after
after-ceiling [] n b e = e ∙ ap ceiling (omega arith)
after-ceiling (draw ∷ draws) n b e =
    after-ceiling draws (suc n) (next draw b).1 (next-ceiling draw n b e) ∙ ap ceiling (omega arith)

reset-ceiling : reset.cur ≡ ceiling 0
unfolding reset ceiling
reset-ceiling = ground arith

next-wait : (draw n : ℕ) (b : Backoff) → b.cur ≡ ceiling n → (next draw b).0 ≡ b.cur / 2 + draw
unfolding next ceiling
next-wait draw n b e =
    ap (λ x. x / 2 + draw) (capped-at_least_base (2 ^ n) b.cur (power_positive n) e)

-- After any number of attempts in a row that failed, whatever was drawn for them, the next wait is
-- between half of the ceiling and the ceiling: a second doubled for each of them, but at most a
-- minute. What is drawn is at most half of the current value, as `Int63n` has it.
pub backoff_bounds :
    (draws : List ℕ) (draw : ℕ)
    → draw ≤ (after draws reset).cur / 2
    → (ceiling (length draws) / 2 ≤ (next draw (after draws reset)).0)
      × ((next draw (after draws reset)).0 ≤ ceiling (length draws))
backoff_bounds draws draw h =
    let level : (after draws reset).cur ≡ ceiling (length draws) =
      after-ceiling draws 0 reset reset-ceiling ∙ ap ceiling (omega arith) in
    let wait = next-wait draw (length draws) (after draws reset) level in
    let half = ap (λ x. x / 2) level in
    (omega (arith, wait, half), omega (arith, wait, half, level, h))
