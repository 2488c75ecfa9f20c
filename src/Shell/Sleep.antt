-- ===== src/Shell/Sleep.antt =====
-- sleep_ms of kernel/src/shell.rs. `ticks n` is what the n-th reading of the tick counter gives; between two
-- readings the processor halts until an interrupt.
use mon_os.Base.{
  ℕ, zero, suc, ◌+◌, ◌≤◌, ◌<◌, ◌≡◌, refl, arith, true, false, Option, none, some, ltb,
  saturating_add, Bool-cases, inl, inr, ltb→lt, ap, ◌==◌,
}

-- The `while` loop from the reading `n` on: the reading at which it ends; `none` where the fuel runs out
unfoldable pub sleep_rounds : ℕ → (ℕ → ℕ) → ℕ → ℕ → Option ℕ
sleep_rounds zero ticks target n = none
sleep_rounds (suc fuel) ticks target n = elim (ltb (ticks n) target) [
  | true ↦ sleep_rounds fuel ticks target (n + 1)
  | false ↦ some n
]

unfoldable pub sleep_ms : ℕ → (ℕ → ℕ) → ℕ → Option ℕ
sleep_ms fuel ticks ms = sleep_rounds fuel ticks (saturating_add (ticks 0) ms) 1

-- The loop has ended at the first reading that has reached the target.
pub record Woken (ticks : ℕ → ℕ) (target first last : ℕ) (result : Option ℕ) : Type 0 where
  pub reading : ℕ
  pub returns : result ≡ some reading
  pub from : first ≤ reading
  pub by : reading ≤ last
  pub reached : target ≤ ticks reading
  pub before : (n : ℕ) → first ≤ n → n < reading → ticks n < target

not_last :
    (ticks : ℕ → ℕ) (target n last : ℕ)
    → n ≤ last
    → ticks n < target
    → target ≤ ticks last
    → n + 1 ≤ last
not_last ticks target n last le early late = elim (Bool-cases (n == last)) [
  | inr other ↦ ground (arith, other)
  | inl same ↦
      let e : n ≡ last = ground (arith, same) in absurd (omega (arith, early, late, ap ticks e))
]

before_next :
    (ticks : ℕ → ℕ) (target n i reading : ℕ)
    → ticks n < target
    → n ≤ i
    → (n + 1 ≤ i → ticks i < target)
    → ticks i < target
before_next ticks target n i reading early le later = elim (Bool-cases (n == i)) [
  | inr other ↦ later (ground (arith, other))
  | inl same ↦ let e : n ≡ i = ground (arith, same) in omega (arith, early, ap ticks e)
]

sleep_rounds-Woken :
    (fuel : ℕ) (ticks : ℕ → ℕ) (target n last : ℕ)
    → n ≤ last
    → last < n + fuel
    → target ≤ ticks last
    → Woken ticks target n last (sleep_rounds fuel ticks target n)
unfolding sleep_rounds
sleep_rounds-Woken zero ticks target n last le lt late = absurd (omega (arith, le, lt))
sleep_rounds-Woken (suc fuel) ticks target n last le lt late =
    elim (Bool-cases (ltb (ticks n) target)) [
      | inr reached ↦
          rw (sleep_rounds, reached)
            (record {
              reading = n;
              returns = refl;
              from = omega arith;
              by = le;
              reached = ground (arith, reached);
              before = λ i h k. absurd (omega (arith, h, k));
            })
      | inl early ↦
          let later : n + 1 ≤ last = not_last ticks target n last le (ltb→lt _ _ early) late in
          let rest =
            sleep_rounds-Woken fuel ticks target (n + 1) last later (omega (arith, lt)) late in
          rw (sleep_rounds, early)
            (record {
              reading = rest.reading;
              returns = rest.returns;
              from = omega (arith, rest.from);
              by = rest.by;
              reached = rest.reached;
              before = λ i h k.
                  before_next ticks target n i rest.reading (ltb→lt _ _ early) h
                    (λ next. rest.before i next k);
            })
    ]

-- Where some reading after the first has reached the time asked for (the sum saturates), sleep_ms returns, at
-- the first such reading, given as many rounds.
pub sleep_ms-Woken :
    (ticks : ℕ → ℕ) (ms last : ℕ)
    → 1 ≤ last
    → saturating_add (ticks 0) ms ≤ ticks last
    → Woken ticks (saturating_add (ticks 0) ms) 1 last (sleep_ms last ticks ms)
unfolding sleep_ms
sleep_ms-Woken ticks ms last h late = sleep_rounds-Woken last ticks _ 1 last h (omega arith) late
