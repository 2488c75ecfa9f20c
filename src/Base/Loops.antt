-- ===== src/Base/Loops.antt =====
-- Counted loops, `for i in lo..hi`, by recursion on the rounds that are left, and their invariant
-- rule. `update` is a write to one cell of a memory.
use Prim.Native.Nat.{ℕ, zero, suc, ◌+◌, ◌≤◌, ◌<◌}
use mathlib.Core.Path.{◌≡◌, subst, ap, ◌∙◌}
use native.Mathlib.Omega.{arith}
use mon_os.Base.Tests.{◌==◌, if◌then◌else◌}

abbrev pub update : (ℕ → ℕ) → ℕ → ℕ → ℕ → ℕ
update f a v b = if a == b then v else f b

-- `n` rounds, the first at index `i`
unfoldable pub rounds {ℓ} : {S : Type ℓ} → ℕ → ℕ → (ℕ → S → S) → S → S
rounds zero i body s = s
rounds (suc n) i body s = rounds n (i + 1) body (body i s)

module _ {ℓ κ} {S : Type ℓ} (P : ℕ → S → Type κ) (body : ℕ → S → S) where
  -- An invariant that holds at the start index and is kept by each round holds at the end index.
  pub rounds_inv :
      (n i j : ℕ) (s : S)
      → i + n ≡ j
      → ((k : ℕ) (t : S) → i ≤ k → k < j → P k t → P (k + 1) (body k t))
      → P i s
      → P j (rounds n i body s)
  unfolding rounds
  rounds_inv zero i j s e keep h = subst (λ k. P k s) (omega arith) h
  rounds_inv (suc n) i j s e keep h =
      rounds_inv n (i + 1) j (body i s) (omega arith) (λ k t lo hi. keep k t (omega arith) hi)
        (keep i s (omega arith) (omega arith) h)

-- The last of the rounds, taken off at the end.
pub rounds_last {ℓ} :
    {S : Type ℓ} (body : ℕ → S → S) (n i : ℕ) (s : S)
    → rounds (suc n) i body s ≡ body (i + n) (rounds n i body s)
unfolding rounds
rounds_last body zero i s = ap (λ k. body k s) (omega arith)
rounds_last body (suc n) i s =
    rounds_last body n (i + 1) (body i s) ∙ ap (λ k. body k (rounds (suc n) i body s)) (omega arith)
