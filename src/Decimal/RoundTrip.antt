-- ===== src/Decimal/RoundTrip.antt =====
-- Printing a 64-bit number never runs out of the buffer, and reading it back gives the number.
use mon_os.Base.{
  ℕ, zero, suc, ◌+◌, ◌-◌, ◌*◌, ◌/◌, ◌%◌, ◌^◌, ◌≤◌, ◌<◌, ◌≡◌, refl, sym, ap, arith, ◌||◌, Option,
  some, List, [], ◌∷◌, ◌++◌, ◌==◌, ltb, if◌then◌else◌, set, drop, length, length-set,
  length-replicate, replicate, Bool-cases, inl, inr, append_assoc, append-nil, ◌∙◌, saturating_add,
  saturating_mul, false,
}
use mon_os.Decimal.{fill, rest_of, print_u64, parse_from, parse_u64, digit_room}
use native.Mathlib.Nat.{pow-suc}

-- The decimal digits of `x`, at most `n` of them, the highest first; none for 0.
unfoldable pub digits : ℕ → ℕ → List ℕ
digits zero x = []
digits (suc n) x =
    let high = digits n (x / 10) in if x == 0 then [] else high ++ ((b'0' + x % 10) ∷ [])

drop-set : (buf : List ℕ) (i v : ℕ) → i < length buf → drop i (set buf i v) ≡ v ∷ drop (suc i) buf
drop-set [] i v h = elim h [ ]
drop-set (b ∷ buf) zero v h = refl
drop-set (b ∷ buf) (suc i) v h = drop-set buf i v (omega arith)

-- What the loop leaves from its last index on: the digits, and what stood from the first index on.
record Filled (i x : ℕ) (buf : List ℕ) (out : Option (ℕ × List ℕ)) : Type 0 where
  at : ℕ
  bytes : List ℕ
  returns : out ≡ some (at, bytes)
  text : drop at bytes ≡ digits i x ++ drop i buf

fill-Filled : (i x : ℕ) (buf : List ℕ) → x < 10 ^ i → i ≤ length buf → Filled i x buf (fill i x buf)
unfolding fill digits
fill-Filled zero x buf small room = record {
  at = 0;
  bytes = buf;
  returns = ground arith;
  text = refl;
}
fill-Filled (suc i) x buf small room = elim (Bool-cases (x == 0)) [
  | inl done ↦ record { at = suc i; bytes = buf; returns = rw done; text = rw done }
  | inr more ↦
      let buf' = set buf i (b'0' + x % 10) in
      let rest =
        fill-Filled i (x / 10) buf' (omega (arith, pow-suc 10 i))
          (omega (arith, length-set buf i (b'0' + x % 10))) in
      record {
        at = rest.at;
        bytes = rest.bytes;
        returns = rw more rest.returns;
        text = rw more (
            rest.text
            ∙ ap (λ t. digits i (x / 10) ++ t) (drop-set buf i (b'0' + x % 10) (omega arith))
            ∙ sym (append_assoc (digits i (x / 10)) ((b'0' + x % 10) ∷ []) (drop (suc i) buf)));
      }
]

drop_all : (n : ℕ) (a : ℕ) → drop n (replicate n a) ≡ []
drop_all zero a = refl
drop_all (suc n) a = drop_all n a

saturating_add_small : (a b : ℕ) → a + b < 2 ^ 64 → saturating_add a b ≡ a + b
saturating_add_small a b h = ground arith

saturating_mul_small : (a b : ℕ) → a * b < 2 ^ 64 → saturating_mul a b ≡ a * b
saturating_mul_small a b h = ground arith

digit_value :
    (x : ℕ) → x < 2 ^ 64 → saturating_add (saturating_mul (x / 10) 10) (b'0' + x % 10 - b'0') ≡ x
digit_value x h =
    rw
      (
        saturating_mul_small (x / 10) 10 (omega arith),
        saturating_add_small ((x / 10) * 10) (b'0' + x % 10 - b'0') (omega arith),
      )
      (omega arith)

digit_tests : (x : ℕ) → (ltb (b'0' + x % 10) b'0' || ltb b'9' (b'0' + x % 10)) ≡ false
digit_tests x = ground arith

parse_from-digit :
    (x : ℕ) (rest : List ℕ)
    → x < 2 ^ 64
    → parse_from (x / 10) ((b'0' + x % 10) ∷ rest) ≡ parse_from x rest
unfolding parse_from
parse_from-digit x rest h = rw (digit_tests x, digit_value x h) refl

-- Read from 0, the digits of a number give the number.
parse_from-digits :
    (n x : ℕ) (rest : List ℕ)
    → x < 10 ^ n
    → x < 2 ^ 64
    → parse_from 0 (digits n x ++ rest) ≡ parse_from x rest
unfolding digits
parse_from-digits zero x rest small word = ap (λ v. parse_from v rest) (omega arith)
parse_from-digits (suc n) x rest small word = elim (Bool-cases (x == 0)) [
  | inl done ↦ rw done (ap (λ v. parse_from v rest) (ground arith))
  | inr more ↦ rw more (
      ap (parse_from 0) (append_assoc (digits n (x / 10)) ((b'0' + x % 10) ∷ []) rest)
      ∙ parse_from-digits n (x / 10) ((b'0' + x % 10) ∷ rest) (omega (arith, pow-suc 10 n))
          (omega arith)
      ∙ parse_from-digit x rest word)
]

-- What is printed: `0`, or the digits without leading zeros.
pub print_u64_lem :
    (x : ℕ) → x < 2 ^ 64 → print_u64 x ≡ some (if x == 0 then b'0' ∷ [] else digits digit_room x)
unfolding print_u64 rest_of
print_u64_lem x word = elim (Bool-cases (x == 0)) [
  | inl done ↦ rw done refl
  | inr more ↦
      let filled =
        fill-Filled digit_room x (replicate digit_room 0) (omega arith)
          (omega (arith, length-replicate digit_room zero)) in
      rw (more, filled.returns)
        (ap some (
          filled.text
          ∙ ap (λ t. digits digit_room x ++ t) (drop_all digit_room 0)
          ∙ append-nil (digits digit_room x)))
]

-- For each 64-bit number the printer stays inside its buffer of 20 bytes, and `parse_u64` reads the
-- number back from what it prints.
pub print_u64-parse_u64 :
    (x : ℕ) → x < 2 ^ 64 → (text : List ℕ) × (print_u64 x ≡ some text) × (parse_u64 text ≡ some x)
unfolding parse_u64
print_u64-parse_u64 x word = (
  if x == 0 then b'0' ∷ [] else digits digit_room x,
  print_u64_lem x word,
  elim (Bool-cases (x == 0)) [
    | inl done ↦ rw done (ap some (ground arith))
    | inr more ↦ rw more (
        ap (parse_from 0) (sym (append-nil (digits digit_room x)))
        ∙ parse_from-digits digit_room x [] (omega arith) word)
  ],
)
