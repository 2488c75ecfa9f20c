-- ===== src/Decimal.antt =====
-- The decimal printer that journal.rs (`w_u64`) and shell.rs (`writeln_num`, `print_num`) share line by
-- line, and the reader `parse_u64` of shell.rs. Characters are their codes.
pub mod RoundTrip
pub mod Tests
use mon_os.Base.{
  ℕ, zero, suc, ◌+◌, ◌-◌, ◌/◌, ◌%◌, ◌||◌, Option, none, some, List, [], ◌∷◌, ◌==◌, ltb,
  if◌then◌else◌, set, drop, replicate, saturating_add, saturating_mul,
}

-- `while x > 0 { i -= 1; buf[i] = b'0' + (x % 10) as u8; x /= 10; }`, by recursion on `i`; at index 0
-- one more round would index out of bounds, which panics (`none`).
unfoldable pub fill : ℕ → ℕ → List ℕ → Option (ℕ × List ℕ)
fill zero x buf = if x == 0 then some (0, buf) else none
fill (suc i) x buf =
    let rest = fill i (x / 10) (set buf i (b'0' + x % 10)) in
    if x == 0 then some (suc i, buf) else rest

abbrev digit_room : ℕ
digit_room = 20

-- `&buf[i..]`
unfoldable pub rest_of : Option (ℕ × List ℕ) → Option (List ℕ)
rest_of none = none
rest_of (some (i, buf)) = some (drop i buf)

-- The bytes that are sent for a number.
unfoldable pub print_u64 : ℕ → Option (List ℕ)
print_u64 n =
    if n == 0 then some (b'0' ∷ []) else rest_of (fill digit_room n (replicate digit_room 0))

-- The loop of `parse_u64`, from the value so far
unfoldable pub parse_from : ℕ → List ℕ → Option ℕ
parse_from v [] = some v
parse_from v (c ∷ rest) =
    let next = parse_from (saturating_add (saturating_mul v 10) (c - b'0')) rest in
    if ltb c b'0' || ltb b'9' c then none else next

unfoldable pub parse_u64 : List ℕ → Option ℕ
unfolding parse_from
parse_u64 s = parse_from 0 s
