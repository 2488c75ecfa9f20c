-- ===== src/Decimal/Tests.antt =====
-- Runs of the decimal printer and reader.
use mon_os.Base.{ℕ, ◌≡◌, refl, arith, none, some, List, [], ◌∷◌}
use mon_os.Decimal.{print_u64, parse_u64, fill, rest_of, parse_from}
use mon_os.Decimal.RoundTrip.{print_u64-parse_u64}

print_u64-four : print_u64 1024 ≡ some (b'1' ∷ b'0' ∷ b'2' ∷ b'4' ∷ [])
unfolding print_u64 fill rest_of
print_u64-four = refl

parse_u64-letter : parse_u64 (b'1' ∷ b'x' ∷ []) ≡ none
unfolding parse_u64 parse_from
parse_u64-letter = refl

print_u64-parse_u64_example :
    (text : List ℕ) × (print_u64 18446744073709551615 ≡ some text)
    × (parse_u64 text ≡ some 18446744073709551615)
print_u64-parse_u64_example = print_u64-parse_u64 18446744073709551615 (omega arith)
