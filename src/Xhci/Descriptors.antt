-- ===== src/Xhci/Descriptors.antt =====
-- parse_hid_keyboard_endpoint of xhci.rs: the search for the interrupt endpoint of a boot keyboard in
-- the bytes of a configuration descriptor.
pub mod Layout
pub mod Rounds
use mon_os.Base.{
  ℕ, zero, suc, ◌+◌, Bool, true, false, not, ◌&&◌, ◌||◌, Option, none, some, List, [], ◌∷◌, ◌==◌,
  if◌then◌else◌, ltb, leb, length, drop, get_elem?, get_or, bit_and, bit_or, ◌<<<◌,
}

-- One round: where the search goes on, or what it returns
pub data Found : Type 0 where
  endpoint : ℕ → ℕ → ℕ → Found
  go : Bool → Found

-- `bytes[i + k]`, which panics (`none`) beyond the end
unfoldable pub at : List ℕ → ℕ → Option ℕ
at bytes i = get_elem? bytes i

-- Class, subclass and protocol of a boot keyboard
unfoldable pub is_keyboard : ℕ → ℕ → ℕ → Bool
is_keyboard class subclass proto = (class == 3) && (subclass == 1) && (proto == 1)

unfoldable pub on_interface : List ℕ → ℕ → ℕ → Bool → Option Found
on_interface bytes i b_len in_hid =
    if leb 9 b_len
    then (elim (at bytes (i + 5)) [
      | none ↦ none
      | some class ↦ elim (at bytes (i + 6)) [
        | none ↦ none
        | some subclass ↦ elim (at bytes (i + 7)) [
          | none ↦ none
          | some proto ↦ some (Found.go (is_keyboard class subclass proto))
        ]
      ]
    ])
    else some (Found.go in_hid)

unfoldable pub endpoint_of : ℕ → ℕ → ℕ → ℕ → ℕ → Found
endpoint_of addr attrs low high interval =
    if not (bit_and addr 0x80 == 0) && (bit_and attrs 0x3 == 3)
    then Found.endpoint addr (bit_or low (high <<< 8)) interval
    else Found.go true

unfoldable pub on_endpoint : List ℕ → ℕ → ℕ → Bool → Option Found
on_endpoint bytes i b_len in_hid =
    if in_hid && leb 7 b_len
    then (elim (at bytes (i + 2)) [
      | none ↦ none
      | some addr ↦ elim (at bytes (i + 3)) [
        | none ↦ none
        | some attrs ↦ elim (at bytes (i + 4)) [
          | none ↦ none
          | some low ↦ elim (at bytes (i + 5)) [
            | none ↦ none
            | some high ↦ elim (at bytes (i + 6)) [
              | none ↦ none
              | some interval ↦ some (endpoint_of addr attrs low high interval)
            ]
          ]
        ]
      ]
    ])
    else some (Found.go in_hid)

unfoldable pub on_descriptor : List ℕ → ℕ → ℕ → ℕ → Bool → Option Found
on_descriptor bytes i b_len dtype in_hid =
    if dtype == 4
    then on_interface bytes i b_len in_hid
    else if dtype == 5
    then on_endpoint bytes i b_len in_hid
    else some (Found.go in_hid)

-- What the loop returns: out of the model's bound, a panic, or the result
pub data Parsed : Type 0 where
  out_of_fuel : Parsed
  panic : Parsed
  returns : Option (ℕ × ℕ × ℕ) → Parsed

-- How a round ends: with the result, or with the length of the descriptor and the flag
pub data Round : Type 0 where
  ends : Parsed → Round
  moves : ℕ → Bool → Round

unfoldable pub act : ℕ → Option Found → Round
act b_len none = Round.ends Parsed.panic
act b_len (some (Found.endpoint addr maxp interval)) =
    Round.ends (Parsed.returns (some (addr, maxp, interval)))
act b_len (some (Found.go in_hid)) = Round.moves b_len in_hid

unfoldable pub with_type : List ℕ → ℕ → ℕ → Bool → Option ℕ → Round
with_type bytes i b_len in_hid none = Round.ends Parsed.panic
with_type bytes i b_len in_hid (some dtype) = act b_len (on_descriptor bytes i b_len dtype in_hid)

unfoldable pub with_length : List ℕ → ℕ → Bool → Option ℕ → Round
with_length bytes i in_hid none = Round.ends Parsed.panic
with_length bytes i in_hid (some b_len) =
    if (b_len == 0) || ltb (length bytes) (i + b_len)
    then Round.ends (Parsed.returns none)
    else with_type bytes i b_len in_hid (at bytes (i + 1))

unfoldable pub round : List ℕ → ℕ → Bool → Round
round bytes i in_hid =
    if leb (i + 2) (length bytes)
    then with_length bytes i in_hid (at bytes i)
    else Round.ends (Parsed.returns none)

-- The `while` loop
unfoldable pub scan : ℕ → List ℕ → ℕ → Bool → Parsed
scan zero bytes i in_hid = Parsed.out_of_fuel
scan (suc n) bytes i in_hid = elim (round bytes i in_hid) [
  | ends r ↦ r
  | moves b_len in_hid' ↦ scan n bytes (i + b_len) in_hid'
]

unfoldable pub parse_hid_keyboard_endpoint : List ℕ → Parsed
parse_hid_keyboard_endpoint bytes = scan (suc (length bytes)) bytes 0 false
