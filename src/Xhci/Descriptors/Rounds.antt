-- ===== src/Xhci/Descriptors/Rounds.antt =====
-- The rounds of parse_hid_keyboard_endpoint on any bytes: none reads past the end, and each that does
-- not return moves on.
use mon_os.Base.{
  ℕ, zero, suc, ◌+◌, ◌≤◌, ◌<◌, ◌≡◌, refl, arith, Bool, false, ◌&&◌, ◌||◌, Option, none, some, List,
  [], ◌∷◌, ◌==◌, ltb, leb, length, Bool-cases, inl, inr,
}
use mon_os.Xhci.Descriptors.{
  Found, at, is_keyboard, on_interface, endpoint_of, on_endpoint, on_descriptor, Parsed, Round, act,
  with_type, with_length, round, scan, parse_hid_keyboard_endpoint,
}

at-inside : (bytes : List ℕ) (i : ℕ) → i < length bytes → (x : ℕ) × (at bytes i ≡ some x)
unfolding at
at-inside [] i h = absurd (omega (arith, h))
at-inside (x ∷ bytes) zero h = (x, refl)
at-inside (x ∷ bytes) (suc i) h = at-inside bytes i (omega (arith, h))

-- An array access inside is some value, and what follows it is fine when it is fine for any value.
read_then :
    {A : Type 0} (bytes : List ℕ) (i : ℕ) (next : ℕ → Option A)
    → i < length bytes
    → ((x : ℕ) → (v : A) × (next x ≡ some v))
    → (v : A) × (elim (at bytes i) [ none ↦ none | some x ↦ next x ] ≡ some v)
read_then bytes i next h fine = let x = at-inside bytes i h in let v = fine x.0 in (v.0, rw x.1 v.1)

module _ (bytes : List ℕ) (i k : ℕ) (inside : i + k ≤ length bytes) (b : Bool) where
  on_interface-inside : (v : Found) × (on_interface bytes i k b ≡ some v)
  unfolding on_interface
  on_interface-inside = elim (Bool-cases (leb 9 k)) [
    | inl long ↦
        let size : 9 ≤ k = ground (arith, long) in
        rw long (
          read_then bytes (i + 5) _ (omega (arith, inside, size)) (λ class.
            read_then bytes (i + 6) _ (omega (arith, inside, size)) (λ subclass.
              read_then bytes (i + 7) _ (omega (arith, inside, size))
                (λ proto. (Found.go (is_keyboard class subclass proto), refl)))))
    | inr short ↦ (Found.go b, rw short refl)
  ]

  on_endpoint-inside : (v : Found) × (on_endpoint bytes i k b ≡ some v)
  unfolding on_endpoint
  on_endpoint-inside = elim (Bool-cases (b && leb 7 k)) [
    | inl long ↦
        let size : 7 ≤ k = ground (arith, long) in
        rw long (
          read_then bytes (i + 2) _ (omega (arith, inside, size)) (λ addr.
            read_then bytes (i + 3) _ (omega (arith, inside, size)) (λ attrs.
              read_then bytes (i + 4) _ (omega (arith, inside, size)) (λ low.
                read_then bytes (i + 5) _ (omega (arith, inside, size)) (λ high.
                  read_then bytes (i + 6) _ (omega (arith, inside, size))
                    (λ interval. (endpoint_of addr attrs low high interval, refl)))))))
    | inr short ↦ (Found.go b, rw short refl)
  ]

  on_descriptor-inside : (dtype : ℕ) → (v : Found) × (on_descriptor bytes i k dtype b ≡ some v)
  unfolding on_descriptor
  on_descriptor-inside dtype = elim (Bool-cases (dtype == 4)) [
    | inl is ↦ rw is on_interface-inside
    | inr not_4 ↦ elim (Bool-cases (dtype == 5)) [
      | inl is ↦ rw (not_4, is) on_endpoint-inside
      | inr not_5 ↦ (Found.go b, rw (not_4, not_5) refl)
    ]
  ]

-- A round at `i` that is fine returns a value, or moves on by one byte at least and not past the end.
unfoldable Fine : ℕ → ℕ → Round → Type 0
Fine size i (Round.ends Parsed.out_of_fuel) = ⊥
Fine size i (Round.ends Parsed.panic) = ⊥
Fine size i (Round.ends (Parsed.returns r)) = Unit {0}
Fine size i (Round.moves k b) = (0 < k) × (i + k ≤ size)

act-Fine : (size i k : ℕ) (v : Found) → 0 < k → i + k ≤ size → Fine size i (act k (some v))
unfolding act Fine
act-Fine size i k (Found.endpoint addr maxp interval) h le = tt
act-Fine size i k (Found.go b) h le = (h, le)

round-Fine : (bytes : List ℕ) (i : ℕ) (b : Bool) → Fine (length bytes) i (round bytes i b)
unfolding round with_length with_type Fine
round-Fine bytes i b = elim (Bool-cases (leb (i + 2) (length bytes))) [
  | inr short ↦ rw short tt
  | inl enough ↦
      let size : i + 2 ≤ length bytes = ground (arith, enough) in
      let k = at-inside bytes i (omega (arith, size)) in
      let t = at-inside bytes (i + 1) (omega (arith, size)) in
      rw (enough, k.1)
        (elim (Bool-cases ((k.0 == 0) || ltb (length bytes) (i + k.0))) [
          | inl bad ↦ rw bad tt
          | inr good ↦
              let pos : 0 < k.0 = ground (arith, good) in
              let inside : i + k.0 ≤ length bytes = ground (arith, good) in
              let v = on_descriptor-inside bytes i k.0 inside b t.0 in
              rw (good, t.1, v.1) (act-Fine (length bytes) i k.0 v.0 pos inside)
        ])
]

-- With a round for each byte that is left, the search returns.
scan-returns :
    (n : ℕ) (bytes : List ℕ) (i : ℕ) (b : Bool)
    → length bytes < n + i
    → i ≤ length bytes
    → (r : Option (ℕ × ℕ × ℕ)) × (scan n bytes i b ≡ Parsed.returns r)
unfolding Fine scan
scan-returns zero bytes i b h le = absurd (omega (arith, h, le))
scan-returns (suc n) bytes i b h le =
    finish (λ k b' pos inside. scan-returns n bytes (i + k) b' (omega (arith, h, pos)) inside)
      (round bytes i b) refl (round-Fine bytes i b)
  where
    finish :
        ((k : ℕ) (b' : Bool)
          → 0 < k
          → i + k ≤ length bytes
          → (r : Option (ℕ × ℕ × ℕ)) × (scan n bytes (i + k) b' ≡ Parsed.returns r))
        → (v : Round) → round bytes i b ≡ v
        → Fine (length bytes) i v
        → (r : Option (ℕ × ℕ × ℕ)) × (scan (suc n) bytes i b ≡ Parsed.returns r)
    finish rest (Round.ends Parsed.out_of_fuel) e fine = absurd fine
    finish rest (Round.ends Parsed.panic) e fine = absurd fine
    finish rest (Round.ends (Parsed.returns r)) e fine = (r, rw (scan, e) refl)
    finish rest (Round.moves k b') e fine = rw (scan, e) (rest k b' fine.0 fine.1)

-- On any bytes the search returns: it ends within the bound of the model, and no index is out of bounds.
pub parse_hid_keyboard_endpoint-returns :
    (bytes : List ℕ)
    → (r : Option (ℕ × ℕ × ℕ)) × (parse_hid_keyboard_endpoint bytes ≡ Parsed.returns r)
unfolding parse_hid_keyboard_endpoint
parse_hid_keyboard_endpoint-returns bytes =
    scan-returns (suc (length bytes)) bytes 0 false (omega arith) (omega arith)
