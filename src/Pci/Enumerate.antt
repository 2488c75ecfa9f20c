-- ===== src/Pci/Enumerate.antt =====
-- The scan of pci.rs finds every function that is there, and no other.
use mon_os.Base.{
  ℕ, zero, suc, ◌+◌, ◌*◌, ◌≤◌, ◌≡◌, refl, sym, ap, ◌∙◌, arith, Bool, true, false, not, ◌&&◌, ◌||◌,
  List, [], ◌∷◌, ◌++◌, ◌==◌, ltb, leb, if◌then◌else◌, Bool-cases, inl, inr, bit_and,
}
use mon_os.Pci.{
  PciAddress, has_function, header_type, functions, visit_device, devices, buses, enumerate,
}

unfoldable pub same : PciAddress → PciAddress → Bool
same a b = (a.bus == b.bus) && (a.device == b.device) && (a.function == b.function)

unfoldable pub listed : PciAddress → List PciAddress → Bool
listed a [] = false
listed a (b ∷ rest) = same a b || listed a rest

listed-append :
    (a : PciAddress) (xs ys : List PciAddress) → listed a (xs ++ ys) ≡ (listed a xs || listed a ys)
unfolding listed
listed-append a [] ys = refl
listed-append a (x ∷ xs) ys = ground (arith, listed-append a xs ys)

same_lem : (a b : PciAddress) → same a b ≡ true → a ≡ b
unfolding same
same_lem a b h =
    let bus : a.bus ≡ b.bus = ground arith in
    let device : a.device ≡ b.device = ground arith in
    let function : a.function ≡ b.function = ground arith in cc

listed_if :
    (a b : PciAddress) (c : Bool) (rest : List PciAddress)
    → listed a (if c then b ∷ rest else rest) ≡ ((c && same a b) || listed a rest)
unfolding listed
listed_if a b true rest = refl
listed_if a b false rest = refl

-- Where the addresses agree, so do the answers of the device.
same_answer :
    (a b : PciAddress) (test : PciAddress → Bool) → (test b && same a b) ≡ (test a && same a b)
same_answer a b test = elim (Bool-cases (same a b)) [
  | inl here ↦ ap (λ x. test x && same a b) (sym (same_lem a b here))
  | inr other ↦ rw other (ground arith)
]

-- The scan of a range of functions
functions_lem :
    (cfg : ℕ → ℕ) (a : PciAddress) (bus device n f : ℕ)
    → listed a (functions cfg bus device n f) ≡ (
        (a.bus == bus)
        && (a.device == device)
        && leb f a.function
        && ltb a.function (f + n)
        && has_function cfg a)
unfolding functions listed same
functions_lem cfg a bus device zero f = ground arith
functions_lem cfg a bus device (suc n) f =
    let b : PciAddress = record { bus = bus; device = device; function = f } in
    let step = listed_if a b (has_function cfg b) (functions cfg bus device n (f + 1)) in
    ground
      (arith, step, same_answer a b (has_function cfg), functions_lem cfg a bus device n (f + 1))

-- The first function of the device of `a`
unfoldable pub root : PciAddress → PciAddress
root a = record a { function = 0 }

-- A function answers, and is the first of its device or one of a device that says that it has several.
unfoldable pub present : (ℕ → ℕ) → PciAddress → Bool
present cfg a =
    has_function cfg (root a)
    && ((a.function == 0) || not (bit_and (header_type cfg (root a)) 0x80 == 0))
    && has_function cfg a

unfoldable several : (ℕ → ℕ) → PciAddress → Bool
several cfg a = not (bit_and (header_type cfg a) 0x80 == 0)

listed_visit :
    (a b : PciAddress) (p m : Bool) (rest : List PciAddress)
    → listed a (if not p then [] else (b ∷ (if m then rest else [])))
      ≡ (p && (same a b || (m && listed a rest)))
unfolding listed
listed_visit a b false m rest = refl
listed_visit a b true false rest = refl
listed_visit a b true true rest = refl

visit_device_lem :
    (cfg : ℕ → ℕ) (a : PciAddress) (bus device : ℕ)
    → listed a (visit_device cfg bus device)
      ≡ ((a.bus == bus) && (a.device == device) && ltb a.function 8 && present cfg a)
unfolding visit_device same root present several
visit_device_lem cfg a bus device =
    let b : PciAddress = record { bus = bus; device = device; function = 0 } in
    ground (
      arith,
      listed_visit a b (has_function cfg b) (several cfg b) (functions cfg bus device 7 1),
      functions_lem cfg a bus device 7 1,
      same_answer a b (has_function cfg),
      same_answer (root a) b (has_function cfg),
      same_answer (root a) b (several cfg),
    )

devices_lem :
    (cfg : ℕ → ℕ) (a : PciAddress) (bus n d : ℕ)
    → listed a (devices cfg bus n d) ≡ (
        (a.bus == bus)
        && leb d a.device
        && ltb a.device (d + n)
        && ltb a.function 8
        && present cfg a)
unfolding devices listed
devices_lem cfg a bus zero d = ground arith
devices_lem cfg a bus (suc n) d = ground (
  arith,
  listed-append a (visit_device cfg bus d) (devices cfg bus n (d + 1)),
  visit_device_lem cfg a bus d,
  devices_lem cfg a bus n (d + 1),
)

buses_lem :
    (cfg : ℕ → ℕ) (a : PciAddress) (n b : ℕ)
    → listed a (buses cfg n b)
      ≡ (leb b a.bus && ltb a.bus (b + n) && ltb a.device 32 && ltb a.function 8 && present cfg a)
unfolding buses listed
buses_lem cfg a zero b = ground arith
buses_lem cfg a (suc n) b = ground (
  arith,
  listed-append a (devices cfg b 32 0) (buses cfg n (b + 1)),
  devices_lem cfg a b 32 0,
  buses_lem cfg a n (b + 1),
)

-- Where a function stands in the order of the scan
abbrev pub place : PciAddress → ℕ
place a = a.bus * 256 + a.device * 8 + a.function

-- The list goes up through the places from `low` on and ends before `high`, so none comes twice.
unfoldable pub Ascends : ℕ → ℕ → List PciAddress → Type 0
Ascends low high [] = low ≤ high
Ascends low high (a ∷ rest) = (low ≤ place a) × Ascends (place a + 1) high rest

Ascends-from :
    (low low' high : ℕ) (xs : List PciAddress)
    → low' ≤ low
    → Ascends low high xs
    → Ascends low' high xs
unfolding Ascends
Ascends-from low low' high [] le up = omega (arith, le, up)
Ascends-from low low' high (a ∷ rest) le up = (omega (arith, le, up.0), up.1)

Ascends-append :
    (low mid high : ℕ) (xs ys : List PciAddress)
    → Ascends low mid xs
    → Ascends mid high ys
    → Ascends low high (xs ++ ys)
unfolding Ascends
Ascends-append low mid high [] ys up next = Ascends-from mid low high ys up next
Ascends-append low mid high (a ∷ xs) ys up next =
    (up.0, Ascends-append (place a + 1) mid high xs ys up.1 next)

functions-Ascends :
    (cfg : ℕ → ℕ) (bus device n f : ℕ)
    → Ascends
        (bus * 256 + device * 8 + f)
        (bus * 256 + device * 8 + (f + n))
        (functions cfg bus device n f)
unfolding functions Ascends
functions-Ascends cfg bus device zero f = omega arith
functions-Ascends cfg bus device (suc n) f =
    let b : PciAddress = record { bus = bus; device = device; function = f } in
    let high : ℕ = bus * 256 + device * 8 + (f + suc n) in
    let e : bus * 256 + device * 8 + (f + 1 + n) ≡ high = omega arith in
    let rest : Ascends (place b + 1) high (functions cfg bus device n (f + 1)) =
      Ascends-from _ _ high (functions cfg bus device n (f + 1)) (omega arith)
        (rw e at (functions-Ascends cfg bus device n (f + 1))) in
    elim (Bool-cases (has_function cfg b)) [
      | inl there ↦ rw there (omega arith, rest)
      | inr absent ↦ rw absent (Ascends-from _ _ high _ (omega arith) rest)
    ]

visit_device-Ascends :
    (cfg : ℕ → ℕ) (bus device : ℕ)
    → Ascends (bus * 256 + device * 8) (bus * 256 + (device + 1) * 8) (visit_device cfg bus device)
unfolding visit_device Ascends
visit_device-Ascends cfg bus device =
    let b : PciAddress = record { bus = bus; device = device; function = 0 } in
    let high : ℕ = bus * 256 + (device + 1) * 8 in
    let e : bus * 256 + device * 8 + (1 + 7) ≡ high = omega arith in
    let more : Ascends (place b + 1) high (functions cfg bus device 7 1) =
      Ascends-from _ _ high (functions cfg bus device 7 1) (omega arith)
        (rw e at (functions-Ascends cfg bus device 7 1)) in
    elim (Bool-cases (has_function cfg b)) [
      | inr absent ↦ rw absent (omega arith)
      | inl there ↦ elim (Bool-cases (bit_and (header_type cfg b) 0x80 == 0)) [
        | inl one ↦ rw (there, one) (omega arith, omega arith)
        | inr many ↦ rw (there, many) (omega arith, more)
      ]
    ]

devices-Ascends :
    (cfg : ℕ → ℕ) (bus n d : ℕ)
    → Ascends (bus * 256 + d * 8) (bus * 256 + (d + n) * 8) (devices cfg bus n d)
unfolding devices Ascends
devices-Ascends cfg bus zero d = omega arith
devices-Ascends cfg bus (suc n) d =
    let e : d + 1 + n ≡ d + suc n = omega arith in
    Ascends-append _ _ _ (visit_device cfg bus d) (devices cfg bus n (d + 1))
      (visit_device-Ascends cfg bus d) (rw e at (devices-Ascends cfg bus n (d + 1)))

buses-Ascends : (cfg : ℕ → ℕ) (n b : ℕ) → Ascends (b * 256) ((b + n) * 256) (buses cfg n b)
unfolding buses Ascends
buses-Ascends cfg zero b = omega arith
buses-Ascends cfg (suc n) b =
    let e : b + 1 + n ≡ b + suc n = omega arith in
    let first : Ascends (b * 256) ((b + 1) * 256) (devices cfg b 32 0) =
      let low : b * 256 + 0 * 8 ≡ b * 256 = omega arith in
      let high : b * 256 + (0 + 32) * 8 ≡ (b + 1) * 256 = omega arith in
      rw (low, high) at (devices-Ascends cfg b 32 0) in
    Ascends-append _ _ _ (devices cfg b 32 0) (buses cfg n (b + 1)) first
      (rw e at (buses-Ascends cfg n (b + 1)))

-- The scan calls back exactly the functions that are present, with a bus below 256, a device below 32 and a
-- function below 8, in the order of bus, device and function and each of them once.
pub enumerate_lem :
    (cfg : ℕ → ℕ)
    → Ascends 0 (256 * 256) (enumerate cfg)
      × ((a : PciAddress)
          → listed a (enumerate cfg)
            ≡ (ltb a.bus 256 && ltb a.device 32 && ltb a.function 8 && present cfg a))
unfolding enumerate
enumerate_lem cfg = (buses-Ascends cfg 256 0, λ a. buses_lem cfg a 256 0 ∙ ground arith)
