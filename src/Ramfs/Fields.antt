-- ===== src/Ramfs/Fields.antt =====
-- What the initrd readers of ramfs.rs and ai_initrd.rs take from a header: the hexadecimal fields are
-- 32-bit numbers, and the offsets do not wrap.
use mon_os.Base.{
  ℕ, ◌+◌, ◌*◌, ◌/◌, ◌%◌, ◌^◌, ◌≤◌, ◌<◌, ◌≡◌, refl, ap, ◌∙◌, subst, arith, ◌&&◌, Option, none, some,
  List, [], ◌∷◌, ltb, leb, Bool-cases, Option-cases, some-injective, inl, inr, add64, not64, u32,
  ◌<<<◌, bit_and, bit_or,
}
use mon_os.Base.Bits.{bit_and_high, bit_or_fields}
use mon_os.Base.Memory.{Memory, bytes_from}
use mon_os.Ramfs.{
  Header, hex_digit, hex_from, read_hex, align4, named, sized, header, next_off, bytes_eq,
  newc_magic,
}

align4_lem : (x : ℕ) → x < 2 ^ 63 → align4 x ≡ (x + 3) / 4 * 4
unfolding align4
align4_lem x h =
    let plain : add64 x 3 ≡ x + 3 = omega arith in
    ap (λ t. bit_and t (not64 3)) plain ∙ bit_and_high 64 2 (x + 3) (omega arith) (omega arith)

digit_bound : (c d : ℕ) → hex_digit c ≡ some d → d < 16
unfolding hex_digit
digit_bound c d h = ground arith

shift_in : (v d : ℕ) → d < 16 → bit_or (u32 (v <<< 4)) d < 2 ^ 32
shift_in v d h =
    let shifted : u32 (v <<< 4) ≡ (v % 2 ^ 28) * 2 ^ 4 = omega arith in
    rw shifted (omega (arith, bit_or_fields 4 (v % 2 ^ 28) d h))

-- A field of hexadecimal digits is a 32-bit number.
hex_from_bound : (v x : ℕ) (cs : List ℕ) → v < 2 ^ 32 → hex_from v cs ≡ some x → x < 2 ^ 32
unfolding hex_from
hex_from_bound v x [] small h = ground arith
hex_from_bound v x (c ∷ cs) small h = elim (Option-cases (hex_digit c)) [
  | inl e ↦ let h' = rw (hex_from, e) at h in ground arith
  | inr (d, e) ↦
      let h' = rw (hex_from, e) at h in
      hex_from_bound (bit_or (u32 (v <<< 4)) d) x cs (shift_in v d (digit_bound c d e)) h'
]

read_hex_bound : (mem : Memory) (a x : ℕ) → read_hex mem a ≡ some x → x < 2 ^ 32
unfolding read_hex
read_hex_bound mem a x h = hex_from_bound 0 x (bytes_from mem a 8) (omega arith) h

-- The image is far from the end of the address space.
abbrev pub Small : ℕ → Type 0
Small len = len ≤ 2 ^ 60

-- What a header that the readers accept says about its offsets.
pub record Fits (len off : ℕ) (h : Header) : Type 0 where
  pub header_inside : off + 110 ≤ len
  pub data_behind : off + 110 ≤ h.data_off
  pub data_near : h.data_off ≤ len + 3
  pub data_aligned : h.data_off % 4 ≡ 0
  pub size_small : h.filesize < 2 ^ 32

named-Fits :
    (mem : Memory) (base len off namesize filesize : ℕ) (h : Header)
    → Small len
    → off + 110 ≤ len
    → namesize < 2 ^ 32
    → filesize < 2 ^ 32
    → named mem base len off namesize filesize ≡ some h
    → Fits len off h
unfolding named
named-Fits mem base len off namesize filesize h small inside hn hf e =
    elim (Bool-cases (ltb len (add64 (add64 off 110) namesize))) [
      | inl out ↦ let e' = rw (named, out) at e in ground arith
      | inr fits ↦
          let e' = rw (named, fits) at e in
          let near : add64 (add64 off 110) namesize ≤ len = ground arith in
          let plain : add64 (add64 off 110) namesize ≡ off + 110 + namesize = omega arith in
          let aligned = align4_lem (add64 (add64 off 110) namesize) (omega arith) in
          subst (Fits len off) (some-injective e') (record {
            header_inside = inside;
            data_behind = omega (arith, aligned, plain);
            data_near = omega (arith, aligned, near);
            data_aligned = omega (arith, aligned);
            size_small = hf;
          })
    ]

sized-Fits :
    (mem : Memory) (base len off : ℕ) (namesize filesize : Option ℕ) (h : Header)
    → Small len
    → off + 110 ≤ len
    → ((x : ℕ) → namesize ≡ some x → x < 2 ^ 32)
    → ((x : ℕ) → filesize ≡ some x → x < 2 ^ 32)
    → sized mem base len off namesize filesize ≡ some h
    → Fits len off h
unfolding sized
sized-Fits mem base len off none filesize h small inside hn hf e = ground arith
sized-Fits mem base len off (some n) none h small inside hn hf e = ground arith
sized-Fits mem base len off (some n) (some f) h small inside hn hf e =
    named-Fits mem base len off n f h small inside (hn n refl) (hf f refl) e

pub header-Fits :
    (mem : Memory) (base len off : ℕ) (h : Header)
    → Small len
    → off ≤ 2 ^ 62
    → header mem base len off ≡ some h
    → Fits len off h
unfolding header
header-Fits mem base len off h small near e =
    elim (Bool-cases
      (leb (add64 off 110) len && bytes_eq (bytes_from mem (base + off) 6) newc_magic)) [
        | inl fine ↦
            let e' = rw (header, fine) at e in
            sized-Fits mem base len off _ _ h small (ground arith)
              (read_hex_bound mem (base + off + 94)) (read_hex_bound mem (base + off + 54)) e'
        | inr bad ↦ let e' = rw (header, bad) at e in ground arith
      ]

pub next_off_lem :
    (len off : ℕ) (h : Header)
    → Small len
    → Fits len off h
    → (add64 h.data_off h.filesize ≡ h.data_off + h.filesize)
      × (h.data_off + h.filesize ≤ next_off h)
      × (next_off h ≤ h.data_off + h.filesize + 3)
unfolding next_off
next_off_lem len off h small fits =
    let plain : add64 h.data_off h.filesize ≡ h.data_off + h.filesize =
      omega (arith, fits.data_near, fits.size_small) in
    let aligned =
      align4_lem (add64 h.data_off h.filesize)
        (omega (arith, fits.data_near, fits.size_small, plain)) in
    (plain, omega (arith, aligned, plain), omega (arith, aligned, plain))
