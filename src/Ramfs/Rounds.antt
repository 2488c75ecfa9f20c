-- ===== src/Ramfs/Rounds.antt =====
-- The rounds of the initrd readers: each stays inside the image and moves on, so the loops end.
use mon_os.Base.{
  ℕ, zero, suc, ◌+◌, ◌-◌, ◌*◌, ◌%◌, ◌^◌, ◌≤◌, ◌<◌, ◌≡◌, refl, subst, arith, ◌||◌, Option, some,
  List, [], ◌∷◌, ◌==◌, ltb, Bool-cases, Option-cases, some-injective, inl, inr, add64,
}
use mon_os.Ramfs.Fields.{Small, Fits, header-Fits, next_off_lem}
use mon_os.Base.Memory.{Memory}
use mon_os.Ramfs.{Entry, Header, header, visit, cons_some, walk, for_each, trailer, bytes_eq}

-- An entry that the callback sees: its data lie in the image, four-byte aligned, behind the 110 bytes
-- of a header at `off`, and the next header is looked for behind them.
pub record Inside (base len off : ℕ) (e : Entry) (next : ℕ) : Type 0 where
  pub from_base : base + off + 110 ≤ e.data_ptr
  pub aligned : (e.data_ptr - base) % 4 ≡ 0
  pub in_image : e.data_ptr + e.size ≤ base + len
  pub next_behind : e.data_ptr + e.size ≤ base + next
  pub next_near : next ≤ len + 3

visited :
    (base len off : ℕ) (hd : Header) (e : Entry) (next : ℕ)
    → Small len
    → Fits len off hd
    → visit base len (some hd) ≡ some (e, next)
    → Inside base len off e next
unfolding visit
visited base len off hd e next small fits h =
    elim (Bool-cases (bytes_eq hd.fname trailer || ltb len (add64 hd.data_off hd.filesize))) [
      | inl stop ↦ let h' = rw (visit, stop) at h in ground arith
      | inr more ↦
          let h' = rw (visit, more) at h in
          let moved = next_off_lem len off hd small fits in
          let inside : hd.data_off + hd.filesize ≤ len = ground (arith, moved.0) in
          subst (λ (p : Entry × ℕ). Inside base len off p.0 p.1) (some-injective h')
            (record {
              from_base = omega (arith, fits.data_behind);
              aligned = omega (arith, fits.data_aligned);
              in_image = omega (arith, inside);
              next_behind = omega (arith, moved.1);
              next_near = omega (arith, moved.2, inside);
            })
    ]

pub visit-Inside :
    (mem : Memory) (base len off : ℕ) (e : Entry) (next : ℕ)
    → Small len
    → off ≤ 2 ^ 62
    → visit base len (header mem base len off) ≡ some (e, next)
    → Inside base len off e next
unfolding visit
visit-Inside mem base len off e next small near h = elim (Option-cases (header mem base len off)) [
  | inl none_e ↦ let h' = rw (visit, none_e) at h in ground arith
  | inr (hd, some_e) ↦
      visited base len off hd e next small (header-Fits mem base len off hd small near some_e)
        (rw some_e at h)
]

-- The entries of one run in order: each inside the image, and behind the one before it.
unfoldable pub InOrder : ℕ → ℕ → ℕ → List Entry → Type 0
InOrder base len low [] = Unit
InOrder base len low (e ∷ es) =
    (low + 110 ≤ e.data_ptr)
    × ((e.data_ptr - base) % 4 ≡ 0)
    × (e.data_ptr + e.size ≤ base + len)
    × InOrder base len (e.data_ptr + e.size) es

InOrder-weaken :
    (base len low low' : ℕ) (es : List Entry)
    → low' ≤ low
    → InOrder base len low es
    → InOrder base len low' es
unfolding InOrder
InOrder-weaken base len low low' [] le h = tt
InOrder-weaken base len low low' (e ∷ es) le h = (omega (arith, h.0), h.1, h.2, h.3)

-- The end of a run from `off` on
pub record Walked (base len off : ℕ) (out : Option (List Entry)) : Type 0 where
  pub entries : List Entry
  pub returns : out ≡ some entries
  pub in_order : InOrder base len (base + off) entries

pub walk-Walked :
    (n : ℕ) (mem : Memory) (base len off : ℕ)
    → Small len
    → off ≤ len + 3
    → len < off + n * 110
    → 0 < n
    → Walked base len off (walk n mem base len off)
unfolding walk cons_some InOrder
walk-Walked zero mem base len off small near enough more = absurd (omega arith)
walk-Walked (suc n) mem base len off small near enough more =
    elim (Option-cases (visit base len (header mem base len off))) [
      | inl stop ↦ record { entries = []; returns = rw (walk, stop) refl; in_order = tt }
      | inr ((e, next), go) ↦
          let in_e = visit-Inside mem base len off e next small (omega arith) go in
          let rest =
            walk-Walked n mem base len next small in_e.next_near
              (omega (arith, in_e.from_base, in_e.next_behind))
              (omega (arith, in_e.from_base, in_e.in_image)) in
          record {
            entries = e ∷ rest.entries;
            returns = rw (walk, go, rest.returns) refl;
            in_order = (
              in_e.from_base,
              in_e.aligned,
              in_e.in_image,
              InOrder-weaken base len (base + next) (e.data_ptr + e.size) rest.entries
                  in_e.next_behind rest.in_order,
            );
          }
    ]

-- On any image of at most 2^60 bytes, whatever it holds, the loop of `for_each` ends, and what it hands
-- to its callback are blocks inside the image, four-byte aligned, in order, and apart by at least a
-- header.
pub for_each-InOrder :
    (mem : Memory) (base len : ℕ)
    → Small len
    → (entries : List Entry) × (for_each mem base len ≡ some entries)
      × InOrder base len base entries
unfolding for_each InOrder
for_each-InOrder mem base len small = elim (Bool-cases ((base == 0) || ltb len 110)) [
  | inl empty ↦ ([], rw empty refl, tt)
  | inr image ↦
      let run =
        walk-Walked (suc len) mem base len 0 small (omega arith) (omega arith) (omega arith) in
      (
        run.entries,
        rw (image, run.returns) refl,
        InOrder-weaken base len (base + 0) base run.entries (omega arith) run.in_order,
      )
]
