-- ===== src/Ramfs/Lookup.antt =====
-- The lookup of ai_initrd.rs against the reader of ramfs.rs.
use mon_os.Base.{
  ℕ, zero, suc, ◌+◌, ◌^◌, ◌≤◌, ◌<◌, ◌≡◌, refl, ap, ◌∙◌, subst, arith, true, false, ◌&&◌, ◌||◌,
  Option, none, some, List, [], ◌∷◌, ◌==◌, ltb, leb, if◌then◌else◌, Bool-cases, Option-cases,
  some-injective, inl, inr, add64,
}
use mon_os.Base.Memory.{Memory, bytes_from}
use mon_os.Ramfs.{
  Entry, Header, header, next_off, visit, cons_some, walk, for_each, trailer, bytes_eq, newc_magic,
  matches, Found, look, cpio_loop, cpio_find,
}
use mon_os.Ramfs.Fields.{Small, Fits, header-Fits, next_off_lem}
use mon_os.Ramfs.Rounds.{visit-Inside, walk-Walked}

-- The data of the first entry that is called `want` or `./want`
unfoldable pub first_match : List ℕ → List Entry → Option ℕ
first_match want [] = none
first_match want (e ∷ es) = if matches want e.name then some e.data_ptr else first_match want es

-- Where `for_each` breaks, `cpio_find` gives up, at once or when the next round sees the end.
data GivesUp (len : ℕ) : Found → Type 0 where
  at_once : GivesUp len Found.missing
  later : (next : ℕ) → len < next → next ≤ 2 ^ 61 → GivesUp len (Found.go next)

look_stops :
    (base len off : ℕ) (want : List ℕ) (h : Header)
    → Small len
    → Fits len off h
    → visit base len (some h) ≡ none
    → GivesUp len (look base len want (some h))
unfolding look visit
look_stops base len off want h small fits e =
    let moved = next_off_lem len off h small fits in
    elim (Bool-cases (bytes_eq h.fname trailer)) [
      | inl last ↦ rw last GivesUp.at_once
      | inr entry ↦
          let over : ltb len (add64 h.data_off h.filesize) ≡ true = ground arith in
          elim (Bool-cases (matches want h.fname)) [
            | inl found ↦
                let out : leb (add64 h.data_off h.filesize) len ≡ false = ground arith in
                rw (entry, found, out) GivesUp.at_once
            | inr other ↦
                rw (entry, other)
                  (GivesUp.later (next_off h) (ground (arith, moved.0, moved.1))
                    (omega (arith, moved.2, fits.data_near, fits.size_small)))
          ]
    ]

look_goes :
    (base len : ℕ) (want : List ℕ) (h : Header) (e : Entry) (next : ℕ)
    → visit base len (some h) ≡ some (e, next)
    → look base len want (some h)
      ≡ (if matches want e.name then Found.at e.data_ptr else Found.go next)
unfolding look visit
look_goes base len want h e next h_e =
    elim (Bool-cases (bytes_eq h.fname trailer || ltb len (add64 h.data_off h.filesize))) [
      | inl stop ↦ let bad = rw (visit, stop) at h_e in ground arith
      | inr more ↦
          let same = some-injective (rw (visit, more) at h_e) in
          let entry : bytes_eq h.fname trailer ≡ false = ground arith in
          let inside : leb (add64 h.data_off h.filesize) len ≡ true = ground arith in
          rw (entry, inside)
            (ap
              (λ (p : Entry × ℕ).
                if matches want p.0.name then Found.at p.0.data_ptr else Found.go p.1)
              same)
    ]

header_past :
    (mem : Memory) (base len off : ℕ) → len < off → off ≤ 2 ^ 61 → header mem base len off ≡ none
unfolding header
header_past mem base len off past near =
    let shut : (leb (add64 off 110) len && bytes_eq (bytes_from mem (base + off) 6) newc_magic)
        ≡ false =
      ground arith in
    rw shut refl

loop-GivesUp :
    (n : ℕ) (mem : Memory) (base len off : ℕ) (want : List ℕ) (f : Found)
    → look base len want (header mem base len off) ≡ f
    → GivesUp len f
    → cpio_loop (suc (suc n)) mem base len want off ≡ some none
unfolding cpio_loop look
loop-GivesUp n mem base len off want _ e GivesUp.at_once = rw (cpio_loop, e) refl
loop-GivesUp n mem base len off want _ e (GivesUp.later next past near) =
    rw (cpio_loop, e, header_past mem base len next past near) refl

stops :
    (n : ℕ) (mem : Memory) (base len off : ℕ) (want : List ℕ)
    → Small len
    → off ≤ 2 ^ 62
    → visit base len (header mem base len off) ≡ none
    → cpio_loop (suc (suc n)) mem base len want off ≡ some none
unfolding look
stops n mem base len off want small near stop = elim (Option-cases (header mem base len off)) [
  | inl none_e ↦ loop-GivesUp n mem base len off want Found.missing (rw none_e refl) GivesUp.at_once
  | inr (h, some_e) ↦
      loop-GivesUp n mem base len off want (look base len want (some h))
        (ap (look base len want) some_e)
        (look_stops base len off want h small (header-Fits mem base len off h small near some_e)
          (rw some_e at stop))
]

goes :
    (mem : Memory) (base len off : ℕ) (want : List ℕ) (e : Entry) (next : ℕ)
    → visit base len (header mem base len off) ≡ some (e, next)
    → look base len want (header mem base len off)
      ≡ (if matches want e.name then Found.at e.data_ptr else Found.go next)
unfolding visit
goes mem base len off want e next go = elim (Option-cases (header mem base len off)) [
  | inl none_e ↦ let bad = rw none_e at go in ground arith
  | inr (h, some_e) ↦ rw some_e (look_goes base len want h e next (rw some_e at go))
]

cpio_loop_lem :
    (n : ℕ) (mem : Memory) (base len off : ℕ) (want : List ℕ) (es : List Entry)
    → Small len
    → off ≤ len + 3
    → walk n mem base len off ≡ some es
    → cpio_loop (suc n) mem base len want off ≡ some (first_match want es)
unfolding walk cpio_loop first_match cons_some
cpio_loop_lem zero mem base len off want es small near h = ground arith
cpio_loop_lem (suc n) mem base len off want es small near h =
    elim (Option-cases (visit base len (header mem base len off))) [
      | inl stop ↦
          let empty : [] ≡ es = some-injective (rw (walk, stop) at h) in
          stops n mem base len off want small (omega arith) stop
          ∙ ap (λ l. some (first_match want l)) empty
      | inr ((e, next), go) ↦
          let in_e = visit-Inside mem base len off e next small (omega arith) go in
          elim (Option-cases (walk n mem base len next)) [
            | inl ran_out ↦ let bad = rw (walk, go, ran_out) at h in ground arith
            | inr (rest, walked) ↦
                let all : e ∷ rest ≡ es = some-injective (rw (walk, go, walked) at h) in
                let later =
                  cpio_loop_lem n mem base len next want rest small in_e.next_near walked in
                let looked = goes mem base len off want e next go in
                elim (Bool-cases (matches want e.name)) [
                  | inl found ↦
                      subst
                        (λ l.
                          cpio_loop (suc (suc n)) mem base len want off ≡ some (first_match want l))
                        all (rw (cpio_loop, looked, found) refl)
                  | inr other ↦
                      subst
                        (λ l.
                          cpio_loop (suc (suc n)) mem base len want off ≡ some (first_match want l))
                        all (rw (cpio_loop, looked, other) later)
                ]
          ]
    ]

-- On any image of at most 2^60 bytes, `cpio_find` ends, and returns the data of the first of the entries
-- of `for_each` whose name is the one asked for, plain or behind `./`.
pub cpio_find_lem :
    (mem : Memory) (base len : ℕ) (want : List ℕ)
    → Small len
    → (entries : List Entry) × (for_each mem base len ≡ some entries)
      × (cpio_find mem base len want ≡ some (first_match want entries))
unfolding cpio_find for_each first_match
cpio_find_lem mem base len want small = elim (Bool-cases ((base == 0) || ltb len 110)) [
  | inl empty ↦ ([], rw empty refl, rw empty refl)
  | inr image ↦
      let run =
        walk-Walked (suc len) mem base len 0 small (omega arith) (omega arith) (omega arith) in
      (
        run.entries,
        rw (image, run.returns) refl,
        rw image (
            cpio_loop_lem (suc len) mem base len 0 want run.entries small (omega arith)
              run.returns),
      )
]
