-- ===== src/Pmm/Contention.antt =====
-- `alloc_aligned` while other cores allocate: what is granted lies past everything that was taken
-- before the `compare_exchange`, and a sequence of grants never overlaps.
use mon_os.Base.{
  ℕ, ◌+◌, ◌%◌, ◌^◌, ◌≤◌, ◌<◌, max, ◌≡◌, refl, arith, Option, none, some, List, [], ◌∷◌, ◌++◌,
  Option-cases, Bool-cases, ◌==◌, if◌then◌else◌, inl, inr,
}
use mon_os.Pmm.{Pmm, page_size, align_up, plan, alloc_loop, alloc_contended}
use mon_os.Pmm.Align.{align_up-IsRoundedUp}
use mon_os.Pmm.Alloc.{accepts}

-- Other cores only move `NEXT_FREE` forward: each value seen is at or after the one before.
abbrev pub Forward : ℕ → List ℕ → Type 0
Forward low [] = Unit
Forward low (seen ∷ later) = (low ≤ seen) × Forward seen later

abbrev Planned : ℕ → ℕ → ℕ → ℕ → Option (ℕ × ℕ) → Type 0
Planned limit current adj_size align none = Unit
Planned limit current adj_size align (some (a, e)) =
    (a % align ≡ 0) × (current ≤ a) × (e ≡ a + adj_size) × (a + adj_size ≤ limit)

plan-Planned :
    (limit current adj_size k : ℕ)
    → k < 64
    → limit + 2 ^ k ≤ 2 ^ 64
    → Planned limit current adj_size (2 ^ k) (plan limit current adj_size (2 ^ k))
unfolding plan
plan-Planned limit current adj_size k h room = ground (arith, align_up-IsRoundedUp k current h)

-- Whether it grants or not, a call leaves the limit alone and never moves `NEXT_FREE` back.
pub alloc_loop-Forward :
    (others : List ℕ) (p : Pmm) (adj_size k : ℕ)
    → k < 64
    → p.limit + 2 ^ k ≤ 2 ^ 64
    → Forward p.next_free others
    → let p' = (alloc_loop others p adj_size (2 ^ k)).0 in
      (p.next_free ≤ p'.next_free) × (p'.limit ≡ p.limit)
unfolding alloc_loop
alloc_loop-Forward [] p adj_size k h room fw =
    ground (arith, plan-Planned p.limit p.next_free adj_size k h room)
alloc_loop-Forward (seen ∷ later) p adj_size k h room fw = ground (
  arith,
  plan-Planned p.limit p.next_free adj_size k h room,
  alloc_loop-Forward later (record p { next_free = seen }) adj_size k h,
)

-- A call of `alloc_aligned` as a client makes it: the interference, the size, the exponent of the
-- alignment.
pub record Request : Type 0 where
  pub others : List ℕ
  pub size : ℕ
  pub exponent : ℕ

-- What is taken between two values of `NEXT_FREE`: a block that a call is granted, with its start and its
-- length, or what other cores reserve between two of its loads, with both ends
pub data Taken : Type 0 where
  mine : ℕ → ℕ → Taken
  theirs : ℕ → ℕ → Taken

-- What the other cores take during a call: each value of `NEXT_FREE` that is not the one that was loaded.
-- The call ends with a value that is, or with a refusal, and the rest is not reached.
unfoldable pub before : List ℕ → Pmm → ℕ → ℕ → List Taken
before [] p adj_size align = []
before (seen ∷ later) p adj_size align = elim (plan p.limit p.next_free adj_size align) [
  | none ↦ []
  | some (aligned, end) ↦
      if seen == p.next_free
      then []
      else theirs p.next_free seen ∷ before later (record p { next_free = seen }) adj_size align
]

abbrev pub block_of : ℕ → Option ℕ → List Taken → List Taken
block_of len none rest = rest
block_of len (some a) rest = mine a len ∷ rest

-- The length of the block, as `align_up` rounds the size
abbrev pub len_of : Request → ℕ
len_of r = align_up r.size (max page_size (2 ^ r.exponent))

-- All that is taken while a sequence of calls is made, in the order of time.
unfoldable pub serve : Pmm → List Request → List Taken
serve p [] = []
serve p (r ∷ rs) =
    let (p', out) = alloc_contended r.others p r.size (2 ^ r.exponent) in
    before r.others p (len_of r) (2 ^ r.exponent) ++ block_of (len_of r) out (serve p' rs)

-- The interference of each call goes forward from where the call finds `NEXT_FREE`.
abbrev pub AllForward : Pmm → List Request → Type 0
AllForward p [] = Unit
AllForward p (r ∷ rs) =
    Forward p.next_free r.others
    × (r.exponent < 64)
    × (p.limit + 2 ^ r.exponent ≤ 2 ^ 64)
    × AllForward (alloc_contended r.others p r.size (2 ^ r.exponent)).0 rs

-- Everything is taken in order from `low` on, each behind what was taken before, and the blocks of the calls
-- end at `high` or before.
abbrev pub Chained : ℕ → ℕ → List Taken → Type 0
Chained low high [] = Unit
Chained low high (mine start len ∷ rest) =
    (low ≤ start) × (start + len ≤ high) × Chained (start + len) high rest
Chained low high (theirs from to ∷ rest) = (low ≤ from) × (from ≤ to) × Chained to high rest

-- One round that nobody disturbs, and one that refuses
granted-Chained :
    (p : Pmm) (adj_size k : ℕ) (later : List Taken)
    → k < 64
    → p.limit + 2 ^ k ≤ 2 ^ 64
    → Chained (alloc_loop [] p adj_size (2 ^ k)).0.next_free p.limit later
    → Chained p.next_free p.limit (block_of adj_size (alloc_loop [] p adj_size (2 ^ k)).1 later)
unfolding alloc_loop
granted-Chained p adj_size k later h room =
    planned (plan p.limit p.next_free adj_size (2 ^ k))
      (plan-Planned p.limit p.next_free adj_size k h room)
  where
    planned :
        (o : Option (ℕ × ℕ))
        → Planned p.limit p.next_free adj_size (2 ^ k) o
        → let done : Pmm × Option ℕ = elim o [
          | none ↦ (p, none)
          | some (aligned, end) ↦ (record p { next_free = end }, some aligned)
        ] in
          Chained done.0.next_free p.limit later
          → Chained p.next_free p.limit (block_of adj_size done.1 later)
    planned none good rest = rest
    planned (some (a, e)) good rest = (good.1, good.3, rw (← good.2) rest)

-- One call, with what is taken after it
call-Chained :
    (others : List ℕ) (p : Pmm) (adj_size k : ℕ) (later : List Taken)
    → k < 64
    → p.limit + 2 ^ k ≤ 2 ^ 64
    → Forward p.next_free others
    → Chained (alloc_loop others p adj_size (2 ^ k)).0.next_free p.limit later
    → Chained p.next_free p.limit (
        before others p adj_size (2 ^ k)
        ++ block_of adj_size (alloc_loop others p adj_size (2 ^ k)).1 later)
unfolding before alloc_loop
call-Chained [] p adj_size k later h room fw = granted-Chained p adj_size k later h room
call-Chained (seen ∷ more) p adj_size k later h room fw =
    elim (Option-cases (plan p.limit p.next_free adj_size (2 ^ k))) [
      | inl refused ↦ rw (before, alloc_loop, refused) (λ rest. rest)
      | inr (got, planned) ↦ elim (Bool-cases (seen == p.next_free)) [
        | inl undisturbed ↦
            let alone = granted-Chained p adj_size k later h room in
            rw (before, alloc_loop, planned, undisturbed) (rw (alloc_loop, planned) at alone)
        | inr disturbed ↦
            rw (before, alloc_loop, planned, disturbed)
              (λ rest. (
                omega arith,
                fw.0,
                call-Chained more (record p { next_free = seen }) adj_size k later h room fw.1 rest,
              ))
      ]
    ]

contended-Chained :
    (others : List ℕ) (p : Pmm) (size k : ℕ) (later : List Taken)
    → k < 64
    → p.limit + 2 ^ k ≤ 2 ^ 64
    → Forward p.next_free others
    → Chained (alloc_contended others p size (2 ^ k)).0.next_free p.limit later
    → Chained p.next_free p.limit (
        before others p (align_up size (max page_size (2 ^ k))) (2 ^ k)
        ++ block_of
            (align_up size (max page_size (2 ^ k)))
            (alloc_contended others p size (2 ^ k)).1
            later)
contended-Chained others p size k later h room fw =
    rw (accepts others p size k) (call-Chained others p _ k later h room fw)

serve-Chained_from :
    (rs : List Request) (p : Pmm) (limit : ℕ)
    → p.limit ≡ limit
    → AllForward p rs
    → Chained p.next_free limit (serve p rs)
unfolding serve
serve-Chained_from [] p limit e fw = tt
serve-Chained_from (r ∷ rs) p limit e fw =
    let p' = (alloc_contended r.others p r.size (2 ^ r.exponent)).0 in
    let same : p'.limit ≡ p.limit =
      rw accepts (alloc_loop-Forward r.others p _ r.exponent fw.1 fw.2 fw.0).1 in
    let rest : Chained p'.next_free p.limit (serve p' rs) =
      serve-Chained_from rs p' p.limit same fw.3 in
    rw (← e) (contended-Chained r.others p r.size r.exponent (serve p' rs) fw.1 fw.2 fw.0 rest)

-- For alignments `2 ^ k` with k below 64 and a limit that leaves room for one below 2^64, and where other
-- cores only move `NEXT_FREE` forward: the blocks that a sequence of calls is granted and all that the other
-- cores take during the calls lie one after another from the first `NEXT_FREE` on, without overlap, and the
-- blocks end at the limit or before.
pub serve-Chained :
    (rs : List Request) (p : Pmm) → AllForward p rs → Chained p.next_free p.limit (serve p rs)
serve-Chained rs p fw = serve-Chained_from rs p p.limit refl fw
