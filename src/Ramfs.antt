-- ===== src/Ramfs.antt =====
-- kernel/src/ramfs.rs and the lookup of kernel/src/ai_initrd.rs: two readers of the initrd image, a
-- cpio archive in the newc format that starts at the address `base` and has `len` bytes. Offsets are
-- `usize` and wrap; pointers are addresses. The `while` loops run on fuel, and `none` says that it ran
-- out.
pub mod Fields
pub mod Rounds
pub mod Lookup
pub mod ModelFile
pub mod Tests
use mon_os.Base.{
  ℕ, zero, suc, ◌+◌, ◌-◌, ◌%◌, ◌^◌, Bool, true, false, not, ◌&&◌, ◌||◌, Option, none, some, List,
  [], ◌∷◌, ◌==◌, ltb, leb, if◌then◌else◌, length, take, drop, get_elem?, add64, not64, u32, ◌<<<◌,
  bit_and, bit_or,
}
use mon_os.Base.Memory.{Memory, bytes_from}

-- What the callback of `for_each` is given.
pub record Entry : Type 0 where
  pub name : List ℕ
  pub data_ptr : ℕ
  pub size : ℕ

unfoldable pub bytes_eq : List ℕ → List ℕ → Bool
bytes_eq [] [] = true
bytes_eq [] (d ∷ ds) = false
bytes_eq (c ∷ cs) [] = false
bytes_eq (c ∷ cs) (d ∷ ds) = (c == d) && bytes_eq cs ds

-- The `match` on a character of a hexadecimal field
unfoldable pub hex_digit : ℕ → Option ℕ
hex_digit c =
    if leb b'0' c && leb c b'9'
    then some (c - b'0')
    else if leb b'a' c && leb c b'f'
    then some (10 + (c - b'a'))
    else if leb b'A' c && leb c b'F'
    then some (10 + (c - b'A'))
    else none

-- The loop `v = (v << 4) | d` on 32 bits
unfoldable pub hex_from : ℕ → List ℕ → Option ℕ
hex_from v [] = some v
hex_from v (c ∷ cs) = elim (hex_digit c) [
  | none ↦ none
  | some d ↦ hex_from (bit_or (u32 (v <<< 4)) d) cs
]

-- The closure `read_hex` at the absolute address of the field
unfoldable pub read_hex : Memory → ℕ → Option ℕ
read_hex mem a = hex_from 0 (bytes_from mem a 8)

-- `(x + 3) & !3`
unfoldable pub align4 : ℕ → ℕ
align4 x = bit_and (add64 x 3) (not64 3)

abbrev pub newc_magic : List ℕ
newc_magic = b'0' ∷ b'7' ∷ b'0' ∷ b'7' ∷ b'0' ∷ b'1' ∷ []

abbrev pub trailer : List ℕ
trailer = b'T' ∷ b'R' ∷ b'A' ∷ b'I' ∷ b'L' ∷ b'E' ∷ b'R' ∷ b'!' ∷ b'!' ∷ b'!' ∷ []

-- What one round reads of a header: the name without its NUL, where the data begin, and their size.
pub record Header : Type 0 where
  pub fname : List ℕ
  pub data_off : ℕ
  pub filesize : ℕ

-- The name, once the two sizes are read
unfoldable pub named : Memory → ℕ → ℕ → ℕ → ℕ → ℕ → Option Header
named mem base len off namesize filesize =
    let name_off = add64 off 110 in
    let name_bytes = bytes_from mem (base + name_off) namesize in
    if ltb len (add64 name_off namesize)
    then none
    else some (record {
      fname = if ltb 0 namesize then take (namesize - 1) name_bytes else name_bytes;
      data_off = align4 (add64 name_off namesize);
      filesize = filesize;
    })

unfoldable pub sized : Memory → ℕ → ℕ → ℕ → Option ℕ → Option ℕ → Option Header
sized mem base len off none filesize = none
sized mem base len off (some namesize) none = none
sized mem base len off (some namesize) (some filesize) = named mem base len off namesize filesize

-- The part of a round that both readers share: the loop's condition, the magic, the sizes, the name.
unfoldable pub header : Memory → ℕ → ℕ → ℕ → Option Header
header mem base len off =
    if leb (add64 off 110) len && bytes_eq (bytes_from mem (base + off) 6) newc_magic
    then sized mem base len off (read_hex mem (base + off + 94)) (read_hex mem (base + off + 54))
    else none

-- The end of the data, and where the next header is looked for
unfoldable pub next_off : Header → ℕ
next_off h = align4 (add64 h.data_off h.filesize)

-- The rest of a round of `for_each`: what `f` is called with, and the next offset; `none` is `break`.
unfoldable pub visit : ℕ → ℕ → Option Header → Option (Entry × ℕ)
visit base len none = none
visit base len (some h) =
    if bytes_eq h.fname trailer || ltb len (add64 h.data_off h.filesize)
    then none
    else some
        (record { name = h.fname; data_ptr = base + h.data_off; size = h.filesize }, next_off h)

unfoldable pub cons_some : Entry → Option (List Entry) → Option (List Entry)
cons_some e none = none
cons_some e (some es) = some (e ∷ es)

-- The `while` loop of `for_each`: the entries that the callback sees, in order.
unfoldable pub walk : ℕ → Memory → ℕ → ℕ → ℕ → Option (List Entry)
walk zero mem base len off = none
walk (suc n) mem base len off = elim (visit base len (header mem base len off)) [
  | none ↦ some []
  | some (e, next) ↦ cons_some e (walk n mem base len next)
]

unfoldable pub for_each : Memory → ℕ → ℕ → Option (List Entry)
for_each mem base len =
    if (base == 0) || ltb len 110 then some [] else walk (suc len) mem base len 0

-- The callback of `find`, run over the entries from its `out`
unfoldable pub find_in : List ℕ → Option (ℕ × ℕ) → List Entry → Option (ℕ × ℕ)
find_in want out [] = out
find_in want (some found) (e ∷ es) = find_in want (some found) es
find_in want none (e ∷ es) =
    find_in want (if bytes_eq e.name want then some (e.data_ptr, e.size) else none) es

unfoldable pub find_from : List ℕ → Option (List Entry) → Option (Option (ℕ × ℕ))
find_from want none = none
find_from want (some es) = some (find_in want none es)

unfoldable pub find : Memory → ℕ → ℕ → List ℕ → Option (Option (ℕ × ℕ))
find mem base len path = find_from path (for_each mem base len)

-- `is_exact || is_dot_slash` of `cpio_find`
unfoldable dot_slash : List ℕ → List ℕ → Bool
dot_slash want (c ∷ d ∷ rest) =
    (length rest == length want) && (c == b'.') && (d == b'/') && bytes_eq rest want
dot_slash want (c ∷ []) = false
dot_slash want [] = false

unfoldable matches : List ℕ → List ℕ → Bool
matches want fname = bytes_eq fname want || dot_slash want fname

-- How a round of `cpio_find` ends
data Found : Type 0 where
  missing : Found
  at : ℕ → Found
  go : ℕ → Found

unfoldable look : ℕ → ℕ → List ℕ → Option Header → Found
look base len want none = Found.missing
look base len want (some h) =
    if bytes_eq h.fname trailer
    then Found.missing
    else if matches want h.fname
    then (if leb (add64 h.data_off h.filesize) len
        then Found.at (base + h.data_off)
        else Found.missing)
    else Found.go (next_off h)

unfoldable cpio_loop : ℕ → Memory → ℕ → ℕ → List ℕ → ℕ → Option (Option ℕ)
cpio_loop zero mem base len want off = none
cpio_loop (suc n) mem base len want off = elim (look base len want (header mem base len off)) [
  | missing ↦ some none
  | at p ↦ some (some p)
  | go next ↦ cpio_loop n mem base len want next
]

unfoldable cpio_find : Memory → ℕ → ℕ → List ℕ → Option (Option ℕ)
cpio_find mem base len name =
    if (base == 0) || ltb len 110 then some none else cpio_loop (suc (suc len)) mem base len name 0
