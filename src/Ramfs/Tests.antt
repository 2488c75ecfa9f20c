-- ===== src/Ramfs/Tests.antt =====
-- An archive of one file `./a` with two bytes, at the address 0x1000.
use mon_os.Base.{ℕ, ◌-◌, ◌≡◌, refl, arith, none, some, List, [], ◌∷◌, ◌++◌, replicate, get_or}
use mon_os.Base.Memory.{Memory, read_le, byte_at}
use mon_os.Model.{read_unaligned, header_at, valid}
use mon_os.Ramfs.{
  Entry, for_each, find, find_from, find_in, cpio_find, cpio_loop, look, matches, dot_slash, walk,
  visit, cons_some, header, sized, named, read_hex, hex_from, hex_digit, align4, next_off, bytes_eq,
  newc_magic, trailer,
}
use mon_os.Ramfs.ModelFile.{
  AiLink, Placed, model_name, set_found, set_model, try_set_model_from_initrd,
  try_set_model_from_initrd-Placed,
}
use mon_os.Ramfs.Rounds.{InOrder, for_each-InOrder}
use mon_os.Ramfs.Lookup.{first_match, cpio_find_lem}

abbrev header_bytes : List ℕ → List ℕ → List ℕ
header_bytes namesize filesize =
    newc_magic
    ++ (replicate 48 b'0' ++ (filesize ++ (replicate 32 b'0' ++ (namesize ++ replicate 8 b'0'))))

abbrev hex_2 : List ℕ
hex_2 = replicate 7 b'0' ++ (b'2' ∷ [])

abbrev hex_4 : List ℕ
hex_4 = replicate 7 b'0' ++ (b'4' ∷ [])

abbrev hex_b : List ℕ
hex_b = replicate 7 b'0' ++ (b'b' ∷ [])

abbrev image_bytes : List ℕ
image_bytes =
    header_bytes hex_4 hex_2
    ++ ((b'.' ∷ b'/' ∷ b'a' ∷ 0 ∷ 0 ∷ 0 ∷ b'h' ∷ b'i' ∷ 0 ∷ 0 ∷ [])
        ++ (header_bytes hex_b (replicate 8 b'0') ++ (trailer ++ (0 ∷ []))))

abbrev image : Memory
image a = get_or image_bytes (a - 0x1000) 0

abbrev file_a : Entry
file_a = record { name = b'.' ∷ b'/' ∷ b'a' ∷ []; data_ptr = 0x1074; size = 2 }

for_each-image : for_each image 0x1000 241 ≡ some (file_a ∷ [])
unfolding for_each walk visit cons_some header sized named read_hex hex_from hex_digit align4
    next_off bytes_eq
for_each-image = refl

cpio_find-image : cpio_find image 0x1000 241 (b'a' ∷ []) ≡ some (some 0x1074)
unfolding cpio_find cpio_loop look matches dot_slash header sized named read_hex hex_from hex_digit
    align4 next_off bytes_eq
cpio_find-image = refl

find-image : find image 0x1000 241 (b'a' ∷ []) ≡ some none
unfolding find find_from find_in for_each walk visit cons_some header sized named read_hex hex_from
    hex_digit align4 next_off bytes_eq
find-image = refl

for_each-InOrder_example :
    (entries : List Entry) × (for_each image 0x1000 241 ≡ some entries)
    × InOrder 0x1000 241 0x1000 entries
for_each-InOrder_example = for_each-InOrder image 0x1000 241 (omega arith)

cpio_find_lem_example :
    (entries : List Entry) × (for_each image 0x1000 241 ≡ some entries)
    × (cpio_find image 0x1000 241 (b'a' ∷ []) ≡ some (first_match (b'a' ∷ []) entries))
cpio_find_lem_example = cpio_find_lem image 0x1000 241 (b'a' ∷ []) (omega arith)

abbrev hex_7 : List ℕ
hex_7 = replicate 7 b'0' ++ (b'7' ∷ [])

abbrev hex_10 : List ℕ
hex_10 = replicate 6 b'0' ++ (b'1' ∷ b'0' ∷ [])

-- An archive of one file `ai.mod` with the 16 bytes of a model header, of one layer and hidden size 2
abbrev model_bytes : List ℕ
model_bytes =
    header_bytes hex_7 hex_10
    ++ (model_name
        ++ ((0 ∷ 0 ∷ 0 ∷ 0 ∷ [])
            ++ ((b'A' ∷ b'I' ∷ b'M' ∷ b'D' ∷ 1 ∷ 0 ∷ 2 ∷ 0 ∷ 0 ∷ 0 ∷ 0 ∷ 0 ∷ 1 ∷ 0 ∷ 0 ∷ 0 ∷ [])
                ++ (header_bytes hex_b (replicate 8 b'0') ++ (trailer ++ (0 ∷ []))))))

abbrev model_image : Memory
model_image a = get_or model_bytes (a - 0x1000) 0

abbrev link : AiLink
link = record { ai_model_addr = 0; ai_model_len = 0; initrd_base = 0x1000; initrd_len = 257 }

try_set_model_from_initrd-Placed_example :
    (entries : List Entry) × (link' : AiLink) × (for_each model_image 0x1000 257 ≡ some entries)
    × (try_set_model_from_initrd model_image link ≡ some link')
    × Placed model_image link entries link'
try_set_model_from_initrd-Placed_example =
    try_set_model_from_initrd-Placed model_image link (omega arith)

-- In that archive the model is found.
model_found :
    try_set_model_from_initrd model_image link
    ≡ some (record link { ai_model_addr = 0x1078; ai_model_len = 137 })
unfolding try_set_model_from_initrd set_found set_model cpio_find cpio_loop look matches dot_slash
    header sized named read_hex hex_from hex_digit align4 next_off bytes_eq read_unaligned header_at
    valid read_le byte_at
model_found = refl
