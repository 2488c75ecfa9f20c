-- ===== src/Ramfs/ModelFile.antt =====
-- try_set_model_from_initrd of ai_initrd.rs, which looks for the model in the image and leaves its
-- place in the symbols of ai_link.rs.
use mon_os.Base.{
  ℕ, ◌+◌, ◌-◌, ◌≤◌, ◌≡◌, refl, sym, ◌∙◌, arith, Bool, true, false, not, ◌&&◌, Option, none, some,
  List, [], ◌∷◌, ◌==◌, leb, if◌then◌else◌, Bool-cases, Option-cases, some-injective, inl, inr,
  subst,
}
use mon_os.Base.Memory.{Memory}
use mon_os.Model.{ModelHeader, header_size, valid, read_unaligned}
use mon_os.Ramfs.{Entry, matches, for_each, cpio_find}
use mon_os.Ramfs.Fields.{Small}
use mon_os.Ramfs.Rounds.{InOrder, for_each-InOrder}
use mon_os.Ramfs.Lookup.{first_match, cpio_find_lem}

pub record AiLink : Type 0 where
  pub ai_model_addr : ℕ
  pub ai_model_len : ℕ
  pub initrd_base : ℕ
  pub initrd_len : ℕ

abbrev pub model_name : List ℕ
model_name = b'a' ∷ b'i' ∷ b'.' ∷ b'm' ∷ b'o' ∷ b'd' ∷ []

-- The model found at `ptr`, once its header is read
unfoldable pub set_model : AiLink → ℕ → Option ModelHeader → AiLink
set_model link ptr none = link
set_model link ptr (some h) =
    if valid h
    then record link {
      ai_model_addr = ptr;
      ai_model_len = link.initrd_len - (ptr - link.initrd_base);
    }
    else link

unfoldable pub set_found : Memory → AiLink → Option (Option ℕ) → Option AiLink
set_found mem link none = none
set_found mem link (some none) = some link
set_found mem link (some (some ptr)) =
    some (set_model link ptr (read_unaligned mem ptr header_size))

unfoldable pub try_set_model_from_initrd : Memory → AiLink → Option AiLink
try_set_model_from_initrd mem link =
    if (link.ai_model_addr == 0) && not (link.initrd_base == 0) && leb header_size link.initrd_len
    then set_found mem link (cpio_find mem link.initrd_base link.initrd_len model_name)
    else some link

-- A match lies in the image.
first_match_inside :
    (base len low : ℕ) (want : List ℕ) (es : List Entry) (p : ℕ)
    → base ≤ low
    → InOrder base len low es
    → first_match want es ≡ some p
    → (base ≤ p) × (p ≤ base + len)
unfolding first_match InOrder
first_match_inside base len low want [] p from order h = ground arith
first_match_inside base len low want (e ∷ es) p from order h =
    elim (Bool-cases (matches want e.name)) [
      | inl found ↦
          let same : e.data_ptr ≡ p = some-injective (rw (first_match, found) at h) in
          (omega (arith, order.0, same), omega (arith, order.2, same))
      | inr other ↦
          first_match_inside base len (e.data_ptr + e.size) want es p (omega (arith, order.0))
            order.3 (rw (first_match, other) at h)
    ]

-- Whether the call looks for a model at all: none is set, and the image is there and holds a header.
unfoldable pub looks : AiLink → Bool
looks link =
    (link.ai_model_addr == 0) && not (link.initrd_base == 0) && leb header_size link.initrd_len

-- What the call leaves, told from the entries that for_each reports: no change, because it does not look,
-- or no entry matches, or the bytes of the first that does are no valid header; or the place of that entry,
-- with all bytes from there to the end of the image.
pub data Placed (mem : Memory) (link : AiLink) (entries : List Entry) : AiLink → Type 0 where
  no_look : looks link ≡ false → Placed mem link entries link
  no_match : first_match model_name entries ≡ none → Placed mem link entries link
  no_header :
      (p : ℕ)
      → first_match model_name entries ≡ some p
      → read_unaligned mem p header_size ≡ none
      → Placed mem link entries link
  not_valid :
      (p : ℕ) (h : ModelHeader)
      → first_match model_name entries ≡ some p
      → read_unaligned mem p header_size ≡ some h
      → valid h ≡ false
      → Placed mem link entries link
  model :
      (link' : AiLink) (h : ModelHeader)
      → looks link ≡ true
      → first_match model_name entries ≡ some link'.ai_model_addr
      → read_unaligned mem link'.ai_model_addr header_size ≡ some h
      → valid h ≡ true
      → link.initrd_base ≤ link'.ai_model_addr
      → link'.ai_model_addr + link'.ai_model_len ≡ link.initrd_base + link.initrd_len
      → link'.initrd_base ≡ link.initrd_base
      → link'.initrd_len ≡ link.initrd_len
      → Placed mem link entries link'

module _ (mem : Memory) (link : AiLink) (entries : List Entry) (look : looks link ≡ true) where
  set_model-Placed :
      (p : ℕ)
      → first_match model_name entries ≡ some p
      → link.initrd_base ≤ p
      → p ≤ link.initrd_base + link.initrd_len
      → Placed mem link entries (set_model link p (read_unaligned mem p header_size))
  unfolding set_model
  set_model-Placed p first low high = elim (Option-cases (read_unaligned mem p header_size)) [
    | inl none_e ↦ simp none_e (Placed.no_header p first none_e)
    | inr (h, some_e) ↦ elim (Bool-cases (valid h)) [
      | inl fine ↦
          simp (some_e, fine) (Placed.model _ h look first some_e fine low (omega arith) refl refl)
      | inr bad ↦ simp (some_e, bad) (Placed.not_valid p h first some_e bad)
    ]
  ]

  set_found-Placed :
      (o : Option ℕ)
      → first_match model_name entries ≡ o
      → ((p : ℕ)
          → first_match model_name entries ≡ some p
          → (link.initrd_base ≤ p) × (p ≤ link.initrd_base + link.initrd_len))
      → (link' : AiLink) × (set_found mem link (some o) ≡ some link')
        × Placed mem link entries link'
  unfolding set_found
  set_found-Placed none first inside = (link, refl, Placed.no_match first)
  set_found-Placed (some p) first inside =
      let at_p = inside p first in (_, refl, set_model-Placed p first at_p.0 at_p.1)

-- On an image of at most 2^60 bytes the call ends, and so does for_each; told from the entries that for_each
-- reports, the symbols are left as they were for one of four reasons, or set: to the data of the first entry
-- of the name ai.mod, plain or behind ./ , where a valid header is read, and to the length from there to the
-- end of the image.
pub try_set_model_from_initrd-Placed :
    (mem : Memory) (link : AiLink)
    → Small link.initrd_len
    → (entries : List Entry) × (link' : AiLink) × (for_each mem link.initrd_base link.initrd_len
        ≡ some entries)
      × (try_set_model_from_initrd mem link ≡ some link')
      × Placed mem link entries link'
unfolding try_set_model_from_initrd looks
try_set_model_from_initrd-Placed mem link small =
    let base = link.initrd_base in
    let len = link.initrd_len in
    let ends = for_each-InOrder mem base len small in
    let found = cpio_find_lem mem base len model_name small in
    let same : ends.0 ≡ found.0 = some-injective (sym ends.1 ∙ found.1) in
    let order : InOrder base len base found.0 = subst (InOrder base len base) same ends.2 in
    elim (Bool-cases (looks link)) [
      | inl look ↦
          let set =
            set_found-Placed mem link found.0 look (first_match model_name found.0) refl (λ p e.
              first_match_inside base len base model_name found.0 p (omega arith) order e) in
          (found.0, set.0, found.1, simp (look, found.2) set.1, set.2)
      | inr stay ↦ (found.0, link, found.1, simp stay refl, Placed.no_look stay)
    ]
