-- ===== src/Shell/Text.antt =====
-- The texts of shell.rs: trim and split1, the hexadecimal formats, and the test for UTF-8 of the standard
-- library that it calls.
use mon_os.Base.{
  ℕ, zero, suc, ◌/◌, ◌%◌, Bool, true, false, ◌&&◌, ◌||◌, Option, none, some, List, [], ◌∷◌, ◌++◌,
  reverse, ◌==◌, if◌then◌else◌, leb,
}
use mon_os.Serial.{hex_digit}

-- White space among the ASCII characters
unfoldable pub is_white : ℕ → Bool
is_white c = (c == 32) || (leb 9 c && leb c 13)

unfoldable pub trim_start : List ℕ → List ℕ
trim_start [] = []
trim_start (c ∷ cs) = if is_white c then trim_start cs else c ∷ cs

-- `str::trim`
unfoldable pub trim : List ℕ → List ℕ
trim s = reverse (trim_start (reverse (trim_start s)))

-- `s.find(' ')`: the text before the first space and that behind it
unfoldable pub cut : List ℕ → Option (List ℕ × List ℕ)
cut [] = none
cut (c ∷ cs) =
    if c == 32
    then some ([], cs)
    else (elim (cut cs) [ none ↦ none | some (front, back) ↦ some (c ∷ front, back) ])

unfoldable pub split1 : List ℕ → List ℕ × List ℕ
split1 s =
    let t = trim s in elim (cut t) [ none ↦ (t, []) | some (front, back) ↦ (front, trim back) ]

-- `{:02x}` and `{:08x}` on numbers of that many digits
unfoldable pub hex : ℕ → ℕ → List ℕ
hex zero n = []
hex (suc width) n = hex width (n / 16) ++ (hex_digit (n % 16) ∷ [])

-- How many bytes follow the first of a character, and the bounds of the next one
unfoldable pub lead : ℕ → Option (ℕ × ℕ × ℕ)
lead b =
    if leb b 0x7f
    then some (0, 0, 0)
    else if leb 0xc2 b && leb b 0xdf
    then some (1, 0x80, 0xbf)
    else if b == 0xe0
    then some (2, 0xa0, 0xbf)
    else if b == 0xed
    then some (2, 0x80, 0x9f)
    else if leb 0xe1 b && leb b 0xef
    then some (2, 0x80, 0xbf)
    else if b == 0xf0
    then some (3, 0x90, 0xbf)
    else if leb 0xf1 b && leb b 0xf3
    then some (3, 0x80, 0xbf)
    else if b == 0xf4
    then some (3, 0x80, 0x8f)
    else none

unfoldable pub utf8_from : ℕ → ℕ → ℕ → List ℕ → Bool
utf8_from zero low high [] = true
utf8_from (suc n) low high [] = false
utf8_from zero low high (b ∷ bs) = elim (lead b) [
  | none ↦ false
  | some (n, l, h) ↦ utf8_from n l h bs
]
utf8_from (suc n) low high (b ∷ bs) = (leb low b && leb b high) && utf8_from n 0x80 0xbf bs

-- `core::str::from_utf8(bytes).is_ok()`
unfoldable pub is_utf8 : List ℕ → Bool
is_utf8 bytes = utf8_from 0 0 0 bytes
