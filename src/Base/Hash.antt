-- ===== src/Base/Hash.antt =====
-- src/base/hash.rs: digests and their hex text. A digest is the number that its 32 bytes spell, most
-- significant first, so that byte order is the order of the numbers. SHA-256 itself is a parameter.
pub mod Hex
use Prim.Native.Char.{code}
use Prim.Native.Nat.{ℕ}
use bellbook.Prelude.{
  ltb, nat_ord, suc, zero, ◌+◌, ◌-◌, ◌*◌, ◌/◌, ◌%◌, ◌&&◌, Option, none, some, List, [], ◌∷◌, ◌++◌,
  leb, ◌==◌, if◌then◌else◌, length, String,
}

abbrev pub Bytes : Type 0
Bytes = List ℕ

abbrev pub Hash256 : Type 0
Hash256 = ℕ

-- The code points of a text; the names and hex texts of this program are ASCII, where these are bytes.
abbrev pub as_bytes : String → Bytes
as_bytes String.[] = []
as_bytes (String.◌∷◌ c s) = code c ∷ as_bytes s

-- The inner function of `hex_decode`.
unfoldable pub nibble : ℕ → Option ℕ
nibble b =
    if leb b'0' b && leb b b'9'
    then some (b - b'0')
    else if leb b'a' b && leb b b'f'
    then some (b - b'a' + 10)
    else none

-- Two digits a byte, most significant first, after the value `acc` of the bytes before.
unfoldable pub hex_pairs : Bytes → ℕ → Option Hash256
unfolding nibble
hex_pairs [] acc = some acc
hex_pairs (hi ∷ []) acc = none
hex_pairs (hi ∷ lo ∷ rest) acc = elim (nibble hi) [
  | none ↦ none
  | some h ↦ elim (nibble lo) [ none ↦ none | some l ↦ hex_pairs rest (acc * 256 + (h * 16 + l)) ]
]

-- On the bytes of the text.
unfoldable pub hex_decode_bytes : Bytes → Option Hash256
unfolding hex_pairs
hex_decode_bytes bytes = if length bytes == 64 then hex_pairs bytes 0 else none

-- A text with other characters than ASCII is refused as in the source, where a byte of it is.
unfoldable pub hex_decode : String → Option Hash256
unfolding hex_decode_bytes
hex_decode s = hex_decode_bytes (as_bytes s)

-- The `n` low bytes of a number, most significant first.
unfoldable pub to_bytes : ℕ → ℕ → Bytes → Bytes
to_bytes zero h acc = acc
to_bytes (suc n) h acc = to_bytes n (h / 256) (h % 256 ∷ acc)

-- `{:02x}` of each byte.
unfoldable pub hex_digit : ℕ → ℕ
hex_digit n = if ltb n 10 then b'0' + n else b'a' + (n - 10)

unfoldable pub hex_text : Bytes → Bytes
unfolding hex_digit
hex_text [] = []
hex_text (b ∷ bs) = hex_digit (b / 16) ∷ hex_digit (b % 16) ∷ hex_text bs

-- The bytes of the text.
unfoldable pub hex_encode : Hash256 → Bytes
unfolding to_bytes hex_text
hex_encode h = hex_text (to_bytes 32 h [])

unfoldable pub concat_ids : List Hash256 → Bytes
unfolding to_bytes
concat_ids [] = []
concat_ids (id ∷ ids) = to_bytes 32 id [] ++ concat_ids ids

unfoldable pub sha256_concat_ids : (Bytes → Hash256) → List Hash256 → Hash256
unfolding concat_ids
sha256_concat_ids sha256 ids = sha256 (concat_ids ids)
