-- ===== src/Base/Hash/Hex.antt =====
-- src/base/hash.rs: hex text is read back.
use bellbook.Prelude.{
  ℕ, zero, suc, ◌+◌, ◌*◌, ◌/◌, ◌%◌, ◌^◌, ◌<◌, ◌≡◌, refl, ap, Bool, true, some, [], ◌∷◌, ltb, all,
  length, nat_ord, arith,
}
use bellbook.Base.Hash.{
  Bytes, Hash256, nibble, hex_pairs, hex_decode_bytes, to_bytes, hex_digit, hex_text, hex_encode,
}

nibble-hex_digit : (n : ℕ) → n < 16 → nibble (hex_digit n) ≡ some n
unfolding nibble hex_digit
nibble-hex_digit n h = ground arith

-- The number that bytes spell after `acc`.
abbrev spelled : Bytes → ℕ → ℕ
spelled [] acc = acc
spelled (b ∷ bs) acc = spelled bs (acc * 256 + b)

abbrev are_bytes : Bytes → Bool
are_bytes bs = all (λ b. ltb b 256) bs

bytes_of : (h : ℕ) → h / 256 * 256 + h % 256 ≡ h
bytes_of h = omega arith

nothing : (h : ℕ) → h < 1 → 0 ≡ h
nothing h v = omega arith

halves : (b : ℕ) → b / 16 * 16 + b % 16 ≡ b
halves b = omega arith

hex_pairs-hex_text :
    (bs : Bytes) (acc : ℕ)
    → are_bytes bs ≡ true
    → hex_pairs (hex_text bs) acc ≡ some (spelled bs acc)
unfolding hex_pairs hex_text
hex_pairs-hex_text [] acc h = refl
hex_pairs-hex_text (b ∷ bs) acc h =
    let small : b < 256 = ground arith in
    rw
      (
        hex_pairs,
        nibble-hex_digit (b / 16) (omega arith),
        nibble-hex_digit (b % 16) (omega arith),
        halves b,
      )
      (hex_pairs-hex_text bs (acc * 256 + b) (ground arith))

are_bytes-to_bytes :
    (n h : ℕ) (bs : Bytes) → are_bytes bs ≡ true → are_bytes (to_bytes n h bs) ≡ true
unfolding to_bytes
are_bytes-to_bytes zero h bs v = v
are_bytes-to_bytes (suc n) h bs v = are_bytes-to_bytes n (h / 256) (h % 256 ∷ bs) (ground arith)

spelled-to_bytes : (n h : ℕ) (bs : Bytes) → h < 256 ^ n → spelled (to_bytes n h bs) 0 ≡ spelled bs h
unfolding to_bytes
spelled-to_bytes zero h bs v = ap (spelled bs) (nothing h v)
spelled-to_bytes (suc n) h bs v =
    let rest = spelled-to_bytes n (h / 256) (h % 256 ∷ bs) (omega arith) in
    cc (rest, ap (spelled bs) (bytes_of h))

length-to_bytes : (n h : ℕ) (bs : Bytes) → length (to_bytes n h bs) ≡ n + length bs
unfolding to_bytes
length-to_bytes zero h bs = omega arith
length-to_bytes (suc n) h bs = omega (arith, length-to_bytes n (h / 256) (h % 256 ∷ bs))

length-hex_text : (bs : Bytes) → length (hex_text bs) ≡ 2 * length bs
unfolding hex_text
length-hex_text [] = refl
length-hex_text (b ∷ bs) = omega (arith, length-hex_text bs)

whole_text : (text : Bytes) → length text ≡ 64 → hex_decode_bytes text ≡ hex_pairs text 0
unfolding hex_decode_bytes
whole_text text e = ground arith

-- Reading back the hex text of a digest, a number below 2 ^ 256, gives the digest.
pub hex_decode_bytes-hex_encode :
    (h : Hash256) → h < 2 ^ 256 → hex_decode_bytes (hex_encode h) ≡ some h
unfolding hex_encode
hex_decode_bytes-hex_encode h v =
    let bytes = to_bytes 32 h [] in
    let long : length (hex_text bytes) ≡ 64 =
      omega (arith, length-hex_text bytes, length-to_bytes 32 h []) in
    cc (
      whole_text (hex_text bytes) long,
      hex_pairs-hex_text bytes 0 (are_bytes-to_bytes 32 h [] refl),
      spelled-to_bytes 32 h [] v,
    )
