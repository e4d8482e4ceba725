-- ===== src/Tracker/Hex.antt =====
-- `hex.EncodeToString`, by which the stores of tracker/ key their torrents and cmd/seed.go prints hashes.
use pixtorrent.Prelude.{
  ℕ, ◌+◌, ◌*◌, ◌/◌, ◌%◌, ◌<◌, [], ◌∷◌, Bytes, length, ltb, if◌then◌else◌, ◌≡◌, refl, ap₂, arith,
  All, IsByte, head-eq, tail-eq,
}

abbrev pub hex_digit : ℕ → ℕ
hex_digit n = if ltb n 10 then 48 + n else 87 + n

unfoldable pub encode_to_string : Bytes → Bytes
encode_to_string [] = []
encode_to_string (b ∷ bytes) = hex_digit (b / 16) ∷ hex_digit (b % 16) ∷ encode_to_string bytes

hex_digit_inj : (a b : ℕ) → a < 16 → b < 16 → hex_digit a ≡ hex_digit b → a ≡ b
hex_digit_inj a b h k e = ground arith

-- Byte strings with the same text are the same.
pub encode_to_string_inj :
    (a b : Bytes) → All IsByte a → All IsByte b → encode_to_string a ≡ encode_to_string b → a ≡ b
unfolding encode_to_string
encode_to_string_inj [] [] h k e = refl
encode_to_string_inj [] (y ∷ b) h k e = cc
encode_to_string_inj (x ∷ a) [] h k e = cc
encode_to_string_inj (x ∷ a) (y ∷ b) h k e =
    let high =
      hex_digit_inj (x / 16) (y / 16) (omega (arith, h.0)) (omega (arith, k.0))
        (head-eq _ _ _ _ e) in
    let rest = tail-eq _ _ _ _ e in
    let low = hex_digit_inj (x % 16) (y % 16) (omega arith) (omega arith) (head-eq _ _ _ _ rest) in
    ap₂ ◌∷◌ (omega (arith, high, low)) (encode_to_string_inj a b h.1 k.1 (tail-eq _ _ _ _ rest))

pub length-encode_to_string : (s : Bytes) → length (encode_to_string s) ≡ 2 * length s
unfolding encode_to_string
length-encode_to_string [] = refl
length-encode_to_string (b ∷ s) = omega (arith, length-encode_to_string s)
