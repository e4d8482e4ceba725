-- ===== src/Meta/Bencode/Scan.antt =====
-- Decimal numbers, as they are written and as the decoder of meta/bencode.go reads them.
use pixtorrent.Prelude.{
  ℕ, zero, suc, ◌+◌, ◌-◌, ◌/◌, ◌%◌, ◌^◌, ◌≤◌, ◌<◌, Bool, true, false, Option, none, some, [], ◌∷◌,
  ◌++◌, Bytes, length, get_or, drop, All, leb, ltb, ◌==◌, if◌then◌else◌, ◌≡◌, refl, ap, ◌∙◌, arith,
}
use pixtorrent.Prelude.Int.{ℤ, pos, negsuc, IsInt64}
use pixtorrent.Meta.Bencode.{
  is_decimal, read_until, skip_space, scan_digits, scan_number, scan_signed, sscanf_int, byte_e,
  colon,
}

-- The decimal digits of a number, in front of what follows; fuel bounds their number.
unfoldable pub decimal_onto : ℕ → ℕ → Bytes → Bytes
decimal_onto zero n out = (48 + n % 10) ∷ out
decimal_onto (suc fuel) n out =
    let more = decimal_onto fuel (n / 10) ((48 + n % 10) ∷ out) in
    if ltb n 10 then (48 + n) ∷ out else more

-- A number has at most as many digits as it counts.
unfoldable pub decimal : ℕ → Bytes
unfolding decimal_onto
decimal n = decimal_onto n n []

unfoldable pub IsDecimal : ℕ → Type 0
IsDecimal c = is_decimal c ≡ true

decimal_onto-append :
    (fuel n : ℕ) (out rest : Bytes)
    → decimal_onto fuel n out ++ rest ≡ decimal_onto fuel n (out ++ rest)
unfolding decimal_onto
decimal_onto-append zero n out rest = refl
decimal_onto-append (suc fuel) n out rest =
    ground (arith, decimal_onto-append fuel (n / 10) ((48 + n % 10) ∷ out) rest)

scan_digits-decimal_onto :
    (fuel n : ℕ) (rest : Bytes)
    → n ≤ fuel
    → scan_digits 0 (decimal_onto fuel n rest) ≡ scan_digits n rest
unfolding decimal_onto scan_digits
scan_digits-decimal_onto zero n rest h = ground arith
scan_digits-decimal_onto (suc fuel) n rest h =
    ground (arith, scan_digits-decimal_onto fuel (n / 10) ((48 + n % 10) ∷ rest))

decimal_onto-All :
    (fuel n : ℕ) (out : Bytes) → All IsDecimal out → All IsDecimal (decimal_onto fuel n out)
unfolding decimal_onto IsDecimal
decimal_onto-All zero n out h = (ground arith, h)
decimal_onto-All (suc fuel) n out h =
    ground (arith, decimal_onto-All fuel (n / 10) ((48 + n % 10) ∷ out))

decimal-All : (n : ℕ) → All IsDecimal (decimal n)
unfolding decimal
decimal-All n = decimal_onto-All n n [] tt

decimal_onto-positive : (fuel n : ℕ) (out : Bytes) → 0 < length (decimal_onto fuel n out)
unfolding decimal_onto
decimal_onto-positive zero n out = omega arith
decimal_onto-positive (suc fuel) n out =
    ground (arith, decimal_onto-positive fuel (n / 10) ((48 + n % 10) ∷ out))

-- The first digit and the others.
abbrev pub first_digit : ℕ → ℕ
first_digit n = get_or (decimal n) 0 0

abbrev pub more_digits : ℕ → Bytes
more_digits n = drop 1 (decimal n)

split_first : (s : Bytes) → 0 < length s → s ≡ get_or s 0 0 ∷ drop 1 s
split_first [] h = absurd (omega arith)
split_first (c ∷ s) h = refl

pub decimal-split : (n : ℕ) → decimal n ≡ first_digit n ∷ more_digits n
decimal-split n = split_first (decimal n) (unfold decimal in decimal_onto-positive n n [])

split-All :
    (s : Bytes)
    → 0 < length s
    → All IsDecimal s
    → IsDecimal (get_or s 0 0) × All IsDecimal (drop 1 s)
split-All [] h k = absurd (omega arith)
split-All (c ∷ s) h k = k

pub digits-IsDecimal : (n : ℕ) → IsDecimal (first_digit n) × All IsDecimal (more_digits n)
digits-IsDecimal n =
    split-All (decimal n) (unfold decimal in decimal_onto-positive n n []) (decimal-All n)

scan_digits-decimal : (n : ℕ) → scan_digits 0 (decimal n) ≡ n
unfolding decimal
scan_digits-decimal n = scan_digits-decimal_onto n n [] (omega arith) ∙ unfold scan_digits in refl

-- The signed number that some digits stand for, if it is an int64.
abbrev in_range : Bool → ℕ → Option ℤ
in_range true n = if leb n (2 ^ 63) then some (if n == 0 then pos 0 else negsuc (n - 1)) else none
in_range false n = if ltb n (2 ^ 63) then some (pos n) else none

scan_number-in_range :
    (neg : Bool) (s : Bytes)
    → 0 < length s
    → All IsDecimal s
    → scan_number neg s ≡ in_range neg (scan_digits 0 s)
unfolding scan_number IsDecimal
scan_number-in_range neg [] h k = absurd (omega arith)
scan_number-in_range true (c ∷ s) h k = rw k.0
scan_number-in_range false (c ∷ s) h k = rw k.0

scan_number-decimal : (neg : Bool) (n : ℕ) → scan_number neg (decimal n) ≡ in_range neg n
scan_number-decimal neg n =
    scan_number-in_range neg (decimal n) (unfold decimal in decimal_onto-positive n n [])
      (decimal-All n)
    ∙ ap (in_range neg) (scan_digits-decimal n)

sscanf_int-digits :
    (s : Bytes) → 0 < length s → All IsDecimal s → sscanf_int s ≡ scan_number false s
unfolding sscanf_int skip_space scan_signed IsDecimal
sscanf_int-digits [] h k = absurd (omega arith)
sscanf_int-digits (c ∷ s) h k = ground arith

sscanf_int-minus : (s : Bytes) → sscanf_int (0x2d ∷ s) ≡ scan_number true s
unfolding sscanf_int skip_space scan_signed
sscanf_int-minus s = refl

-- A length, and an int64, are read back from their digits.
pub sscanf_int-decimal : (n : ℕ) → n < 2 ^ 63 → sscanf_int (decimal n) ≡ some (pos n)
sscanf_int-decimal n h =
    sscanf_int-digits (decimal n) (unfold decimal in decimal_onto-positive n n []) (decimal-All n)
    ∙ scan_number-decimal false n
    ∙ ground arith

-- The text of an integer.
unfoldable pub text_of : ℤ → Bytes
unfolding decimal
text_of (pos n) = decimal n
text_of (negsuc n) = 0x2d ∷ decimal (suc n)

pub sscanf_int-text_of : (i : ℤ) → IsInt64 i → sscanf_int (text_of i) ≡ some i
unfolding text_of
sscanf_int-text_of (pos n) h = sscanf_int-decimal n h
sscanf_int-text_of (negsuc n) h =
    sscanf_int-minus (decimal (suc n)) ∙ scan_number-decimal true (suc n) ∙ ground arith

-- A text without the mark is read up to the mark.
pub read_until-append :
    (mark : ℕ) (s rest : Bytes)
    → All (λ c. (c == mark) ≡ false) s
    → read_until mark (s ++ mark ∷ rest) ≡ some (s, rest)
unfolding read_until
read_until-append mark [] rest h = ground arith
read_until-append mark (c ∷ s) rest h = rw (h.0, read_until-append mark s rest h.1, read_until)

unmarked : (mark : ℕ) (s : Bytes) → 57 < mark → All IsDecimal s → All (λ c. (c == mark) ≡ false) s
unfolding IsDecimal
unmarked mark [] h k = tt
unmarked mark (c ∷ s) h k = (ground arith, unmarked mark s h k.1)

pub more_digits-colon : (n : ℕ) → All (λ c. (c == colon) ≡ false) (more_digits n)
more_digits-colon n = unmarked colon (more_digits n) (omega arith) (digits-IsDecimal n).1

pub text_of-byte_e : (i : ℤ) → All (λ c. (c == byte_e) ≡ false) (text_of i)
unfolding text_of
text_of-byte_e (pos n) = unmarked byte_e (decimal n) (omega arith) (decimal-All n)
text_of-byte_e (negsuc n) =
    (refl, unmarked byte_e (decimal (suc n)) (omega arith) (decimal-All (suc n)))
