-- ===== src/Tracker/Query/Decimal.antt =====
-- `strconv.FormatInt` against `strconv.ParseInt`, which tracker/server.go uses for the numbers that
-- client/tracker_client.go writes.
use pixtorrent.Prelude.{
  ℕ, zero, suc, ◌+◌, ◌/◌, ◌%◌, ◌^◌, ◌≤◌, ◌<◌, true, false, [], ◌∷◌, Bytes, ◌≡◌, refl, sym, ap, ◌∙◌,
  arith,
}
use pixtorrent.Prelude.Int.{ℤ, pos, negsuc, IsInt64}
use pixtorrent.Meta.Bencode.Scan.{
  IsDecimal, decimal_onto, decimal, decimal-split, digits-IsDecimal, first_digit, more_digits,
  text_of,
}
use pixtorrent.Tracker.Query.{number, minus, parse_digits, parse_unsigned, signed, parse_int}

parse_digits-decimal_onto :
    (fuel n : ℕ) (rest : Bytes)
    → n ≤ fuel
    → n < 2 ^ 64
    → parse_digits 0 (decimal_onto fuel n rest) ≡ parse_digits n rest
unfolding decimal_onto parse_digits
parse_digits-decimal_onto zero n rest h k = ground arith
parse_digits-decimal_onto (suc fuel) n rest h k =
    ground (arith, parse_digits-decimal_onto fuel (n / 10) ((48 + n % 10) ∷ rest))

parse_digits-decimal : (n : ℕ) → n < 2 ^ 64 → parse_digits 0 (decimal n) ≡ number n
unfolding decimal parse_digits
parse_digits-decimal n k = parse_digits-decimal_onto n n [] (omega arith) k

parse_unsigned-cons : (c : ℕ) (cs : Bytes) → parse_unsigned (c ∷ cs) ≡ parse_digits 0 (c ∷ cs)
unfolding parse_unsigned
parse_unsigned-cons c cs = refl

pub parse_unsigned-decimal : (n : ℕ) → n < 2 ^ 64 → parse_unsigned (decimal n) ≡ number n
parse_unsigned-decimal n k =
    ap parse_unsigned (decimal-split n)
    ∙ parse_unsigned-cons (first_digit n) (more_digits n)
    ∙ ap (parse_digits 0) (sym (decimal-split n))
    ∙ parse_digits-decimal n k

unsigned_text :
    (c : ℕ) (cs : Bytes) → IsDecimal c → parse_int (c ∷ cs) ≡ signed false (parse_unsigned (c ∷ cs))
unfolding parse_int IsDecimal
unsigned_text c cs h = ground arith

negative_text : (s : Bytes) → parse_int (minus ∷ s) ≡ signed true (parse_unsigned s)
unfolding parse_int
negative_text s = refl

-- An int64 is read back from its text.
pub parse_int-text_of : (i : ℤ) → IsInt64 i → parse_int (text_of i) ≡ i
unfolding text_of
parse_int-text_of (pos n) h =
    ap parse_int (decimal-split n)
    ∙ unsigned_text _ _ (digits-IsDecimal n).0
    ∙ ap (λ s. signed false (parse_unsigned s)) (sym (decimal-split n))
    ∙ ap (signed false) (parse_unsigned-decimal n (omega arith))
    ∙ ground arith
parse_int-text_of (negsuc n) h =
    negative_text (decimal (suc n))
    ∙ ap (signed true) (parse_unsigned-decimal (suc n) (omega arith))
    ∙ ground arith
