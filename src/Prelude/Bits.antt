-- ===== src/Prelude/Bits.antt =====
-- Bytes as numbers below 256, and the bit test and bit write that the bitfields use.
use Prim.Native.Nat.{ℕ, zero, suc, ◌^◌, ◌<◌, bit_and, bit_or}
use mathlib.Core.Path.{◌≡◌, refl, sym, ap₂}
use mathlib.Core.Logic.{◌≢◌}
use native.Mathlib.Decide.{ℕ_discrete}
use mathlib.Core.List.{List, [], ◌∷◌}
use mathlib.Core.Bool.{Bool, true, false, not, ◌&&◌, ◌||◌}
use Prim.Native.Char.{code}
use Prim.Native.String.{String}
use native.Mathlib.Omega.{arith}
use pixtorrent.Prelude.Tests.{◌==◌, ltb}

abbrev pub Bytes : Type 0
Bytes = List ℕ

pub head-eq : (a b : ℕ) (xs ys : Bytes) → a ∷ xs ≡ b ∷ ys → a ≡ b
head-eq a b xs ys e = cc

pub tail-eq : (a b : ℕ) (xs ys : Bytes) → a ∷ xs ≡ b ∷ ys → xs ≡ ys
tail-eq a b xs ys e = cc

pub cons-ne-nil : (a : ℕ) (xs : Bytes) → a ∷ xs ≢ []
cons-ne-nil a xs e = cc

-- Equality of byte strings, decided.
unfoldable pub bytes_discrete : Discrete Bytes
bytes_discrete [] [] = yes refl
bytes_discrete [] (b ∷ ys) = no (λ e. cons-ne-nil b ys (sym e))
bytes_discrete (a ∷ xs) [] = no (cons-ne-nil a xs)
bytes_discrete (a ∷ xs) (b ∷ ys) = elim (ℕ_discrete a b) [
  | yes e ↦ elim (bytes_discrete xs ys) [
    | yes f ↦ yes (ap₂ ◌∷◌ e f)
    | no ne ↦ no (λ p. ne (tail-eq a b xs ys p))
  ]
  | no ne ↦ no (λ p. ne (head-eq a b xs ys p))
]

-- The bytes of an ASCII text.
abbrev pub codes : String → Bytes
codes String.[] = []
codes (String.◌∷◌ c s) = code c ∷ codes s

abbrev pub IsByte : ℕ → Type 0
IsByte b = b < 256

-- `b & (1 << k) != 0`
unfoldable pub has_bit : ℕ → ℕ → Bool
has_bit b k = not (bit_and b (2 ^ k) == 0)

-- `b | 1 << k`
unfoldable pub set_bit : ℕ → ℕ → ℕ
set_bit b k = bit_or b (2 ^ k)

bool_eq : Bool → Bool → Bool
bool_eq true b = b
bool_eq false b = not b

bool_eq_sound : (a b : Bool) → bool_eq a b ≡ true → a ≡ b
unfolding bool_eq
bool_eq_sound a b h = ground arith

-- A test of every number under a bound.
holds_under : (ℕ → Bool) → ℕ → Bool
holds_under test zero = true
holds_under test (suc bound) = holds_under test bound && test bound

holds_under_lem :
    (test : ℕ → Bool) (bound k : ℕ) → k < bound → holds_under test bound ≡ true → test k ≡ true
unfolding holds_under
holds_under_lem test (suc bound) k lt h = ground (arith, holds_under_lem test bound k)
holds_under_lem test zero k lt h = absurd (omega arith)

abbrev bit_law : ℕ → ℕ → ℕ → Bool
bit_law b k j = bool_eq (has_bit (set_bit b k) j) (k == j || has_bit b j)

bits_table :
    holds_under (λ b. holds_under (λ k. ltb (set_bit b k) 256 && holds_under (bit_law b k) 8) 8) 256
    ≡ true
unfolding holds_under bool_eq has_bit set_bit
bits_table = refl

bits_table_at :
    (b k : ℕ) → b < 256 → k < 8 → (ltb (set_bit b k) 256 && holds_under (bit_law b k) 8) ≡ true
bits_table_at b k hb hk = holds_under_lem _ 8 k hk (holds_under_lem _ 256 b hb bits_table)

-- Writing bit `k` of a byte changes that bit alone.
pub has_bit-set_bit :
    (b k j : ℕ) → b < 256 → k < 8 → j < 8 → has_bit (set_bit b k) j ≡ (k == j || has_bit b j)
has_bit-set_bit b k j hb hk hj =
    bool_eq_sound _ _
      (holds_under_lem (bit_law b k) 8 j hj (ground (arith, bits_table_at b k hb hk)))

pub set_bit-lt : (b k : ℕ) → b < 256 → k < 8 → set_bit b k < 256
set_bit-lt b k hb hk = ground (arith, bits_table_at b k hb hk)

pub zero-has_bit : (k : ℕ) → k < 8 → has_bit 0 k ≡ false
zero-has_bit k hk = bool_eq_sound _ _ (holds_under_lem _ 8 k hk zero_table)
  where
    zero_table : holds_under (λ k. bool_eq (has_bit 0 k) false) 8 ≡ true
    zero_table = unfold holds_under bool_eq has_bit in refl
