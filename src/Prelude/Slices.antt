-- ===== src/Prelude/Slices.antt =====
-- Go's `copy` into a slice, slicing, and the big-endian words of encoding/binary.
use Prim.Native.Nat.{ℕ, zero, suc, ◌+◌, ◌-◌, ◌*◌, ◌/◌, ◌%◌, ◌^◌, ◌<◌}
use mathlib.Core.Path.{◌≡◌, refl, ap, sym, ◌∙◌}
use mathlib.Core.List.{List, [], ◌∷◌, ◌++◌, append_assoc}
use native.Mathlib.Omega.{arith}
use pixtorrent.Prelude.Lists.{
  length, take, drop, replicate, All, take-append, drop-append, length-append,
}
use pixtorrent.Prelude.Bits.{Bytes, IsByte}

suc_sum : (n m : ℕ) → suc (n + m) ≡ suc n + m
suc_sum n m = omega arith

module _ {ℓ} {A : Type ℓ} where
  -- `copy(dst[at:], src)` where `src` fits
  unfoldable pub copy_at : ℕ → List A → List A → List A
  copy_at start src dst = take start dst ++ (src ++ drop (start + length src) dst)

  -- `xs[lo:hi]` where the bounds fit
  abbrev pub slice : ℕ → ℕ → List A → List A
  slice lo hi xs = take (hi - lo) (drop lo xs)

  drop-nil : (n : ℕ) → drop {A = A} n [] ≡ []
  drop-nil zero = refl
  drop-nil (suc n) = refl

  pub drop-drop : (m n : ℕ) (xs : List A) → drop m (drop n xs) ≡ drop (n + m) xs
  drop-drop m zero xs = ap (λ k. drop k xs) (omega arith)
  drop-drop m (suc n) [] = drop-nil m ∙ sym (drop-nil (suc n + m))
  drop-drop m (suc n) (x ∷ xs) = drop-drop m n xs ∙ ap (λ k. drop k (x ∷ xs)) (suc_sum n m)

  pub copy_at_middle :
      (pre mid post src : List A) (start : ℕ)
      → length pre ≡ start
      → length mid ≡ length src
      → copy_at start src (pre ++ (mid ++ post)) ≡ pre ++ (src ++ post)
  unfolding copy_at
  copy_at_middle pre mid post src start h e = rw (take-append pre (mid ++ post) start h) (
      ap (λ t. pre ++ (src ++ t))
        ((rw (← append_assoc)
          (drop-append (pre ++ mid) post _ (omega (arith, length-append pre mid))))))

  pub replicate-add : (m n : ℕ) (a : A) → replicate (m + n) a ≡ replicate m a ++ replicate n a
  replicate-add zero n a = ap (λ k. replicate k a) (omega arith)
  replicate-add (suc m) n a =
      ap (λ k. replicate k a) (sym (suc_sum m n)) ∙ ap (◌∷◌ a) (replicate-add m n a)

-- `binary.BigEndian.PutUint32`
unfoldable pub put_u32 : ℕ → Bytes
put_u32 n = n / 2 ^ 24 % 256 ∷ n / 2 ^ 16 % 256 ∷ n / 2 ^ 8 % 256 ∷ n % 256 ∷ []

-- `binary.BigEndian.Uint32`, on the first four bytes
unfoldable pub u32 : Bytes → ℕ
u32 (a ∷ b ∷ c ∷ d ∷ rest) = a * 2 ^ 24 + b * 2 ^ 16 + c * 2 ^ 8 + d
u32 _ = 0

pub u32-put_u32 : (n : ℕ) (rest : Bytes) → n < 2 ^ 32 → u32 (put_u32 n ++ rest) ≡ n
unfolding u32 put_u32
u32-put_u32 n rest h = omega arith

pub length-put_u32 : (n : ℕ) → length (put_u32 n) ≡ 4
unfolding put_u32
length-put_u32 n = refl

pub put_u32-IsByte : (n : ℕ) → All IsByte (put_u32 n)
unfolding put_u32
put_u32-IsByte n = omega arith
