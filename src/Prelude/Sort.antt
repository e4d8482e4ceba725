-- ===== src/Prelude/Sort.antt =====
-- Go's `sort.Slice` as the insertion sort that it runs on up to twelve elements. The comparison is
-- told its number, since a comparison in the source may throw a coin.
use Prim.Native.Nat.{ℕ, zero, suc}
use mathlib.Core.Bool.{Bool, true, false}
use mathlib.Core.Path.{◌≡◌}
use mathlib.Core.Logic.{inl, inr}
use mathlib.Core.List.{List, [], ◌∷◌, ◌++◌, Perm, perm_middle}
use mathlib.Core.List.Perm
use pixtorrent.Prelude.Lists.{All, take, drop}
use pixtorrent.Prelude.Tests.{if◌then◌else◌, Bool-cases}

module _ {ℓ} {A : Type ℓ} where
  -- An element walks towards the front, past every element that it is less than. The sorted
  -- front is held backwards, its last element first.
  unfoldable pub insert_back : (ℕ → A → A → Bool) → ℕ → A → List A → List A × ℕ
  insert_back less t x [] = (x ∷ [], t)
  insert_back less t x (y ∷ ys) =
      let walked = insert_back less (suc t) x ys in
      if less t x y then (y ∷ walked.0, walked.1) else (x ∷ y ∷ ys, suc t)

  unfoldable pub reverse_onto : List A → List A → List A
  reverse_onto [] done = done
  reverse_onto (x ∷ xs) done = reverse_onto xs (x ∷ done)

  unfoldable pub sort_onto : (ℕ → A → A → Bool) → ℕ → List A → List A → List A
  sort_onto less t front [] = reverse_onto front []
  sort_onto less t front (x ∷ xs) =
      let placed = insert_back less t x front in sort_onto less placed.1 placed.0 xs

  unfoldable pub sort_slice : (ℕ → A → A → Bool) → List A → List A
  unfolding sort_onto insert_back reverse_onto
  sort_slice less = sort_onto less 0 []

module _ {ℓ} {A : Type ℓ} (less : ℕ → A → A → Bool) where
  insert_back-perm : (t : ℕ) (x : A) (ys : List A) → Perm (insert_back less t x ys).0 (x ∷ ys)
  unfolding insert_back
  insert_back-perm t x [] = Perm.refl (x ∷ [])
  insert_back-perm t x (y ∷ ys) = elim (Bool-cases (less t x y)) [
    | inl e ↦ rw e (Perm.trans (Perm.cons y (insert_back-perm (suc t) x ys)) (Perm.swap x y ys))
    | inr e ↦ rw e (Perm.refl (x ∷ y ∷ ys))
  ]

  reverse_onto-perm : (front done : List A) → Perm (reverse_onto front done) (front ++ done)
  unfolding reverse_onto
  reverse_onto-perm [] done = Perm.refl done
  reverse_onto-perm (x ∷ xs) done =
      Perm.trans (reverse_onto-perm xs (x ∷ done)) (perm_middle xs done)

  sort_onto-perm : (t : ℕ) (front xs : List A) → Perm (sort_onto less t front xs) (front ++ xs)
  unfolding sort_onto
  sort_onto-perm t front [] = reverse_onto-perm front []
  sort_onto-perm t front (x ∷ xs) =
      let placed = insert_back less t x front in
      Perm.trans (sort_onto-perm placed.1 placed.0 xs) (
        Perm.trans (Perm.append_right xs (insert_back-perm t x front))
          (Perm.symm (perm_middle front xs)))

  -- The sorted slice has the elements of the slice, each as often.
  pub sort_slice-perm : (xs : List A) → Perm (sort_slice less xs) xs
  unfolding sort_slice
  sort_slice-perm xs = sort_onto-perm 0 [] xs

-- Every element may stand before every later one.
abbrev pub IsOrdered {ℓ κ} : {A : Type ℓ} → (A → A → Type κ) → List A → Type κ
IsOrdered Le [] = Unit
IsOrdered Le (x ∷ xs) = All (Le x) xs × IsOrdered Le xs

module _ {ℓ} {A : Type ℓ} (less : ℕ → A → A → Bool) (Le : A → A → Type ℓ)
    (yes_le : (t : ℕ) (x y : A) → less t x y ≡ true → Le x y)
    (no_le : (t : ℕ) (x y : A) → less t x y ≡ false → Le y x)
    (le_le : (x y z : A) → Le x y → Le y z → Le x z) where
  abbrev Back : A → A → Type ℓ
  Back x y = Le y x

  All-insert_back :
      (P : A → Type ℓ) (t : ℕ) (x : A) (ys : List A)
      → P x
      → All P ys
      → All P (insert_back less t x ys).0
  unfolding insert_back
  All-insert_back P t x [] p h = (p, tt)
  All-insert_back P t x (y ∷ ys) p h = elim (Bool-cases (less t x y)) [
    | inl e ↦ rw e (h.0, All-insert_back P (suc t) x ys p h.1)
    | inr e ↦ rw e (p, h)
  ]

  All-weaken : (x y : A) (ys : List A) → Le y x → All (Back y) ys → All (Back x) ys
  All-weaken x y [] e h = tt
  All-weaken x y (z ∷ ys) e h = (le_le z y x h.0 e, All-weaken x y ys e h.1)

  insert_back-IsOrdered :
      (t : ℕ) (x : A) (ys : List A) → IsOrdered Back ys → IsOrdered Back (insert_back less t x ys).0
  unfolding insert_back
  insert_back-IsOrdered t x [] h = (tt, tt)
  insert_back-IsOrdered t x (y ∷ ys) h = elim (Bool-cases (less t x y)) [
    | inl e ↦ rw e (
      All-insert_back (Back y) (suc t) x ys (yes_le t x y e) h.0,
      insert_back-IsOrdered (suc t) x ys h.1,
    )
    | inr e ↦ rw e ((no_le t x y e, All-weaken x y ys (no_le t x y e) h.0), h)
  ]

  All-Back :
      (x : A) (front done : List A)
      → All (Back x) front
      → All (λ y. All (Le y) done) front
      → All (λ y. All (Le y) (x ∷ done)) front
  All-Back x [] done h k = tt
  All-Back x (y ∷ front) done h k = ((h.0, k.0), All-Back x front done h.1 k.1)

  reverse_onto-IsOrdered :
      (front done : List A)
      → IsOrdered Back front
      → IsOrdered Le done
      → All (λ y. All (Le y) done) front
      → IsOrdered Le (reverse_onto front done)
  unfolding reverse_onto
  reverse_onto-IsOrdered [] done h k a = k
  reverse_onto-IsOrdered (x ∷ xs) done h k a =
      reverse_onto-IsOrdered xs (x ∷ done) h.1 (a.0, k) (All-Back x xs done h.0 a.1)

  All-nil : (front : List A) → All (λ y. All (Le y) []) front
  All-nil [] = tt
  All-nil (x ∷ xs) = (tt, All-nil xs)

  sort_onto-IsOrdered :
      (t : ℕ) (front xs : List A) → IsOrdered Back front → IsOrdered Le (sort_onto less t front xs)
  unfolding sort_onto
  sort_onto-IsOrdered t front [] h = reverse_onto-IsOrdered front [] h tt (All-nil front)
  sort_onto-IsOrdered t front (x ∷ xs) h =
      let placed = insert_back less t x front in
      sort_onto-IsOrdered placed.1 placed.0 xs (insert_back-IsOrdered t x front h)

  -- If each answer of the comparison agrees with a transitive relation, however the ties fall,
  -- the sorted slice is in its order.
  pub sort_slice-IsOrdered : (xs : List A) → IsOrdered Le (sort_slice less xs)
  unfolding sort_slice
  sort_slice-IsOrdered xs = sort_onto-IsOrdered 0 [] xs tt

module _ {ℓ} {A : Type ℓ} (less : ℕ → A → A → Bool) (P : A → Type ℓ) where
  reverse_onto-All :
      (front done : List A) → All P front → All P done → All P (reverse_onto front done)
  unfolding reverse_onto
  reverse_onto-All [] done h k = k
  reverse_onto-All (x ∷ xs) done h k = reverse_onto-All xs (x ∷ done) h.1 (h.0, k)

  insert_back-All :
      (t : ℕ) (x : A) (ys : List A) → P x → All P ys → All P (insert_back less t x ys).0
  unfolding insert_back
  insert_back-All t x [] p h = (p, tt)
  insert_back-All t x (y ∷ ys) p h = elim (Bool-cases (less t x y)) [
    | inl e ↦ rw e (h.0, insert_back-All (suc t) x ys p h.1)
    | inr e ↦ rw e (p, h)
  ]

  sort_onto-All :
      (t : ℕ) (front xs : List A) → All P front → All P xs → All P (sort_onto less t front xs)
  unfolding sort_onto
  sort_onto-All t front [] h k = reverse_onto-All front [] h tt
  sort_onto-All t front (x ∷ xs) h k =
      let placed = insert_back less t x front in
      sort_onto-All placed.1 placed.0 xs (insert_back-All t x front k.0 h) k.1

  pub sort_slice-All : (xs : List A) → All P xs → All P (sort_slice less xs)
  unfolding sort_slice
  sort_slice-All xs h = sort_onto-All 0 [] xs tt h

module _ {ℓ κ} {A : Type ℓ} where
  All-drop : (P : A → Type κ) (n : ℕ) (xs : List A) → All P xs → All P (drop n xs)
  All-drop P zero xs h = h
  All-drop P (suc n) [] h = tt
  All-drop P (suc n) (x ∷ xs) h = All-drop P n xs h.1

  -- Each of the first elements may stand before each of the others.
  pub IsOrdered-split :
      (Le : A → A → Type κ) (n : ℕ) (xs : List A)
      → IsOrdered Le xs
      → All (λ a. All (Le a) (drop n xs)) (take n xs)
  IsOrdered-split Le zero xs h = tt
  IsOrdered-split Le (suc n) [] h = tt
  IsOrdered-split Le (suc n) (x ∷ xs) h = (All-drop (Le x) n xs h.0, IsOrdered-split Le n xs h.1)
