-- ===== src/Prelude/Maps.antt =====
-- Go maps as association lists without repeated keys. The order of a list stands for the order
-- in which one `range` over the map meets its entries.
use Prim.Native.Nat.{suc}
use mathlib.Core.Path.{◌≡◌, refl, sym, subst, subst₂, ◌∙◌}
use mathlib.Core.Logic.{◌≢◌, ite, if_pos, if_neg}
use mathlib.Core.List.{List, [], ◌∷◌, map}
use mathlib.Core.Option.{Option, none, some}
use native.Mathlib.Omega.{arith}
use pixtorrent.Prelude.Lists.{length, All}
use pixtorrent.Prelude.Tests.{is_some, if◌then◌else◌}

abbrev pub Map {ℓ} : Type ℓ → Type ℓ → Type ℓ
Map K V = List (K × V)

abbrev pub keys {ℓ} : {K V : Type ℓ} → Map K V → List K
keys = map (λ e. e.0)

module _ {ℓ} {K V : Type ℓ} (dec : Discrete K) where
  -- `m[k]`
  unfoldable pub get : K → Map K V → Option V
  get k [] = none
  get k ((j, v) ∷ m) = ite (dec k j) (some v) (get k m)

  -- `m[k] = v`
  unfoldable pub put : K → V → Map K V → Map K V
  put k v [] = (k, v) ∷ []
  put k v ((j, w) ∷ m) = ite (dec k j) ((j, v) ∷ m) ((j, w) ∷ put k v m)

  -- `delete(m, k)`
  unfoldable pub delete : K → Map K V → Map K V
  delete k [] = []
  delete k ((j, w) ∷ m) = ite (dec k j) (delete k m) ((j, w) ∷ delete k m)

  abbrev pub IsAbsent : K → Map K V → Type ℓ
  IsAbsent k = All (λ e. k ≢ e.0)

  -- No key stands twice.
  abbrev pub IsMap : Map K V → Type ℓ
  IsMap [] = Unit
  IsMap ((k, v) ∷ m) = IsAbsent k m × IsMap m

  pub get-put :
      (k q : K) (v : V) (m : Map K V) → get q (put k v m) ≡ ite (dec q k) (some v) (get q m)
  unfolding get put
  get-put k q v [] = refl
  get-put k q v ((j, w) ∷ m) = ground (arith, get-put k q v m)

  pub get-put_self : (k : K) (v : V) (m : Map K V) → get k (put k v m) ≡ some v
  get-put_self k v m = ground (arith, get-put k k v m)

  pub get-put_ne : (k q : K) (v : V) (m : Map K V) → q ≢ k → get q (put k v m) ≡ get q m
  get-put_ne k q v m ne = ground (arith, get-put k q v m)

  pub get-delete : (k q : K) (m : Map K V) → get q (delete k m) ≡ ite (dec q k) none (get q m)
  unfolding get delete
  get-delete k q [] = ground arith
  get-delete k q ((j, w) ∷ m) = ground (arith, get-delete k q m)

  pub length-put :
      (k : K) (v : V) (m : Map K V)
      → length (put k v m) ≡ (if is_some (get k m) then length m else suc (length m))
  unfolding get put
  length-put k v [] = refl
  length-put k v ((j, w) ∷ m) = ground (arith, length-put k v m)

  pub get-IsAbsent : (k : K) (m : Map K V) → get k m ≡ none → IsAbsent k m
  unfolding get
  get-IsAbsent k [] h = tt
  get-IsAbsent k ((j, w) ∷ m) h = ground (arith, get-IsAbsent k m (ground arith))

  pub none_of_IsAbsent : (k : K) (m : Map K V) → IsAbsent k m → get k m ≡ none
  unfolding get
  none_of_IsAbsent k [] h = refl
  none_of_IsAbsent k ((j, w) ∷ m) h = ground (arith, none_of_IsAbsent k m h.1)

  IsAbsent-put : (k q : K) (v : V) (m : Map K V) → q ≢ k → IsAbsent q m → IsAbsent q (put k v m)
  unfolding put
  IsAbsent-put k q v [] ne h = (ne, tt)
  IsAbsent-put k q v ((j, w) ∷ m) ne h = ground (arith, IsAbsent-put k q v m ne h.1)

  pub put-IsMap : (k : K) (v : V) (m : Map K V) → IsMap m → IsMap (put k v m)
  unfolding put
  put-IsMap k v [] h = (tt, tt)
  put-IsMap k v ((j, w) ∷ m) h = elim (dec k j) [
    | yes e ↦ rw (if_pos _ e) h
    | no ne ↦ rw (if_neg _ ne) (IsAbsent-put k j v m (λ e. ne (sym e)) h.0, put-IsMap k v m h.1)
  ]

  IsAbsent-delete : (k q : K) (m : Map K V) → IsAbsent q m → IsAbsent q (delete k m)
  unfolding delete
  IsAbsent-delete k q [] h = tt
  IsAbsent-delete k q ((j, w) ∷ m) h = ground (arith, IsAbsent-delete k q m h.1)

  pub delete-IsMap : (k : K) (m : Map K V) → IsMap m → IsMap (delete k m)
  unfolding delete
  delete-IsMap k [] h = tt
  delete-IsMap k ((j, w) ∷ m) h = elim (dec k j) [
    | yes e ↦ rw (if_pos _ e) (delete-IsMap k m h.1)
    | no ne ↦ rw (if_neg _ ne) (IsAbsent-delete k j m h.0, delete-IsMap k m h.1)
  ]

  -- A property of the entries of a map, kept by its operations.
  pub All-put {κ} :
      (P : K × V → Type κ) (k : K) (v : V) (m : Map K V) → P (k, v) → All P m → All P (put k v m)
  unfolding put
  All-put P k v [] p h = (p, tt)
  All-put P k v ((j, w) ∷ m) p h = elim (dec k j) [
    | yes e ↦ rw (if_pos _ e) (subst (λ x. P (x, v)) e p, h.1)
    | no ne ↦ rw (if_neg _ ne) (h.0, All-put P k v m p h.1)
  ]

  pub All-delete {κ} : (P : K × V → Type κ) (k : K) (m : Map K V) → All P m → All P (delete k m)
  unfolding delete
  All-delete P k [] h = tt
  All-delete P k ((j, w) ∷ m) h = elim (dec k j) [
    | yes e ↦ rw (if_pos _ e) (All-delete P k m h.1)
    | no ne ↦ rw (if_neg _ ne) (h.0, All-delete P k m h.1)
  ]

  pub All-get {κ} :
      (P : K × V → Type κ) (k : K) (m : Map K V) {v : V} → All P m → get k m ≡ some v → P (k, v)
  unfolding get
  All-get P k [] h e = cc
  All-get P k ((j, w) ∷ m) {v} h e = elim (dec k j) [
    | yes p ↦ subst₂ (λ x y. P (x, y)) (sym p) (ground arith) h.0
    | no ne ↦ All-get P k m h.1 (ground arith)
  ]

  pub entries_of_get {κ} :
      (P : K × V → Type κ) (m : Map K V)
      → IsMap m
      → ((k : K) (v : V) → get k m ≡ some v → P (k, v))
      → All P m
  unfolding get
  entries_of_get P [] h f = tt
  entries_of_get P ((j, w) ∷ m) h f = (
    f j w (if_pos (dec j j) refl _ _),
    entries_of_get P m h.1 λ k v e. elim (dec k j) [
      | yes same ↦ absurd (ground (arith, none_of_IsAbsent j m h.0))
      | no ne ↦ f k v (if_neg (dec k j) ne _ _ ∙ e)
    ],
  )
