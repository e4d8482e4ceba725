-- ===== src/Meta/Bencode/Fuel.antt =====
-- The fuel of the decoder of meta/bencode.go is enough: it ends on every input.
use pixtorrent.Prelude.{
  ℕ, zero, suc, ◌+◌, ◌*◌, ◌≤◌, Option, none, some, [], ◌∷◌, Bytes, length, ◌≡◌, refl, arith,
  length-drop, Option-cases, inl, inr,
}
use pixtorrent.Prelude.Int.{ℤ, pos, negsuc}
use pixtorrent.Meta.Bencode.{
  Node, Fields, Kind, int, string, list, dict, end, other, kind_of, Result, ok, fail, panic,
  out_of_fuel, and_then, read_until, sscanf_int, parse_int, read_content, parse_string, decode_node,
  parse_list, parse_dict, decode_at, fuel_for, decode, byte_e, colon, bint, bstring, blist, bdict,
  node, write_field,
}

-- A result that came without want of fuel, and has read on to at most `n` bytes from the end.
abbrev pub Settled : {A : Type 0} → ℕ → Result A → Type 0
Settled n (ok a s) = length s ≤ n
Settled n fail = Unit
Settled n panic = Unit
Settled n out_of_fuel = ⊥

and_then-Settled :
    {A B : Type 0} (n k : ℕ) (r : Result A) (f : A → Bytes → Result B)
    → Settled n r
    → ((a : A) (s : Bytes) → length s ≤ n → Settled k (f a s))
    → Settled k (and_then r f)
and_then-Settled n k (ok a s) f h g = g a s h
and_then-Settled n k fail f h g = tt
and_then-Settled n k panic f h g = tt
and_then-Settled n k out_of_fuel f h g = h

abbrev Shorter : ℕ → Option (Bytes × Bytes) → Type 0
Shorter n none = Unit
Shorter n (some r) = length r.1 ≤ n

read_until-Shorter : (mark : ℕ) (s : Bytes) → Shorter (length s) (read_until mark s)
unfolding read_until
read_until-Shorter mark [] = tt
read_until-Shorter mark (c ∷ s) = ground (arith, read_until-Shorter mark s)

parse_int-Settled : (s : Bytes) → Settled (length s) (parse_int s)
unfolding parse_int
parse_int-Settled s = ground (arith, read_until-Shorter byte_e s)

read_content-Settled :
    (max_make : ℕ) (i : ℤ) (s : Bytes) → Settled (length s) (read_content max_make i s)
unfolding read_content
read_content-Settled max_make (negsuc n) s = tt
read_content-Settled max_make (pos n) s = ground (arith, length-drop n s)

le-Settled : {A : Type 0} (n k : ℕ) (r : Result A) → n ≤ k → Settled n r → Settled k r
le-Settled n k (ok a s) le h = omega arith
le-Settled n k fail le h = tt
le-Settled n k panic le h = tt
le-Settled n k out_of_fuel le h = h

parse_string-Settled : (max_make c : ℕ) (s : Bytes) → Settled (length s) (parse_string max_make c s)
unfolding parse_string
parse_string-Settled max_make c s = elim (Option-cases (read_until colon s)) [
  | inl e ↦ rw (e, parse_string) tt
  | inr (r, e) ↦ elim (Option-cases (sscanf_int (c ∷ r.0))) [
    | inl bad ↦ rw (e, bad, parse_string) tt
    | inr (n, good) ↦
        rw (e, good, parse_string)
          (le-Settled (length r.1) (length s) _ (rw e at (read_until-Shorter colon s))
            (read_content-Settled max_make n r.1))
  ]
]

module _ (fuel max_make c : ℕ) (s : Bytes) where
  node-Settled :
      Settled (length s) (parse_list fuel max_make s)
      → Settled (length s) (parse_dict fuel max_make s)
      → Settled (length s) (decode_node (suc fuel) max_make c s)
  unfolding decode_node
  node-Settled l d = go (kind_of c) refl
    where
      n : ℕ
      n = length s

      go : (k : Kind) → kind_of c ≡ k → Settled n (decode_node (suc fuel) max_make c s)
      go int e =
          rw (e, decode_node)
            (and_then-Settled n n (parse_int s) (λ i t. ok (bint i) t) (parse_int-Settled s)
              (λ i t h. h))
      go string e =
          rw (e, decode_node)
            (and_then-Settled n n (parse_string max_make c s) (λ str t. ok (bstring str) t)
              (parse_string-Settled max_make c s) (λ str t h. h))
      go list e =
          rw (e, decode_node)
            (and_then-Settled n n (parse_list fuel max_make s) (λ nodes t. ok (blist nodes) t) l
              (λ nodes t h. h))
      go dict e =
          rw (e, decode_node)
            (and_then-Settled n n (parse_dict fuel max_make s) (λ pairs t. ok (bdict pairs) t) d
              (λ pairs t h. h))
      go end e = rw (e, decode_node) tt
      go other e = rw (e, decode_node) tt

  list-Settled :
      Settled (length s) (decode_node fuel max_make c s)
      → ((t : Bytes) → length t ≤ length s → Settled (length t) (parse_list fuel max_make t))
      → Settled (suc (length s)) (parse_list (suc fuel) max_make (c ∷ s))
  unfolding parse_list
  list-Settled first others = go (kind_of c) refl
    where
      n : ℕ
      n = length s

      step : Settled (suc n) (
          and_then
            (decode_node fuel max_make c s)
            (λ v t. and_then (parse_list fuel max_make t) (λ nodes u. ok (node v nodes) u)))
      step =
          and_then-Settled n (suc n) (decode_node fuel max_make c s)
            (λ v t. and_then (parse_list fuel max_make t) (λ nodes u. ok (node v nodes) u)) first
            (λ v t h.
              and_then-Settled (length t) (suc n) (parse_list fuel max_make t)
                (λ nodes u. ok (node v nodes) u) (others t h) (λ nodes u k. omega arith))

      go : (k : Kind) → kind_of c ≡ k → Settled (suc n) (parse_list (suc fuel) max_make (c ∷ s))
      go int e = rw (e, parse_list) step
      go string e = rw (e, parse_list) step
      go list e = rw (e, parse_list) step
      go dict e = rw (e, parse_list) step
      go end e = rw (e, parse_list) (omega arith)
      go other e = rw (e, parse_list) tt

  dict-Settled :
      ((t : Bytes) → length t ≤ length s → Settled (length t) (decode_at fuel max_make t))
      → ((t : Bytes) → length t ≤ length s → Settled (length t) (parse_dict fuel max_make t))
      → Settled (suc (length s)) (parse_dict (suc fuel) max_make (c ∷ s))
  unfolding parse_dict
  dict-Settled value others = go (kind_of c) refl
    where
      n : ℕ
      n = length s

      rest : Bytes → Node → Bytes → Result Fields
      rest key v u =
          and_then (parse_dict fuel max_make u) (λ pairs w. ok (write_field key v pairs) w)

      step : Settled (suc n) (
          and_then
            (parse_string max_make c s)
            (λ key t. and_then (decode_at fuel max_make t) (rest key)))
      step =
          and_then-Settled n (suc n) (parse_string max_make c s)
            (λ key t. and_then (decode_at fuel max_make t) (rest key))
            (parse_string-Settled max_make c s)
            (λ key t h.
              and_then-Settled (length t) (suc n) (decode_at fuel max_make t) (rest key) (value t h)
                (λ v u k.
                  and_then-Settled (length u) (suc n) (parse_dict fuel max_make u)
                    (λ pairs w. ok (write_field key v pairs) w) (others u (omega arith))
                    (λ pairs w q. omega arith)))

      go : (k : Kind) → kind_of c ≡ k → Settled (suc n) (parse_dict (suc fuel) max_make (c ∷ s))
      go string e = rw (e, parse_dict) step
      go end e = rw (e, parse_dict) (omega arith)
      go int e = rw (e, parse_dict) tt
      go list e = rw (e, parse_dict) tt
      go dict e = rw (e, parse_dict) tt
      go other e = rw (e, parse_dict) tt

mutual
  unfolding decode_node parse_list parse_dict decode_at

  pub decode_node-Settled :
      (fuel max_make c : ℕ) (s : Bytes)
      → 2 * length s + 2 ≤ fuel
      → Settled (length s) (decode_node fuel max_make c s)
  decode_node-Settled zero max_make c s h = absurd (omega arith)
  decode_node-Settled (suc fuel) max_make c s h =
      node-Settled fuel max_make c s (parse_list-Settled fuel max_make s (omega arith))
        (parse_dict-Settled fuel max_make s (omega arith))

  pub parse_list-Settled :
      (fuel max_make : ℕ) (s : Bytes)
      → 2 * length s + 1 ≤ fuel
      → Settled (length s) (parse_list fuel max_make s)
  parse_list-Settled zero max_make s h = absurd (omega arith)
  parse_list-Settled (suc fuel) max_make [] h = tt
  parse_list-Settled (suc fuel) max_make (c ∷ s) h =
      list-Settled fuel max_make c s (decode_node-Settled fuel max_make c s (omega arith))
        (λ t k. parse_list-Settled fuel max_make t (omega arith))

  pub parse_dict-Settled :
      (fuel max_make : ℕ) (s : Bytes)
      → 2 * length s + 1 ≤ fuel
      → Settled (length s) (parse_dict fuel max_make s)
  parse_dict-Settled zero max_make s h = absurd (omega arith)
  parse_dict-Settled (suc fuel) max_make [] h = tt
  parse_dict-Settled (suc fuel) max_make (c ∷ s) h =
      dict-Settled fuel max_make c s (λ t k. decode_at-Settled fuel max_make t (omega arith))
        (λ t k. parse_dict-Settled fuel max_make t (omega arith))

  pub decode_at-Settled :
      (fuel max_make : ℕ) (s : Bytes)
      → 2 * length s + 1 ≤ fuel
      → Settled (length s) (decode_at fuel max_make s)
  decode_at-Settled zero max_make s h = absurd (omega arith)
  decode_at-Settled (suc fuel) max_make [] h = tt
  decode_at-Settled (suc fuel) max_make (c ∷ s) h =
      le-Settled (length s) (suc (length s)) (decode_node fuel max_make c s) (omega arith)
        (decode_node-Settled fuel max_make c s (omega arith))

-- The decoder ends on every input, with a value, an error or a panic, and never asks for more fuel
-- than it gets; a value leaves no more bytes than there were.
pub decode-Settled : (max_make : ℕ) (input : Bytes) → Settled (length input) (decode max_make input)
unfolding decode
decode-Settled max_make input =
    decode_at-Settled (fuel_for (length input)) max_make input (omega arith)
