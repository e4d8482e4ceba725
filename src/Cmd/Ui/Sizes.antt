-- ===== src/Cmd/Ui/Sizes.antt =====
-- `FormatBytes` of cmd/ui.go.
use pixtorrent.Prelude.{
  ℕ, suc, ◌*◌, ◌/◌, ◌^◌, ◌≤◌, ◌<◌, true, some, get_or, ltb, ◌≡◌, refl, arith, Bool-cases, inl, inr,
}
use pixtorrent.Prelude.Int.{ℤ, pos, negsuc, ltb_ℤ, IsInt64}
use pixtorrent.Cmd.Ui.{Size, whole, scaled, units, scale, format_bytes}

-- What a size should be: bytes below 1024 as they are, and others by the greatest unit that fits.
pub data IsSizeOf (b : ℤ) : Size → Type 0 where
  small : ltb_ℤ b (pos 1024) ≡ true → IsSizeOf b (whole b)
  by_unit :
      (n e : ℕ)
      → b ≡ pos n
      → e < 6
      → 1024 ^ suc e ≤ n
      → n < 1024 * 1024 ^ suc e
      → IsSizeOf b (scaled n (1024 ^ suc e) (get_or units e 0))

-- A number of bytes is shown by the greatest unit that fits: for every int64 the loop ends within
-- its rounds, and the unit's letter is one of the six.
pub format_bytes-IsSizeOf :
    (b : ℤ) → IsInt64 b → (s : Size) × (format_bytes b ≡ some s) × IsSizeOf b s
unfolding format_bytes scale
format_bytes-IsSizeOf (negsuc n) h = (whole (negsuc n), refl, small (ground arith))
format_bytes-IsSizeOf (pos n) h = elim (Bool-cases (ltb n 1024)) [
  | inl e0 ↦ (whole (pos n), rw e0, small (ground arith))
  | inr e0 ↦ elim (Bool-cases (ltb (n / 1024) 1024)) [
    | inl e1 ↦ (
      scaled n (1024 ^ 1) (get_or units 0 0),
      rw (e0, e1, scale),
      by_unit n 0 refl (omega arith) (ground arith) (ground arith),
    )
    | inr e1 ↦ elim (Bool-cases (ltb (n / 1024 / 1024) 1024)) [
      | inl e2 ↦ (
        scaled n (1024 ^ 2) (get_or units 1 0),
        rw (e0, e1, e2, scale),
        by_unit n 1 refl (omega arith) (ground arith) (ground arith),
      )
      | inr e2 ↦ elim (Bool-cases (ltb (n / 1024 / 1024 / 1024) 1024)) [
        | inl e3 ↦ (
          scaled n (1024 ^ 3) (get_or units 2 0),
          rw (e0, e1, e2, e3, scale),
          by_unit n 2 refl (omega arith) (ground arith) (ground arith),
        )
        | inr e3 ↦ elim (Bool-cases (ltb (n / 1024 / 1024 / 1024 / 1024) 1024)) [
          | inl e4 ↦ (
            scaled n (1024 ^ 4) (get_or units 3 0),
            rw (e0, e1, e2, e3, e4, scale),
            by_unit n 3 refl (omega arith) (ground arith) (ground arith),
          )
          | inr e4 ↦ elim (Bool-cases (ltb (n / 1024 / 1024 / 1024 / 1024 / 1024) 1024)) [
            | inl e5 ↦ (
              scaled n (1024 ^ 5) (get_or units 4 0),
              rw (e0, e1, e2, e3, e4, e5, scale),
              by_unit n 4 refl (omega arith) (ground arith) (ground arith),
            )
            | inr e5 ↦
                let e6 : ltb (n / 1024 / 1024 / 1024 / 1024 / 1024 / 1024) 1024 ≡ true =
                  ground arith in
                (
                  scaled n (1024 ^ 6) (get_or units 5 0),
                  rw (e0, e1, e2, e3, e4, e5, e6, scale),
                  by_unit n 5 refl (omega arith) (ground arith) (ground arith),
                )
          ]
        ]
      ]
    ]
  ]
]
