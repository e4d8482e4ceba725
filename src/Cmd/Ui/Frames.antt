-- ===== src/Cmd/Ui/Frames.antt =====
-- The frames of cmd/ui.go: every line of a header or a box is equally wide.
use pixtorrent.Prelude.{
  ℕ, ◌+◌, ◌-◌, ◌/◌, ◌≤◌, ◌<◌, Option, none, some, List, [], ◌∷◌, ◌++◌, Bytes, codes, length,
  replicate, ltb, if◌then◌else◌, ◌≡◌, refl, subst, arith, All, All-append, length-append,
  length-replicate, Bool-cases, inl, inr,
}
use pixtorrent.Prelude.Int.{pos, negsuc, sub_ℕ, ◌-ℤ◌}
use pixtorrent.Cmd.Ui.{
  space, dash, header_width, half, repeat, border, header_row, print_header, longest, box_rows,
  print_box,
}

-- The lines are all as wide as `n`.
abbrev pub AllWide : ℕ → List (List ℕ) → Type 0
AllWide n = All (λ row. length row ≡ n)

length-border : (left right width : ℕ) → length (border left right width) ≡ width + 4
length-border left right width =
    omega (arith, length-append (replicate width dash) (right ∷ []), length-replicate width dash)

repeat-pos : (c n : ℕ) → repeat c (pos n) ≡ some (replicate n c)
unfolding repeat
repeat-pos c n = refl

repeat-negsuc : (c n : ℕ) → repeat c (negsuc n) ≡ none
unfolding repeat
repeat-negsuc c n = refl

-- The two counts of a header, for a title that fits.
abbrev before : ℕ → ℕ
before len = (48 - len) / 2

padding_fits : (len : ℕ) → len ≤ 48 → half (sub_ℕ 50 len -ℤ pos 2) ≡ pos (before len)
unfolding ◌-ℤ◌
padding_fits len h = ground arith

rest_fits :
    (len : ℕ)
    → len ≤ 48
    → pos 50 -ℤ pos (before len) -ℤ pos len -ℤ pos 2 ≡ pos (48 - len - before len)
unfolding ◌-ℤ◌
rest_fits len h = ground arith

-- What `PrintHeader` should do with a title.
pub data IsHeaderOf (title : Bytes) : Option (List (List ℕ)) → Type 0 where
  framed :
      {rows : List (List ℕ)} → length title ≤ 48 → AllWide 54 rows → IsHeaderOf title (some rows)
  too_long : 48 < length title → IsHeaderOf title none

-- The row of a title that fits.
fitting_row : Bytes → List ℕ
fitting_row title =
    let n = before (length title) in
    codes "  "
    ++ 0x2502
      ∷ (replicate n space
          ++ space ∷ (title ++ space ∷ (replicate (48 - length title - n) space ++ 0x2502 ∷ [])))

header_row-fits : (title : Bytes) → length title ≤ 48 → header_row title ≡ some (fitting_row title)
unfolding header_row fitting_row
header_row-fits title h = rw (
  padding_fits (length title) h,
  repeat-pos space (before (length title)),
  rest_fits (length title) h,
  repeat-pos space (48 - length title - before (length title)),
)

length-fitting_row : (title : Bytes) → length title ≤ 48 → length (fitting_row title) ≡ 54
unfolding fitting_row
length-fitting_row title h =
    let n = before (length title) in
    let k = 48 - length title - n in
    omega (
      arith,
      length-append (replicate n space)
          (space ∷ (title ++ space ∷ (replicate k space ++ 0x2502 ∷ []))),
      length-append title (space ∷ (replicate k space ++ 0x2502 ∷ [])),
      length-append (replicate k space) (0x2502 ∷ []),
      length-replicate n space,
      length-replicate k space,
    )

header_row-long : (title : Bytes) → 48 < length title → header_row title ≡ none
unfolding header_row ◌-ℤ◌ repeat
header_row-long title h = ground arith

-- A header is a frame of three lines that are equally wide, for a title of at most 48 characters;
-- for a longer one the printing panics.
pub print_header-IsHeaderOf : (title : Bytes) → IsHeaderOf title (print_header title)
unfolding print_header
print_header-IsHeaderOf title = elim (Bool-cases (ltb 48 (length title))) [
  | inl e ↦
      let long : 48 < length title = ground arith in rw (header_row-long title long) (too_long long)
  | inr e ↦
      let short : length title ≤ 48 = ground arith in
      rw (header_row-fits title short) (
        framed short (
          length-border 0x256d 0x256e header_width,
          (length-fitting_row title short, (length-border 0x2570 0x256f header_width, tt)),
        ))
]

longest-All :
    (max_len : ℕ) (lines : List Bytes)
    → (max_len ≤ longest max_len lines) × All (λ l. length l ≤ longest max_len lines) lines
unfolding longest
longest-All max_len [] = (omega arith, tt)
longest-All max_len (line ∷ lines) =
    let rest = longest-All (if ltb max_len (length line) then length line else max_len) lines in
    (ground (arith, rest.0), (ground (arith, rest.0), rest.1))

-- A row of a box.
box_row : ℕ → Bytes → List ℕ
box_row width line =
    codes "  "
    ++ 0x2502 ∷ space ∷ (line ++ (replicate (width - length line - 2) space ++ space ∷ 0x2502 ∷ []))

length-box_row :
    (width : ℕ) (line : Bytes) → length line + 4 ≤ width → length (box_row width line) ≡ width + 4
unfolding box_row
length-box_row width line h =
    let k = width - length line - 2 in
    omega (
      arith,
      length-append line (replicate k space ++ space ∷ 0x2502 ∷ []),
      length-append (replicate k space) (space ∷ 0x2502 ∷ []),
      length-replicate k space,
    )

box_padding : (width len : ℕ) → len + 4 ≤ width → sub_ℕ width len -ℤ pos 2 ≡ pos (width - len - 2)
unfolding ◌-ℤ◌
box_padding width len h = ground arith

box_rows-AllWide :
    (width : ℕ) (lines : List Bytes)
    → All (λ l. length l + 4 ≤ width) lines
    → (rows : List (List ℕ)) × (box_rows width lines ≡ some rows) × AllWide (width + 4) rows
unfolding box_rows box_row
box_rows-AllWide width [] h = ([], refl, tt)
box_rows-AllWide width (line ∷ lines) h =
    let (rows, e, wide) = box_rows-AllWide width lines h.1 in
    (
      box_row width line ∷ rows,
      rw (box_padding width (length line) h.0, repeat-pos space (width - length line - 2), e),
      (length-box_row width line h.0, wide),
    )

fits_width :
    (m : ℕ) (lines : List Bytes)
    → All (λ l. length l ≤ m) lines
    → All (λ l. length l + 4 ≤ m + 4) lines
fits_width m [] h = tt
fits_width m (line ∷ lines) h = (omega (arith, h.0), fits_width m lines h.1)

-- A box never panics: its lines are all eight characters wider than the longest of the given ones.
pub print_box-AllWide :
    (lines : List Bytes)
    → (rows : List (List ℕ)) × (print_box lines ≡ some rows) × AllWide (longest 0 lines + 8) rows
unfolding print_box
print_box-AllWide lines =
    let m = longest 0 lines in
    let (rows, e, wide) =
      box_rows-AllWide (m + 4) lines (fits_width m lines (longest-All 0 lines).1) in
    let top : length (border 0x250c 0x2510 (m + 4)) ≡ m + 8 =
      omega (arith, length-border 0x250c 0x2510 (m + 4)) in
    let bottom : length (border 0x2514 0x2518 (m + 4)) ≡ m + 8 =
      omega (arith, length-border 0x2514 0x2518 (m + 4)) in
    (
      border 0x250c 0x2510 (m + 4) ∷ (rows ++ border 0x2514 0x2518 (m + 4) ∷ []),
      rw (e, print_box),
      (
        top,
        All-append (λ row. length row ≡ m + 8) rows (border 0x2514 0x2518 (m + 4) ∷ [])
            (subst (λ n. AllWide n rows) (omega arith) wide) (bottom, tt),
      ),
    )
