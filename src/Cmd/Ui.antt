-- ===== src/Cmd/Ui.antt =====
-- cmd/ui.go: the functions that compute what they print. A text is its visible characters: colour
-- codes and blank lines are left out, and titles are ASCII. `strings.Repeat` panics on a negative
-- count, as an index out of range does: both are `none`.
pub mod Sizes
pub mod Frames
use pixtorrent.Prelude.{
  ℕ, zero, suc, ◌+◌, ◌*◌, ◌/◌, ◌%◌, ◌^◌, Option, none, some, List, [], ◌∷◌, ◌++◌, map, Bytes, codes,
  length, get_elem?, replicate, ltb, if◌then◌else◌,
}
use pixtorrent.Prelude.Int.{ℤ, pos, negsuc, ltb_ℤ, sub_ℕ, ◌-ℤ◌}
use pixtorrent.Meta.Torrent.{chain}

-- What `FormatBytes` shows: a number of bytes, or bytes divided by a unit with the unit's letter.
pub data Size : Type 0 where
  whole : ℤ → Size
  scaled : ℕ → ℕ → ℕ → Size

abbrev pub units : Bytes
units = codes "KMGTPE"

-- The loop; `fuel` bounds its rounds, and `div` is an int64.
unfoldable pub scale : ℕ → ℕ → ℕ → ℕ → Option (ℕ × ℕ)
scale zero n div exp = none
scale (suc fuel) n div exp =
    let more = scale fuel (n / 1024) (div * 1024 % 2 ^ 64) (suc exp) in
    if ltb n 1024 then some (div, exp) else more

-- Seven rounds are enough for an int64.
unfoldable pub format_bytes : ℤ → Option Size
unfolding scale
format_bytes (negsuc n) = some (whole (negsuc n))
format_bytes (pos n) =
    if ltb n 1024
    then some (whole (pos n))
    else chain (scale 7 (n / 1024) 1024 0)
        (λ r. chain (get_elem? units r.1) (λ letter. some (scaled n r.0 letter)))

-- `strings.Repeat` of one character.
unfoldable pub repeat : ℕ → ℤ → Option (List ℕ)
repeat c (pos n) = some (replicate n c)
repeat c (negsuc n) = none

-- Division by two, towards zero.
abbrev pub half : ℤ → ℤ
half (pos n) = pos (n / 2)
half (negsuc n) = sub_ℕ 0 (suc n / 2)

abbrev pub space : ℕ
space = 0x20

abbrev pub dash : ℕ
dash = 0x2500

abbrev pub header_width : ℕ
header_width = 50

-- The line between the borders of `PrintHeader`.
unfoldable pub header_row : Bytes → Option (List ℕ)
header_row title =
    let padding = half (sub_ℕ header_width (length title) -ℤ pos 2) in
    chain (repeat space padding) (λ before.
      chain (repeat space (pos header_width -ℤ padding -ℤ pos (length title) -ℤ pos 2)) (λ after.
        some
          (codes "  " ++ 0x2502 ∷ (before ++ space ∷ (title ++ space ∷ (after ++ 0x2502 ∷ []))))))

-- A border of some width with its corners.
abbrev pub border : ℕ → ℕ → ℕ → List ℕ
border left right width = codes "  " ++ left ∷ (replicate width dash ++ right ∷ [])

unfoldable pub print_header : Bytes → Option (List (List ℕ))
unfolding header_row
print_header title =
    chain (header_row title) (λ row.
      some (border 0x256d 0x256e header_width ∷ row ∷ border 0x2570 0x256f header_width ∷ []))

-- The loop for the longest line.
unfoldable pub longest : ℕ → List Bytes → ℕ
longest max_len [] = max_len
longest max_len (line ∷ lines) =
    longest (if ltb max_len (length line) then length line else max_len) lines

unfoldable pub box_rows : ℕ → List Bytes → Option (List (List ℕ))
box_rows width [] = some []
box_rows width (line ∷ lines) =
    let rest = box_rows width lines in
    chain (repeat space (sub_ℕ width (length line) -ℤ pos 2)) (λ padding. chain rest (λ rows.
      some ((codes "  " ++ 0x2502 ∷ space ∷ (line ++ (padding ++ space ∷ 0x2502 ∷ []))) ∷ rows)))

unfoldable pub print_box : List Bytes → Option (List (List ℕ))
unfolding longest box_rows
print_box lines =
    let width = longest 0 lines + 4 in
    chain (box_rows width lines)
      (λ rows. some (border 0x250c 0x2510 width ∷ (rows ++ border 0x2514 0x2518 width ∷ [])))
