-- ===== src/Tests/Cmd.antt =====
-- cmd/ui.go at small inputs.
use pixtorrent.Prelude.{some, ◌≡◌, refl, arith}
use pixtorrent.Prelude.Int.{pos}
use pixtorrent.Cmd.Ui.{Size, scaled, scale, format_bytes}
use pixtorrent.Cmd.Ui.Sizes.{IsSizeOf, format_bytes-IsSizeOf}

format_bytes-IsSizeOf_example :
    (s : Size) × (format_bytes (pos 5_000_000) ≡ some s) × IsSizeOf (pos 5_000_000) s
format_bytes-IsSizeOf_example = format_bytes-IsSizeOf (pos 5_000_000) (omega arith)

-- Five million bytes are shown in MB.
format_bytes_run : format_bytes (pos 5_000_000) ≡ some (scaled 5_000_000 1_048_576 0x4d)
unfolding format_bytes scale
format_bytes_run = refl
