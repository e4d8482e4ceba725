-- ===== src/P2p/Wire/Writer.antt =====
-- `writeLoop` of p2p/tcp_transport.go: the goroutine that takes frames from the outbox of a peer. What
-- the socket makes of each `Write` is a list, in order; a loop that finds the list at its end waits.
pub mod Delivery
use pixtorrent.Prelude.{ℕ, List, [], ◌∷◌, ◌++◌, Bytes, take, drop}

-- A `Write` takes a number of bytes, and may give an error.
pub data Write : Type 0 where
  wrote : ℕ → Write
  broken : ℕ → Write

-- How far the loop came: through what it had, with the writes to come; to an error, which ends the
-- goroutine; or into a frame, with its bytes to write.
pub data Progress : Type 0 where
  finished : List Write → Progress
  ended : Progress
  waiting : Bytes → Progress

-- The inner loop, on the bytes `buf[tot:]`: what reaches the network, and how far it came.
unfoldable pub write_frame : List Write → Bytes → Bytes × Progress
write_frame [] [] = ([], finished [])
write_frame (w ∷ ws) [] = ([], finished (w ∷ ws))
write_frame [] (b ∷ buf) = ([], waiting (b ∷ buf))
write_frame (broken n ∷ ws) (b ∷ buf) = (take n (b ∷ buf), ended)
write_frame (wrote n ∷ ws) (b ∷ buf) =
    let rest = write_frame ws (drop n (b ∷ buf)) in (take n (b ∷ buf) ++ rest.0, rest.1)

-- What follows a frame that is written whole.
abbrev pub and_on : Bytes × Progress → (List Write → Bytes × Progress) → Bytes × Progress
and_on (sent, finished ws) next = let rest = next ws in (sent ++ rest.0, rest.1)
and_on (sent, ended) next = (sent, ended)
and_on (sent, waiting left) next = (sent, waiting left)

-- The outer loop over the frames of the outbox.
unfoldable pub write_loop : List Write → List Bytes → Bytes × Progress
unfolding write_frame
write_loop ws [] = ([], finished ws)
write_loop ws (buf ∷ outbox) = and_on (write_frame ws buf) (λ ws'. write_loop ws' outbox)
