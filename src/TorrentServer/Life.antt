-- ===== src/TorrentServer/Life.antt =====
-- `Start` and `Stop` of torrent_server/server.go around the main loop. `Stop` closes the channel
-- `quitch`, which panics if it is closed already; the sleeps are left out.
use pixtorrent.Prelude.{
  Bool, true, false, not, Option, none, some, List, Bytes, if◌then◌else◌, ◌≢◌, ◌≡◌, ◌↔◌, refl,
}
use pixtorrent.Client.{Answer, answered, failed, panicked, unfinished, ClientError}
use pixtorrent.TorrentServer.{TorrentServer, Result}
use pixtorrent.TorrentServer.Events.{Event, loop}

-- Whether `quitch` is closed, behind a `Stop`.
unfoldable pub stop : Bool → Option Bool
stop false = some true
stop true = none

-- How `Start` ends: with an error, by returning, or by a panic, with what the loop has done.
pub data Exit (Rate : Type 0) : Type 0 where
  no_listener : Exit Rate
  no_peers : ClientError → Exit Rate
  returned : Result Rate → Exit Rate
  crashed : Exit Rate
  crashed_behind : Result Rate → Exit Rate

module _ {Rate : Type 0} where
  -- The end of the loop is the deferred `Stop`; the loop ends only when `quitch` is closed.
  unfoldable pub leave_loop : Option Bool → Result Rate → Exit Rate
  unfolding stop
  leave_loop none done = crashed_behind done
  leave_loop (some quit) done = elim (stop quit) [
    | none ↦ crashed_behind done
    | some closed ↦ returned done
  ]

  -- `Start`: whether the transport listens, how the bootstrap ends, and the events until another
  -- goroutine calls `Stop`.
  unfoldable pub start :
      Bool → Answer (List Bytes) → List (Event Rate) → TorrentServer Rate → Exit Rate
  unfolding loop leave_loop
  start listens bootstrap events ts = if not listens then no_listener else elim bootstrap [
    | answered nodes ↦ leave_loop (stop false) (loop events ts)
    | failed e ↦ no_peers e
    | panicked ↦ crashed
    | unfinished ↦ crashed
  ]

  -- A server that listens and has its peers runs its loop over the events until another goroutine
  -- stops it, and then panics: the deferred `Stop` closes the closed channel. It ends so exactly if it
  -- listens and its announce is answered, and it never returns without an error.
  pub start_lem :
      (listens : Bool) (bootstrap : Answer (List Bytes)) (events : List (Event Rate))
      (ts : TorrentServer Rate)
      → ((nodes : List Bytes)
          → start true (answered nodes) events ts ≡ crashed_behind (loop events ts))
        × (((done : Result Rate) × (start listens bootstrap events ts ≡ crashed_behind done))
            ↔ ((listens ≡ true) × ((nodes : List Bytes) × (bootstrap ≡ answered nodes))))
        × ((done : Result Rate) → start listens bootstrap events ts ≢ returned done)
  unfolding start leave_loop stop
  start_lem listens bootstrap events ts = (
    λ nodes. refl,
    (crashed_why listens bootstrap, λ (up, (nodes, known)). (loop events ts, rw (up, known) refl)),
    λ done e. never listens bootstrap e,
  )
    where
      crashed_why :
          (listens : Bool) (bootstrap : Answer (List Bytes))
          → ((done : Result Rate) × (start listens bootstrap events ts ≡ crashed_behind done))
          → (listens ≡ true) × ((nodes : List Bytes) × (bootstrap ≡ answered nodes))
      crashed_why true (answered nodes) h = (refl, (nodes, refl))
      crashed_why false bootstrap (done, e) = cc
      crashed_why true (failed err) (done, e) = cc
      crashed_why true panicked (done, e) = cc
      crashed_why true unfinished (done, e) = cc

      never :
          (listens : Bool) (bootstrap : Answer (List Bytes)) {done : Result Rate}
          → start listens bootstrap events ts ≡ returned done
          → ⊥
      never false bootstrap e = cc
      never true (answered nodes) e = cc
      never true (failed err) e = cc
      never true panicked e = cc
      never true unfinished e = cc
