-- ===== src/P2p/PeerState.antt =====
-- p2p/peer_state.go: what a node knows of one connection. `Rate` stands for the float64 rates;
-- the operations on them are arguments where they are used. Times are nanoseconds.
use pixtorrent.Prelude.{ℕ, ◌-◌, Bool, true, false, ltb, if◌then◌else◌}
use pixtorrent.Prelude.Int.{ℤ, pos, ◌+ℤ◌, ◌-ℤ◌, wrap64}

pub record PeerState (Rate : Type 0) : Type 0 where
  pub am_choking : Bool
  pub am_interested : Bool
  pub peer_choking : Bool
  pub peer_interested : Bool
  pub uploaded : ℤ
  pub downloaded : ℤ
  pub upload_rate : Rate
  pub download_rate : Rate
  pub last_stat_time : ℕ
  pub last_uploaded : ℤ
  pub last_downloaded : ℤ

module _ {Rate : Type 0} where
  -- `zero` is the rate 0.0 that a new struct holds.
  unfoldable pub new_peer_state : Rate → ℕ → PeerState Rate
  new_peer_state zero now = record {
    am_choking = true;
    am_interested = false;
    peer_choking = true;
    peer_interested = false;
    uploaded = pos 0;
    downloaded = pos 0;
    upload_rate = zero;
    download_rate = zero;
    last_stat_time = now;
    last_uploaded = pos 0;
    last_downloaded = pos 0;
  }

  unfoldable pub set_am_choking : Bool → PeerState Rate → PeerState Rate
  set_am_choking v ps = record ps { am_choking = v }

  unfoldable pub set_am_interested : Bool → PeerState Rate → PeerState Rate
  set_am_interested v ps = record ps { am_interested = v }

  unfoldable pub set_peer_choking : Bool → PeerState Rate → PeerState Rate
  set_peer_choking v ps = record ps { peer_choking = v }

  unfoldable pub set_peer_interested : Bool → PeerState Rate → PeerState Rate
  set_peer_interested v ps = record ps { peer_interested = v }

  unfoldable pub add_uploaded : ℤ → PeerState Rate → PeerState Rate
  add_uploaded n ps = record ps { uploaded = wrap64 (ps.uploaded +ℤ n) }

  unfoldable pub add_downloaded : ℤ → PeerState Rate → PeerState Rate
  add_downloaded n ps = record ps { downloaded = wrap64 (ps.downloaded +ℤ n) }

  -- `rate_of bytes elapsed` is `float64(bytes) / elapsed`.
  unfoldable pub update_rates : (ℤ → ℕ → Rate) → ℕ → PeerState Rate → PeerState Rate
  update_rates rate_of now ps =
      let elapsed = now - ps.last_stat_time in
      if ltb elapsed 1_000_000_000 then ps else record ps {
        upload_rate = rate_of (wrap64 (ps.uploaded -ℤ ps.last_uploaded)) elapsed;
        download_rate = rate_of (wrap64 (ps.downloaded -ℤ ps.last_downloaded)) elapsed;
        last_uploaded = ps.uploaded;
        last_downloaded = ps.downloaded;
        last_stat_time = now;
      }
