-- ===== src/Tracker/Redis/Hashes.antt =====
-- A peer in tracker/redis_storage.go is a hash: what `AddPeer` writes, `GetPeer` reads back, with its
-- time in whole seconds.
use pixtorrent.Prelude.{
  ℕ, suc, ◌+◌, ◌*◌, ◌/◌, ◌^◌, ◌<◌, Bool, true, false, not, ◌&&◌, ◌||◌, Option, none, some, List, [],
  ◌∷◌, Bytes, bytes_discrete, codes, length, IsByte, All, ◌==◌, if◌then◌else◌, ◌≡◌, ◌≢◌, refl, sym,
  ap, subst, ◌∙◌, arith, ite, if_pos, if_neg, is_some,
}
use pixtorrent.Prelude.Int.{pos, IsInt64}
use pixtorrent.Prelude.Maps.{Map, get}
use pixtorrent.Tracker.Memory.{Peer}
use pixtorrent.Tracker.Query.Decimal.{parse_int-text_of}
use pixtorrent.Tracker.Redis.{second, unix, peer_fields, value_or_empty, field_of, peer_of_hash}
use pixtorrent.Tracker.Redis.Commands.{set_fields, last_field, get-set_fields, set_fields-positive}

-- A peer as Redis keeps it.
abbrev pub whole_seconds : Peer → Peer
whole_seconds p = record p { last_seen = p.last_seen / second * second }

abbrev pub in_seconds : Option Peer → Option Peer
in_seconds none = none
in_seconds (some p) = some (whole_seconds p)

-- A peer whose numbers are int64.
pub record IsStorable (p : Peer) : Type 0 where
  pub port_int64 : IsInt64 p.port
  pub uploaded_int64 : IsInt64 p.uploaded
  pub downloaded_int64 : IsInt64 p.downloaded
  pub left_int64 : IsInt64 p.left
  pub seen_int64 : unix p.last_seen < 2 ^ 63

-- What `GetPeer` makes of a hash.
unfoldable pub read_hash : Bytes → Map Bytes Bytes → Option Peer
read_hash id result = if length result == 0 then none else some (peer_of_hash id result)

pub nothing_known : (id : Bytes) → read_hash id [] ≡ none
unfolding read_hash
nothing_known id = refl

pub not_empty : (n : ℕ) → 0 < n → (n == 0) ≡ false
not_empty n h = ground arith

field_of-set_fields :
    (q v : Bytes) (p : Peer) (h : Map Bytes Bytes)
    → last_field q (peer_fields p) (get bytes_discrete q h) ≡ some v
    → field_of q (set_fields (peer_fields p) h) ≡ v
field_of-set_fields q v p h e = ap value_or_empty (get-set_fields q (peer_fields p) h ∙ e)

fields_there :
    (p : Peer) (h : Map Bytes Bytes) → (length (set_fields (peer_fields p) h) == 0) ≡ false
fields_there p h = not_empty _ (set_fields-positive (peer_fields p) h (omega arith))

pub read_hash-peer_fields :
    (p : Peer) (h : Map Bytes Bytes)
    → IsStorable p
    → read_hash p.id (set_fields (peer_fields p) h) ≡ some (whole_seconds p)
unfolding read_hash peer_of_hash bytes_discrete pixtorrent.Prelude.ℕ_discrete
read_hash-peer_fields p h s = rw (
  fields_there p h,
  field_of-set_fields (codes "ip") _ p h refl,
  field_of-set_fields (codes "port") _ p h refl,
  field_of-set_fields (codes "uploaded") _ p h refl,
  field_of-set_fields (codes "downloaded") _ p h refl,
  field_of-set_fields (codes "left") _ p h refl,
  field_of-set_fields (codes "last_seen") _ p h refl,
  parse_int-text_of p.port s.port_int64,
  parse_int-text_of p.uploaded s.uploaded_int64,
  parse_int-text_of p.downloaded s.downloaded_int64,
  parse_int-text_of p.left s.left_int64,
  parse_int-text_of (pos (unix p.last_seen)) s.seen_int64,
)
