-- ===== src/Tracker/Server/Others.antt =====
-- Whom an announce of tracker/server.go names: the known peers without the one that asks.
use pixtorrent.Prelude.{
  ℕ, ◌^◌, ◌<◌, true, false, List, [], ◌∷◌, map, Bytes, codes, IsIn, ◌≡◌, ◌≢◌, ◌↔◌, refl, sym, ap,
  ◌∙◌, arith, Bool-cases, inl, inr,
}
use pixtorrent.Prelude.Int.{pos, IsInt64}
use pixtorrent.Meta.Bencode.Scan.{text_of}
use pixtorrent.P2p.Pieces.{equal}
use pixtorrent.P2p.Pieces.Verify.{equal_iff}
use pixtorrent.Tracker.Memory.{Peer}
use pixtorrent.Tracker.Memory.Sets.{equal_ne}
use pixtorrent.Tracker.Query.{parse_int}
use pixtorrent.Tracker.Query.Decimal.{parse_int-text_of}
use pixtorrent.Tracker.Server.{
  Request, param, get_client_ip, num_want, announced_peer, filter_peers,
}

-- The entries of exactly those known peers that have another id.
abbrev pub AreOthers : {E : Type 0} → (Peer → E) → Bytes → List Peer → List E → Type 0
AreOthers {E} entry own known got =
    (e : E) → IsIn e got ↔ ((p : Peer) × IsIn p known × (p.id ≢ own) × (e ≡ entry p))

module _ {E : Type 0} (entry : Peer → E) (own : Bytes) where
  named_once :
      (known : List Peer) (e : E)
      → IsIn e (map entry (filter_peers own known))
      → (p : Peer) × IsIn p known × (p.id ≢ own) × (e ≡ entry p)
  unfolding filter_peers
  named_once [] e h = absurd h
  named_once (p ∷ known) e h = elim (Bool-cases (equal p.id own)) [
    | inl same ↦ later p known e (named_once known e (rw same at h))
    | inr other ↦ elim (rw other at h) [
      | inl here ↦ (p, inl refl, (λ k. clash (sym other ∙ (equal_iff p.id own).1 k)), here)
      | inr there ↦ later p known e (named_once known e there)
    ]
  ]
    where
      clash : false ≡ true → ⊥
      clash k = cc

      later :
          (q : Peer) (known : List Peer) (e : E)
          → ((p : Peer) × IsIn p known × (p.id ≢ own) × (e ≡ entry p))
          → (p : Peer) × IsIn p (q ∷ known) × (p.id ≢ own) × (e ≡ entry p)
      later q known e (p, i, ne, same) = (p, inr i, ne, same)

  others_named :
      (known : List Peer) (e : E) (p : Peer)
      → IsIn p known
      → p.id ≢ own
      → e ≡ entry p
      → IsIn e (map entry (filter_peers own known))
  unfolding filter_peers
  others_named [] e p h ne same = absurd h
  others_named (q ∷ known) e p (inl here) ne same =
      rw (equal_ne q.id own (λ k. ne (ap (λ x. x.id) here ∙ k))) (inl (same ∙ ap entry here))
  others_named (q ∷ known) e p (inr there) ne same = elim (Bool-cases (equal q.id own)) [
    | inl k ↦ rw k (others_named known e p there ne same)
    | inr k ↦ rw k (inr (others_named known e p there ne same))
  ]

  pub filter_peers-AreOthers :
      (known : List Peer) → AreOthers entry own known (map entry (filter_peers own known))
  filter_peers-AreOthers known e =
      (named_once known e, λ (p, i, ne, same). others_named known e p i ne same)

-- A request that announces a peer: its numbers stand in their parameters in decimals.
pub record Says (now : ℕ) (r : Request) (peer : Peer) : Type 0 where
  pub id_said : param r (codes "peer_id") ≡ peer.id
  pub ip_said : get_client_ip r ≡ peer.ip
  pub port_said : (param r (codes "port") ≡ text_of peer.port) × IsInt64 peer.port
  pub uploaded_said : (param r (codes "uploaded") ≡ text_of peer.uploaded) × IsInt64 peer.uploaded
  pub downloaded_said :
      (param r (codes "downloaded") ≡ text_of peer.downloaded) × IsInt64 peer.downloaded
  pub left_said : (param r (codes "left") ≡ text_of peer.left) × IsInt64 peer.left
  pub seen_now : now ≡ peer.last_seen

pub announced_peer-Says :
    (now : ℕ) (r : Request) (peer : Peer) → Says now r peer → announced_peer now r ≡ peer
unfolding announced_peer
announced_peer-Says now r peer s = rw (
  s.id_said,
  s.ip_said,
  s.port_said.0,
  s.uploaded_said.0,
  s.downloaded_said.0,
  s.left_said.0,
  s.seen_now,
  parse_int-text_of peer.port s.port_said.1,
  parse_int-text_of peer.uploaded s.uploaded_said.1,
  parse_int-text_of peer.downloaded s.downloaded_said.1,
  parse_int-text_of peer.left s.left_said.1,
)

-- How many peers a value of `numwant` asks for: 50 by default, and for 0.
pub data IsWanted : Bytes → ℕ → Type 0 where
  asked : (n : ℕ) → 0 < n → n < 2 ^ 63 → IsWanted (text_of (pos n)) n
  asked_for_none : IsWanted (text_of (pos 0)) 50
  not_given : IsWanted [] 50

pub num_want-IsWanted :
    (r : Request) (s : Bytes) (n : ℕ)
    → param r (codes "numwant") ≡ s
    → IsWanted s n
    → num_want r ≡ pos n
unfolding num_want parse_int
num_want-IsWanted r _ _ e (asked n positive small) =
    rw (e, parse_int-text_of (pos n) small) ground arith
num_want-IsWanted r _ _ e asked_for_none = rw (e, parse_int-text_of (pos 0) (omega arith)) refl
num_want-IsWanted r _ _ e not_given = rw e refl
