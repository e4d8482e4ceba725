-- ===== src/Tracker/Redis/Times.antt =====
-- The times of peers in tracker/redis_storage.go: which hashes a cleanup takes for expired.
use pixtorrent.Prelude.{
  ℕ, ◌+◌, ◌*◌, ◌/◌, ◌^◌, ◌<◌, Bool, true, false, Option, none, some, [], ◌∷◌, Bytes, bytes_discrete,
  codes, length, ltb, ◌==◌, if◌then◌else◌, lt→ltb, ◌⊎◌, ◌≡◌, refl, sym, ap, subst, ◌∙◌, arith,
  Bool-cases, inl, inr,
}
use pixtorrent.Prelude.Int.{ℤ, pos, ltb_ℤ, sub_ℕ}
use pixtorrent.Prelude.Maps.{Map, get}
use pixtorrent.Meta.Bencode.Scan.{
  IsDecimal, decimal, decimal-split, digits-IsDecimal, first_digit, more_digits, text_of,
}
use pixtorrent.Meta.Torrent.{chain}
use pixtorrent.Tracker.Memory.{Peer}
use pixtorrent.Tracker.Query.{number, parse_unsigned, parse_int}
use pixtorrent.Tracker.Query.Decimal.{parse_int-text_of, parse_unsigned-decimal}
use pixtorrent.Tracker.Redis.{second, unix, at_second, value_or_empty, peer_of_hash}
use pixtorrent.Tracker.Redis.Cleanup.{sign_and_digits, read_int}
use pixtorrent.Tracker.Redis.Hashes.{read_hash, nothing_known}

no_sign : (c : ℕ) (cs : Bytes) → IsDecimal c → sign_and_digits (c ∷ cs) ≡ (false, c ∷ cs)
unfolding IsDecimal
no_sign c cs h = ground arith

read_int-text_of : (s : ℕ) → s < 2 ^ 63 → read_int (text_of (pos s)) ≡ some (pos s)
unfolding read_int text_of
read_int-text_of s h =
    let unsigned : sign_and_digits (decimal s) ≡ (false, decimal s) =
      ap sign_and_digits (decimal-split s)
      ∙ no_sign (first_digit s) (more_digits s) (digits-IsDecimal s).0
      ∙ ap (λ t. (false, t)) (sym (decimal-split s)) in
    let digits : parse_unsigned (decimal s) ≡ number s = parse_unsigned-decimal s (omega arith) in
    let below : ltb s (2 ^ 63) ≡ true = lt→ltb s (2 ^ 63) h in
    let read : parse_int (decimal s) ≡ pos s = parse_int-text_of (pos s) h in
    rw (unsigned, digits, below, read, read_int) refl

-- Whether a hash shows a time before a cutoff.
abbrev pub is_stale : ℤ → Map Bytes Bytes → Bool
is_stale cutoff h = elim (chain (get bytes_discrete (codes "last_seen") h) read_int) [
  | none ↦ false
  | some s ↦ ltb_ℤ s cutoff
]

-- What stays of a hash.
abbrev pub kept : ℤ → Map Bytes Bytes → Map Bytes Bytes
kept cutoff h = if is_stale cutoff h then [] else h

pub nothing_kept : (cutoff : ℤ) → [] ≡ kept cutoff []
unfolding get
nothing_kept cutoff = refl

pub kept_twice : (cutoff : ℤ) (h : Map Bytes Bytes) → kept cutoff (kept cutoff h) ≡ kept cutoff h
unfolding get
kept_twice cutoff h = elim (Bool-cases (is_stale cutoff h)) [
  | inl e ↦ rw e refl
  | inr e ↦ rw (e, e) refl
]

-- What stays known at a time: a peer that was seen within the last thirty minutes.
abbrev pub recent : ℕ → Option Peer → Option Peer
recent now none = none
recent now (some p) = if ltb (unix p.last_seen + 30 * 60) (unix now) then none else some p

-- A hash that `AddPeer` or `UpdatePeerLastSeen` has written, or none.
abbrev pub HasTime : Map Bytes Bytes → Type 0
HasTime h =
    (h ≡ [])
    ⊎ ((s : ℕ) × (s < 2 ^ 63) × (get bytes_discrete (codes "last_seen") h ≡ some (text_of (pos s))))

same_cutoff : (s a : ℕ) → ltb_ℤ (pos s) (sub_ℕ a (30 * 60)) ≡ ltb (s + 30 * 60) a
same_cutoff s a = ground arith

there :
    (f v : Bytes) (h : Map Bytes Bytes) → get bytes_discrete f h ≡ some v → (length h == 0) ≡ false
unfolding get
there f v [] e = cc
there f v (x ∷ h) e = ground arith

seconds_back : (s : ℕ) → s * second / second ≡ s
seconds_back s = omega arith

is_stale_lem :
    (cutoff : ℤ) (h : Map Bytes Bytes) (s : ℕ)
    → s < 2 ^ 63
    → get bytes_discrete (codes "last_seen") h ≡ some (text_of (pos s))
    → is_stale cutoff h ≡ ltb_ℤ (pos s) cutoff
is_stale_lem cutoff h s small e =
    ap (λ o. elim (chain o read_int) [ none ↦ false | some t ↦ ltb_ℤ t cutoff ]) e
    ∙ ap (λ o. elim o [ none ↦ false | some t ↦ ltb_ℤ t cutoff ]) (read_int-text_of s small)

read_hash_there :
    (q v : Bytes) (h : Map Bytes Bytes)
    → get bytes_discrete (codes "last_seen") h ≡ some v
    → read_hash q h ≡ some (peer_of_hash q h)
unfolding read_hash
read_hash_there q v h e = rw (there (codes "last_seen") v h e) refl

last_seen_lem :
    (q : Bytes) (h : Map Bytes Bytes) (s : ℕ)
    → s < 2 ^ 63
    → get bytes_discrete (codes "last_seen") h ≡ some (text_of (pos s))
    → unix (peer_of_hash q h).last_seen ≡ s
unfolding peer_of_hash
last_seen_lem q h s small e =
    ap (λ o. at_second (parse_int (value_or_empty o)) / second) e
    ∙ ap (λ i. at_second i / second) (parse_int-text_of (pos s) small)
    ∙ seconds_back s

nothing_recent :
    (now : ℕ) (q : Bytes)
    → read_hash q (kept (sub_ℕ (unix now) (30 * 60)) []) ≡ recent now (read_hash q [])
unfolding read_hash get
nothing_recent now q = refl

pub read_hash-kept :
    (now : ℕ) (q : Bytes) (h : Map Bytes Bytes)
    → HasTime h
    → read_hash q (kept (sub_ℕ (unix now) (30 * 60)) h) ≡ recent now (read_hash q h)
read_hash-kept now q h (inl e) =
    subst (λ k. read_hash q (kept (sub_ℕ (unix now) (30 * 60)) k) ≡ recent now (read_hash q k))
      (sym e) (nothing_recent now q)
read_hash-kept now q h (inr (s, small, e)) =
    ap (λ b. read_hash q (if b then [] else h))
      (is_stale_lem (sub_ℕ (unix now) (30 * 60)) h s small e ∙ same_cutoff s (unix now))
    ∙ by_time (ltb (s + 30 * 60) (unix now))
    ∙ ap (λ t. if ltb (t + 30 * 60) (unix now) then none else some (peer_of_hash q h))
        (sym (last_seen_lem q h s small e))
    ∙ ap (recent now) (sym (read_hash_there q (text_of (pos s)) h e))
  where
    by_time :
        (b : Bool)
        → read_hash q (if b then [] else h) ≡ (if b then none else some (peer_of_hash q h))
    by_time true = nothing_known q
    by_time false = read_hash_there q (text_of (pos s)) h e
