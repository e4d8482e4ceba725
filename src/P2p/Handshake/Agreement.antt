-- ===== src/P2p/Handshake/Agreement.antt =====
-- When two peers accept each other.
use pixtorrent.Prelude.{
  ℕ, ◌+◌, ◌-◌, ◌≤◌, Bool, true, false, [], ◌∷◌, ◌++◌, Bytes, length, take, drop, replicate, slice,
  copy_at, set, get_or, not, if◌then◌else◌, ◌≡◌, ◌≢◌, ◌↔◌, refl, sym, subst, ap, ap₂, ◌∙◌,
  append_assoc, append-nil, arith, le→ltb_false, length-append, length-take, length-drop,
  take-append, drop-append, drop-drop, take-append-drop, copy_at_middle,
}
use mathlib.Core.Bool.{false≢true}
use pixtorrent.P2p.Pieces.Verify.{equal_iff}
use pixtorrent.P2p.Pieces.{equal}
use pixtorrent.P2p.Handshake.{
  protocol, build_handshake, accepted, infohash_mismatch, connected_to_self, panic, validate,
  default_handshake,
}

-- The layout that the source's comment gives: <pstrlen><pstr><reserved><info_hash><peer_id>.
abbrev pub layout : Bytes → Bytes → Bytes → Bytes
layout reserved info_hash id = 19 ∷ (protocol ++ (reserved ++ (info_hash ++ id)))

-- What stands before the info hash in a handshake of this program.
abbrev opening : Bytes
opening = 19 ∷ (protocol ++ replicate 8 0)

module _ (info_hash id : Bytes) (h : length info_hash ≡ 20) (i : length id ≡ 20) where
  -- The message is what the comment in the source says, with zeros for the reserved bytes.
  pub build_handshake-layout : build_handshake info_hash id ≡ layout (replicate 8 0) info_hash id
  unfolding build_handshake
  build_handshake-layout =
      ap (copy_at 48 id) (
        ap (copy_at 28 info_hash) first
        ∙ copy_at_middle opening (replicate 20 0) (replicate 20 0) info_hash 28 refl (sym h)
        ∙ sym (append_assoc opening info_hash (replicate 20 0))
        ∙ ap (λ t. (opening ++ info_hash) ++ t) (sym (append-nil (replicate 20 0))))
      ∙ copy_at_middle (opening ++ info_hash) (replicate 20 0) [] id 48
          (omega (arith, length-append opening info_hash)) (sym i)
      ∙ append_assoc opening info_hash (id ++ [])
      ∙ ap (λ t. opening ++ (info_hash ++ t)) (append-nil id)
    where
      first :
          copy_at 1 protocol (set (replicate 68 0) 0 19)
          ≡ opening ++ (replicate 20 0 ++ replicate 20 0)
      first = unfold copy_at in refl

module _ (reserved info_hash id : Bytes) (r : length reserved ≡ 8) (h : length info_hash ≡ 20) where
  drop_opening : drop 28 (layout reserved info_hash id) ≡ info_hash ++ id
  drop_opening = drop-append reserved (info_hash ++ id) 8 r

  drop_hash : drop 48 (layout reserved info_hash id) ≡ id
  drop_hash =
      sym (drop-drop 20 28 (layout reserved info_hash id))
      ∙ ap (drop 20) drop_opening
      ∙ drop-append info_hash id 20 h

  slice_hash : slice 28 48 (layout reserved info_hash id) ≡ info_hash
  slice_hash = ap (take 20) drop_opening ∙ take-append info_hash id 20 h

  length-layout : length (layout reserved info_hash id) ≡ 48 + length id
  length-layout =
      omega (arith, length-append reserved (info_hash ++ id), length-append info_hash id)

  -- A message of this layout is judged by its hash and its peer id alone.
  validate-layout :
      (own own_id : Bytes)
      → length id ≡ 20
      → validate own own_id (layout reserved info_hash id) ≡ (
          if not (equal info_hash own)
          then infohash_mismatch
          else if equal id own_id
          then connected_to_self
          else accepted id)
  unfolding validate
  validate-layout own own_id i =
      rw
        (
          le→ltb_false (length (layout reserved info_hash id)) 20 (omega (arith, length-layout)),
          le→ltb_false (length (layout reserved info_hash id)) 48 (omega (arith, length-layout)),
          slice_hash,
          drop_hash,
        )
        (rw ((equal_iff protocol protocol).1 refl))

unequal : (a b : Bytes) → a ≢ b → equal a b ≡ false
unequal a b ne = ground (arith, equal_iff a b)

length-build_handshake :
    (info_hash id : Bytes)
    → length info_hash ≡ 20
    → length id ≡ 20
    → length (build_handshake info_hash id) ≡ 68
length-build_handshake info_hash id h i = omega (
  arith,
  ap length (build_handshake-layout info_hash id h i),
  length-layout (replicate 8 0) info_hash id refl h,
)

-- How a peer of this program, with 20-byte id and info hash, is judged by another one: by the
-- info hash first, then by its id.
pub validate-build_handshake :
    (own own_id info_hash id : Bytes)
    → length info_hash ≡ 20
    → length id ≡ 20
    → validate own own_id (build_handshake info_hash id) ≡ (
        if not (equal info_hash own)
        then infohash_mismatch
        else if equal id own_id
        then connected_to_self
        else accepted id)
validate-build_handshake own own_id info_hash id h i =
    ap (validate own own_id) (build_handshake-layout info_hash id h i)
    ∙ validate-layout (replicate 8 0) info_hash id refl h own own_id i

module _ (info_hash own_id id : Bytes) (h : length info_hash ≡ 20) (o : length own_id ≡ 20)
    (i : length id ≡ 20) (ne : id ≢ own_id) where
  agreed : validate info_hash own_id (build_handshake info_hash id) ≡ accepted id
  agreed =
      validate-build_handshake info_hash own_id info_hash id h i
      ∙ rw ((equal_iff info_hash info_hash).1 refl, unequal id own_id ne)

  -- Where the connection works and the other side is a peer of the same torrent with another id,
  -- the handshake succeeds, whichever side dials: it writes this peer's handshake, takes the
  -- other's id from its handshake, and leaves what follows on the stream unread.
  pub default_handshake_agrees :
      (outbound : Bool) (later : Bytes)
      → default_handshake true info_hash own_id outbound (build_handshake info_hash id ++ later)
        ≡ record {
          outcome = accepted id;
          written = build_handshake info_hash own_id;
          unread = later;
        }
  unfolding default_handshake
  default_handshake_agrees outbound later =
      let theirs = build_handshake info_hash id in
      let same : length theirs ≡ length (build_handshake info_hash own_id) =
        length-build_handshake info_hash id h i
        ∙ sym (length-build_handshake info_hash own_id h o) in
      ground (
        arith,
        length-append theirs later,
        take-append theirs later (length (build_handshake info_hash own_id)) same,
        drop-append theirs later (length (build_handshake info_hash own_id)) same,
        agreed,
      )

module _ (resp : Bytes) (n : length resp ≡ 68) where
  -- The length byte of a message whose protocol name is right.
  protocol_length : (l : ℕ) → 1 + l ≤ 68 → equal (slice 1 (1 + l) resp) protocol ≡ true → l ≡ 19
  protocol_length l fits e = omega (
    arith,
    ap length ((equal_iff (slice 1 (1 + l) resp) protocol).0 e),
    length-take (1 + l - 1) (drop 1 resp),
    length-drop 1 resp,
  )

  -- The only answer on which the checks panic is one whose first byte claims a protocol name
  -- that runs past the 68 bytes read, and on each such answer they do.
  pub validate-panic_iff :
      (own own_id : Bytes) → (validate own own_id resp ≡ panic) ↔ (68 ≤ get_or resp 0 0)
  unfolding validate
  validate-panic_iff own own_id =
      (λ e. ground (arith, protocol_length (get_or resp 0 0)), λ big. ground arith)

split_layout :
    (x : ℕ) (t own p : Bytes)
    → x ≡ 19
    → take 19 t ≡ protocol
    → take 20 (drop 27 t) ≡ own
    → drop 47 t ≡ p
    → x ∷ t ≡ layout (take 8 (drop 19 t)) own p
split_layout x t own p ex et eo ep = ap₂ ◌∷◌ ex (
    sym (take-append-drop 19 t)
    ∙ ap₂ ◌++◌ et (
        sym (take-append-drop 8 (drop 19 t))
        ∙ ap (λ u. take 8 (drop 19 t) ++ u)
            (drop-drop 8 19 t
              ∙ sym (take-append-drop 20 (drop 27 t))
              ∙ ap₂ ◌++◌ eo (drop-drop 20 27 t ∙ ep))))

-- The checks that an accepted answer with length byte `l` has passed.
record Passed (own own_id resp p : Bytes) (l : ℕ) : Type 0 where
  fits : 1 + l ≤ length resp
  named : equal (slice 1 (1 + l) resp) protocol ≡ true
  hashed : equal (slice (1 + l + 8) (1 + l + 8 + 20) resp) own ≡ true
  other : equal (drop (1 + l + 8 + 20) resp) own_id ≡ false
  is_peer : drop (1 + l + 8 + 20) resp ≡ p

pass_of_validate :
    (own own_id resp p : Bytes)
    → validate own own_id resp ≡ accepted p
    → Passed own own_id resp p (get_or resp 0 0)
unfolding validate
pass_of_validate own own_id resp p e = record {
  fits = ground arith;
  named = ground arith;
  hashed = ground arith;
  other = ground arith;
  is_peer = ground arith;
}

-- An answer of 68 bytes that is accepted has the layout of a handshake: the protocol's name, any
-- eight reserved bytes, this peer's own info hash and the id under which the peer is then
-- known; and that id is not this peer's own.
pub validate_sound :
    (own own_id resp p : Bytes)
    → length resp ≡ 68
    → validate own own_id resp ≡ accepted p
    → (resp ≡ layout (slice 20 28 resp) own p) × (p ≢ own_id)
validate_sound own own_id [] p n e = absurd (omega arith)
validate_sound own own_id (x ∷ t) p n e =
    let passed = pass_of_validate own own_id (x ∷ t) p e in
    let l = protocol_length (x ∷ t) n x (rw n at passed.fits) passed.named in
    let q = subst (Passed own own_id (x ∷ t) p) l passed in
    (
      split_layout x t own p l ((equal_iff _ _).0 q.named) ((equal_iff _ _).0 q.hashed) q.is_peer,
      λ same. false≢true (sym q.other ∙ (equal_iff _ _).1 (q.is_peer ∙ same)),
    )
