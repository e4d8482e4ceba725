-- ===== src/TorrentServer/Bootstrap/Nodes.antt =====
-- Which peers a new node dials, by `populateBootstrapNodes` of torrent_server/server.go.
use pixtorrent.Prelude.{
  Bool, true, false, not, ◌&&◌, ◌||◌, Option, List, [], ◌∷◌, ◌++◌, map, Bytes, bytes_discrete,
  is_some, ◌≡◌, ◌≢◌, if_pos, if_neg, refl, sym, ap, ◌∙◌, arith, Bool-cases, inl, inr,
}
use pixtorrent.Prelude.Maps.{Map, get, put, get-put}
use pixtorrent.Client.{Peer}
use pixtorrent.P2p.Pieces.{equal}
use pixtorrent.P2p.Pieces.Verify.{equal_iff}
use pixtorrent.TorrentServer.Bootstrap.{format_addr, add_nodes}

abbrev pub is_listed : Bytes → List Bytes → Bool
is_listed a [] = false
is_listed a (x ∷ xs) = equal a x || is_listed a xs

-- No address stands twice.
abbrev pub IsDistinct : List Bytes → Type 0
IsDistinct [] = Unit
IsDistinct (x ∷ xs) = (is_listed x xs ≡ false) × IsDistinct xs

abbrev pub addresses : List Peer → List Bytes
addresses = map (λ p. format_addr p.ip p.port)

equal_same : (a b : Bytes) → equal a b ≡ true → a ≡ b
equal_same a b = (equal_iff a b).0

equal_refl : (a : Bytes) → equal a a ≡ true
equal_refl a = (equal_iff a a).1 refl

equal_ne : (a b : Bytes) → a ≢ b → equal a b ≡ false
equal_ne a b ne = elim (Bool-cases (equal a b)) [
  | inl e ↦ absurd (ne (equal_same a b e))
  | inr e ↦ e
]

equal_comm : (a b : Bytes) → equal a b ≡ equal b a
unfolding equal
equal_comm [] [] = refl
equal_comm [] (y ∷ b) = refl
equal_comm (x ∷ a) [] = refl
equal_comm (x ∷ a) (y ∷ b) = ground (arith, equal_comm a b)

is_listed-append :
    (a : Bytes) (xs ys : List Bytes) → is_listed a (xs ++ ys) ≡ (is_listed a xs || is_listed a ys)
is_listed-append a [] ys = refl
is_listed-append a (x ∷ xs) ys = ground (arith, is_listed-append a xs ys)

append-IsDistinct :
    (xs : List Bytes) (a : Bytes)
    → IsDistinct xs
    → is_listed a xs ≡ false
    → IsDistinct (xs ++ a ∷ [])
append-IsDistinct [] a h k = (refl, tt)
append-IsDistinct (x ∷ xs) a h k = (
  ground (arith, is_listed-append x xs (a ∷ []), equal_comm x a),
  append-IsDistinct xs a h.1 (ground arith),
)

-- The set has the addresses that are listed.
Agree : Map Bytes Unit → List Bytes → Type 0
Agree unique nodes = (a : Bytes) → is_some (get bytes_discrete a unique) ≡ is_listed a nodes

-- The same address has the same answers.
listed_same : (a b : Bytes) (xs : List Bytes) → equal a b ≡ true → is_listed a xs ≡ is_listed b xs
listed_same a b xs h = ap (λ c. is_listed c xs) (equal_same a b h)

own_same : (a b own : Bytes) → equal a b ≡ true → equal a own ≡ equal b own
own_same a b own h = ap (λ c. equal c own) (equal_same a b h)

put-Agree :
    (unique : Map Bytes Unit) (nodes : List Bytes) (addr : Bytes)
    → Agree unique nodes
    → Agree (put bytes_discrete addr tt unique) (nodes ++ addr ∷ [])
unfolding Agree
put-Agree unique nodes addr h a =
    ap is_some (get-put bytes_discrete addr a tt unique) ∙ elim (bytes_discrete a addr) [
      | yes e ↦
          ap is_some (if_pos {C = Option Unit} (bytes_discrete a addr) e _ _)
          ∙ ground (arith, is_listed-append a nodes (addr ∷ []), (equal_iff a addr).1 e)
      | no ne ↦
          ap is_some (if_neg {C = Option Unit} (bytes_discrete a addr) ne _ _)
          ∙ h a
          ∙ ground (arith, is_listed-append a nodes (addr ∷ []), equal_ne a addr ne)
    ]

-- What the nodes are to be behind the loop.
record Added (own : Bytes) (peers : List Peer) (before after : List Bytes) : Type 0 where
  distinct : IsDistinct after
  members :
      (a : Bytes)
      → is_listed a after
        ≡ (is_listed a before || (not (equal a own) && is_listed a (addresses peers)))

add_nodes-Added :
    (own : Bytes) (peers : List Peer) (unique : Map Bytes Unit) (nodes : List Bytes)
    → Agree unique nodes
    → IsDistinct nodes
    → Added own peers nodes (add_nodes own peers unique nodes)
unfolding add_nodes Agree
add_nodes-Added own [] unique nodes h d = record { distinct = d; members = λ a. ground arith }
add_nodes-Added own (p ∷ peers) unique nodes h d =
    let addr = format_addr p.ip p.port in
    elim (Bool-cases (equal addr own)) [
      | inl e ↦
          let rest = add_nodes-Added own peers unique nodes h d in
          rw e (record {
            distinct = rest.distinct;
            members = λ a. ground (arith, rest.members a, own_same a addr own);
          })
      | inr e ↦ elim (Bool-cases (is_some (get bytes_discrete addr unique))) [
        | inl k ↦
            let rest = add_nodes-Added own peers unique nodes h d in
            rw (e, k)
              (record {
                distinct = rest.distinct;
                members = λ a. ground (arith, rest.members a, listed_same a addr nodes, h addr);
              })
        | inr k ↦
            let rest =
              add_nodes-Added own peers (put bytes_discrete addr tt unique) (nodes ++ addr ∷ [])
                (put-Agree unique nodes addr h)
                (append-IsDistinct nodes addr d (sym (h addr) ∙ k)) in
            rw (e, k)
              (record {
                distinct = rest.distinct;
                members = λ a. ground (
                  arith,
                  rest.members a,
                  is_listed-append a nodes (addr ∷ []),
                  own_same a addr own,
                );
              })
      ]
    ]

-- A node dials an address exactly if the tracker named it and it is not the node's own, and no
-- address twice.
pub add_nodes_lem :
    (own : Bytes) (peers : List Peer)
    → IsDistinct (add_nodes own peers [] [])
      × ((a : Bytes)
          → is_listed a (add_nodes own peers [] [])
            ≡ (not (equal a own) && is_listed a (addresses peers)))
unfolding Agree get
add_nodes_lem own peers =
    let r = add_nodes-Added own peers [] [] (λ a. refl) tt in (r.distinct, r.members)
