-- ===== src/AllowedIps.antt =====
-- driver/allowedips.c: the prefix tree that maps an IP prefix to a peer.
-- A node's children are its two subtrees, so `ParentBitPacked` is the position of the node in the
-- tree; `BitAtA` and `BitAtB` are `choose` at the node's length, and `Bitlen` is `bits`. The table's
-- lock makes a writer's call one step. Two allocations can fail, as two arguments say.
pub mod Key
pub mod Laws
pub mod WellFormed
pub mod Strays
pub mod Table
pub mod Best
pub mod Find
pub mod Placed
pub mod Beside
pub mod Split
pub mod Descend
pub mod Add
pub mod Without
pub mod Unlink
pub mod Prune
pub mod Remove
mod Tests
use amneziawg_nt.Base.{
  ℕ, min, Bool, true, false, ◌&&◌, Option, none, some, ltb, leb, ◌==◌, if◌then◌else◌,
}

-- What the tree needs of a key: its length, `CommonBits` and `Choose`.
pub record KeyOps (Key : Type 0) : Type 0 where
  pub bits : ℕ
  pub common : Key → Key → ℕ
  pub choose : ℕ → Key → Bool

-- `ALLOWEDIPS_NODE`: `Peer`, `Cidr`, `Bits`, `Bit[0]` and `Bit[1]`. A null pointer is a `leaf`.
pub data Trie (Key : Type 0) : Type 0 where
  leaf : Trie Key
  node : Option ℕ → ℕ → Key → Trie Key → Trie Key → Trie Key

pub data Status : Type 0 where
  success invalid_parameter insufficient_resources : Status

-- What `RemoveNode` leaves at a place: nothing found, another subtree, or a node freed with no
-- child, which may free its parent.
pub data Removal (Key : Type 0) : Type 0 where
  absent : Removal Key
  changed : Trie Key → Removal Key
  gone : Removal Key

module _ {Key : Type 0} where
  -- `ConnectNode` at a child's slot.
  abbrev pub connect : Bool → Trie Key → Trie Key → Trie Key
  connect slot child leaf = leaf
  connect true child (node peer cidr key zeros ones) = node peer cidr key zeros child
  connect false child (node peer cidr key zeros ones) = node peer cidr key child ones

  abbrev pub single : Option ℕ → ℕ → Key → Trie Key
  single peer cidr key = node peer cidr key leaf leaf

  -- The node's peer goes; a node with fewer than two children goes too.
  pub unlink : Trie Key → Removal Key
  unlink leaf = absent
  unlink (node q c k leaf leaf) = gone
  unlink (node q c k leaf (node a b d e f)) = changed (node a b d e f)
  unlink (node q c k (node a b d e f) leaf) = changed (node a b d e f)
  unlink (node q c k (node a b d e f) (node a' b' d' e' f')) =
      changed (node none c k (node a b d e f) (node a' b' d' e' f'))

  -- What the parent becomes once the removal in its child of `slot` is done.
  pub after_child : Option ℕ → ℕ → Key → Bool → Trie Key → Trie Key → Removal Key → Removal Key
  after_child q c k slot zeros ones absent = absent
  after_child q c k slot zeros ones (changed t) = changed (connect slot t (node q c k zeros ones))
  after_child none c k true zeros ones gone = changed zeros
  after_child none c k false zeros ones gone = changed ones
  after_child (some p) c k slot zeros ones gone =
      changed (connect slot leaf (node (some p) c k zeros ones))

  -- The tree after a removal at its root.
  abbrev pub settle : Trie Key → Removal Key → Trie Key
  settle t absent = t
  settle t (changed t') = t'
  settle t gone = leaf

pub same_peer : Option ℕ → ℕ → Bool
same_peer none peer = false
same_peer (some p) peer = p == peer

module _ {Key : Type 0} (ops : KeyOps Key) where
  open ops use {bits, common, choose}

  pub prefix_matches : ℕ → Key → Key → Bool
  prefix_matches cidr key ip = leb cidr (common key ip)

  -- The last node with a peer on the path of `ip`: its length and its peer.
  pub find_node : Trie Key → Key → Option (ℕ × ℕ) → Option (ℕ × ℕ)
  find_node leaf ip found = found
  find_node (node peer cidr key zeros ones) ip found =
      let seen : Option (ℕ × ℕ) = elim peer [ none ↦ found | some p ↦ some (cidr, p) ] in
      elim (prefix_matches cidr key ip) [
        | false ↦ found
        | true ↦ elim (cidr == bits) [
          | true ↦ seen
          | false ↦ elim (choose cidr ip) [
            | true ↦ find_node ones ip seen
            | false ↦ find_node zeros ip seen
          ]
        ]
      ]

  -- The new node goes above `down`, or beside it below a node for what both have in common.
  pub split_above : Bool → Trie Key → Key → Key → ℕ → ℕ → Status × Trie Key
  split_above second down down_key key cidr peer =
      let shared = min cidr (common down_key key) in
      if cidr == shared
      then (success, connect (choose cidr down_key) down (single (some peer) cidr key))
      else if second
      then (
        success,
        connect (choose shared key) (single (some peer) cidr key)
            (connect (choose shared down_key) down (single none shared key)),
      )
      else (insufficient_resources, down)

  -- `Add` once its arguments are checked; `first` and `second` say whether the allocations succeed.
  pub place : Bool → Bool → Trie Key → Key → ℕ → ℕ → Status × Trie Key
  place first second leaf key cidr peer =
      if first then (success, single (some peer) cidr key) else (insufficient_resources, leaf)
  place first second (node q c k zeros ones) key cidr peer =
      elim (leb c cidr && prefix_matches c k key) [
        | true ↦ elim (c == cidr) [
          | true ↦ (success, node (some peer) c k zeros ones)
          | false ↦ elim (choose c key) [
            | true ↦ let (s, t) = place first second ones key cidr peer in (s, node q c k zeros t)
            | false ↦ let (s, t) = place first second zeros key cidr peer in (s, node q c k t ones)
          ]
        ]
        | false ↦
            if first
            then split_above second (node q c k zeros ones) k key cidr peer
            else (insufficient_resources, node q c k zeros ones)
      ]

  -- A null peer is `none`.
  pub add : Bool → Bool → Trie Key → Key → ℕ → Option ℕ → Status × Trie Key
  add first second t key cidr none = (invalid_parameter, t)
  add first second t key cidr (some peer) =
      if ltb bits cidr then (invalid_parameter, t) else place first second t key cidr peer

  pub remove_at : Trie Key → Key → ℕ → ℕ → Removal Key
  remove_at leaf key cidr peer = absent
  remove_at (node q c k zeros ones) key cidr peer = elim (leb c cidr && prefix_matches c k key) [
    | false ↦ absent
    | true ↦ elim (c == cidr) [
      | true ↦ if same_peer q peer then unlink (node q c k zeros ones) else absent
      | false ↦ elim (choose c key) [
        | true ↦ after_child q c k true zeros ones (remove_at ones key cidr peer)
        | false ↦ after_child q c k false zeros ones (remove_at zeros key cidr peer)
      ]
    ]
  ]

  pub remove : Trie Key → Key → ℕ → ℕ → Status × Trie Key
  remove t key cidr peer =
      if ltb bits cidr
      then (invalid_parameter, t)
      else (success, settle t (remove_at t key cidr peer))
