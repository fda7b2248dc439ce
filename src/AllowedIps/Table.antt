-- ===== src/AllowedIps/Table.antt =====
-- driver/allowedips.c: the table of the two trees, its entry points, and the byte order of addresses.
-- An IP header is reduced to its source and destination address; `Lookup`'s retry, which waits for a
-- peer that is being freed to leave the tree, is one step.
pub mod Lookup
use mathlib.Core.Option
use amneziawg_nt.Base.{
  ℕ, ◌+◌, ◌*◌, Option, none, some, List, [], ◌∷◌, ◌==◌, if◌then◌else◌, take, drop, Bool,
}
use amneziawg_nt.AllowedIps.{Trie, leaf, Status, find_node, add, remove}
use amneziawg_nt.AllowedIps.Key.{ops32, ops128}

-- `Be32ToCpu` and `Be64ToCpu` of stored bytes.
unfoldable pub big_endian : ℕ → List ℕ → ℕ
big_endian word [] = word
big_endian word (b ∷ bs) = big_endian (word * 256 + b) bs

-- `SwapEndian` for 32 bits.
unfoldable pub swap_endian32 : List ℕ → ℕ
swap_endian32 bytes = big_endian 0 (take 4 bytes)

-- `SwapEndian` for 128 bits.
unfoldable pub swap_endian128 : List ℕ → ℕ × ℕ
swap_endian128 bytes = (big_endian 0 (take 8 bytes), big_endian 0 (take 8 (drop 8 bytes)))

-- `ALLOWEDIPS_TABLE`.
pub record Table : Type 0 where
  pub root4 : Trie ℕ
  pub root6 : Trie (ℕ × ℕ)

-- `NDIS_ETH_TYPE_IPV4` and `NDIS_ETH_TYPE_IPV6`.
abbrev pub ipv4 : ℕ
ipv4 = 2048

abbrev pub ipv6 : ℕ
ipv6 = 34525

-- `IPV4HDR` and `IPV6HDR`: the addresses.
pub record IpHeader : Type 0 where
  pub source : List ℕ
  pub destination : List ℕ

abbrev pub init : Table
init = record { root4 = leaf; root6 = leaf }

unfoldable pub insert_v4 : Bool → Bool → Table → List ℕ → ℕ → Option ℕ → Status × Table
insert_v4 first second table ip cidr peer =
    let (s, t) = add ops32 first second table.root4 (swap_endian32 ip) cidr peer in
    (s, record { root4 = t; root6 = table.root6 })

unfoldable pub insert_v6 : Bool → Bool → Table → List ℕ → ℕ → Option ℕ → Status × Table
insert_v6 first second table ip cidr peer =
    let (s, t) = add ops128 first second table.root6 (swap_endian128 ip) cidr peer in
    (s, record { root4 = table.root4; root6 = t })

unfoldable pub remove_v4 : Table → List ℕ → ℕ → ℕ → Status × Table
remove_v4 table ip cidr peer =
    let (s, t) = remove ops32 table.root4 (swap_endian32 ip) cidr peer in
    (s, record { root4 = t; root6 = table.root6 })

unfoldable pub remove_v6 : Table → List ℕ → ℕ → ℕ → Status × Table
remove_v6 table ip cidr peer =
    let (s, t) = remove ops128 table.root6 (swap_endian128 ip) cidr peer in
    (s, record { root4 = table.root4; root6 = t })

-- `Lookup`: the peer of the node found.
unfoldable pub lookup4 : Table → List ℕ → Option ℕ
lookup4 table ip =
    Option.map (λ (r : ℕ × ℕ). r.1) (find_node ops32 table.root4 (swap_endian32 ip) none)

unfoldable pub lookup6 : Table → List ℕ → Option ℕ
lookup6 table ip =
    Option.map (λ (r : ℕ × ℕ). r.1) (find_node ops128 table.root6 (swap_endian128 ip) none)

unfoldable pub lookup_dst : Table → ℕ → IpHeader → Option ℕ
lookup_dst table proto header =
    if proto == ipv4
    then lookup4 table header.destination
    else if proto == ipv6
    then lookup6 table header.destination
    else none

unfoldable pub lookup_src : Table → ℕ → IpHeader → Option ℕ
lookup_src table proto header =
    if proto == ipv4
    then lookup4 table header.source
    else if proto == ipv6
    then lookup6 table header.source
    else none

-- A call of the table by the configuration path.
pub data Command : Type 0 where
  insert4 insert6 : Bool → Bool → List ℕ → ℕ → Option ℕ → Command
  remove4 remove6 : List ℕ → ℕ → ℕ → Command

abbrev pub step : Table → Command → Table
step table (insert4 first second ip cidr peer) = (insert_v4 first second table ip cidr peer).1
step table (insert6 first second ip cidr peer) = (insert_v6 first second table ip cidr peer).1
step table (remove4 ip cidr peer) = (remove_v4 table ip cidr peer).1
step table (remove6 ip cidr peer) = (remove_v6 table ip cidr peer).1

abbrev pub run : Table → List Command → Table
run table [] = table
run table (c ∷ cs) = run (step table c) cs
