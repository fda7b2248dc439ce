-- ===== src/AllowedIps/Tests.antt =====
-- Runs of the prefix tree on 32-bit keys, and instances of its theorems.
use amneziawg_nt.Base.{
  ℕ, ◌≡◌, refl, true, none, some, ◌≢◌, ◌⊎◌, ◌≤◌, ◌<◌, arith, if◌then◌else◌, ◌&&◌, List, [], ◌∷◌,
}
use amneziawg_nt.AllowedIps.{
  Trie, leaf, node, success, invalid_parameter, find_node, add, remove, place, split_above,
  same_peer, prefix_matches,
}
use amneziawg_nt.AllowedIps.WellFormed.{WellFormed, entry_at, same_prefix, longest}
use amneziawg_nt.AllowedIps.Key.{
  ops32, common_bits32, choose32, find_last_set, xor, shift_right, byte_at, bit_at_a, bit_at_b,
}
use amneziawg_nt.AllowedIps.Key.V4.{laws32}
use amneziawg_nt.AllowedIps.Find.{find_node-eq-longest}
use amneziawg_nt.AllowedIps.Add.{add-updates}
use amneziawg_nt.AllowedIps.Remove.{remove-updates}
use amneziawg_nt.AllowedIps.Table.{
  lookup_dst, lookup_src, Command, insert4, remove4, run, init, ipv4, ipv6, IpHeader,
}
use amneziawg_nt.AllowedIps.Table.Lookup.{run-lookup, best4, best6}

-- 10.0.0.0, 10.0.0.5 and 10.0.0.9.
abbrev net : ℕ
net = 167772160

abbrev host : ℕ
host = 167772165

abbrev other_host : ℕ
other_host = 167772169

-- The network 10.0.0.0/8 for the peer 1 with the host 10.0.0.5/32 for the peer 2.
abbrev two : Trie ℕ
two = node (some 1) 8 net (node (some 2) 32 host leaf leaf) leaf

two_added :
    (add ops32 true true (add ops32 true true leaf net 8 (some 1)).1 host 32 (some 2))
    ≡ (success, two)
unfolding add place split_above prefix_matches common_bits32 choose32 find_last_set xor shift_right
    byte_at bit_at_a bit_at_b
two_added = refl

find_host : find_node ops32 two host none ≡ some (32, 2)
unfolding find_node prefix_matches common_bits32 choose32 find_last_set xor shift_right byte_at
    bit_at_a bit_at_b
find_host = refl

find_other : find_node ops32 two other_host none ≡ some (8, 1)
unfolding find_node prefix_matches common_bits32 choose32 find_last_set xor shift_right byte_at
    bit_at_a bit_at_b
find_other = refl

two-WellFormed : WellFormed ops32 two
unfolding common_bits32 choose32 find_last_set xor shift_right byte_at bit_at_a bit_at_b
two-WellFormed = (
  omega arith,
  (record { longer = omega arith; fits = omega arith; shares = omega arith; side = refl }, tt, tt),
  tt,
  tt,
  (omega arith, tt, tt, tt, tt, tt),
  tt,
)

find_node-eq-longest_example : find_node ops32 two host none ≡ longest (entry_at ops32 two host) 32
find_node-eq-longest_example = find_node-eq-longest ops32 laws32 two host two-WellFormed

add-updates_example :
    WellFormed ops32 (add ops32 true true two other_host 32 (some 3)).1
    × (((add ops32 true true two other_host 32 (some 3)).0 ≢ success)
          × ((add ops32 true true two other_host 32 (some 3)).1 ≡ two)
        ⊎ ((add ops32 true true two other_host 32 (some 3)).0 ≡ success)
          × ((ip : ℕ) (c : ℕ)
              → entry_at ops32 (add ops32 true true two other_host 32 (some 3)).1 ip c ≡ (
                  if same_prefix ops32 32 other_host c ip
                  then some 3
                  else entry_at ops32 two ip c)))
add-updates_example = add-updates ops32 laws32 true true two other_host 32 (some 3) two-WellFormed

remove-updates_example :
    WellFormed ops32 (remove ops32 two net 8 1).1
    × ((32 < 8) × (remove ops32 two net 8 1 ≡ (invalid_parameter, two))
        ⊎ (8 ≤ 32)
          × ((remove ops32 two net 8 1).0 ≡ success)
          × ((ip : ℕ) (c : ℕ)
              → entry_at ops32 (remove ops32 two net 8 1).1 ip c ≡ (
                  if same_prefix ops32 8 net c ip && same_peer (entry_at ops32 two ip c) 1
                  then none
                  else entry_at ops32 two ip c)))
remove-updates_example = remove-updates ops32 laws32 two net 8 1 two-WellFormed

abbrev calls : List Command
calls =
    insert4 true true (10 ∷ 0 ∷ 0 ∷ 0 ∷ []) 8 (some 1)
    ∷ insert4 true true (10 ∷ 0 ∷ 0 ∷ 5 ∷ []) 32 (some 2)
    ∷ remove4 (10 ∷ 0 ∷ 0 ∷ 0 ∷ []) 8 7
    ∷ []

abbrev header : IpHeader
header = record { source = 10 ∷ 0 ∷ 0 ∷ 9 ∷ []; destination = 10 ∷ 0 ∷ 0 ∷ 5 ∷ [] }

run-lookup_example :
    (lookup_dst (run init calls) ipv4 header ≡ best4 (run init calls) header.destination)
    × (lookup_src (run init calls) ipv4 header ≡ best4 (run init calls) header.source)
    × (lookup_dst (run init calls) ipv6 header ≡ best6 (run init calls) header.destination)
    × (lookup_src (run init calls) ipv6 header ≡ best6 (run init calls) header.source)
run-lookup_example = run-lookup calls header
