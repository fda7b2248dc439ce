-- ===== src/AllowedIps/Table/Lookup.antt =====
-- What the table answers after any calls of its entry points.
use mathlib.Core.Option
use amneziawg_nt.Base.{ℕ, Option, List, [], ◌∷◌, ◌≡◌, ap}
use amneziawg_nt.AllowedIps.WellFormed.{WellFormed, entry_at, longest}
use amneziawg_nt.AllowedIps.Key.{ops32, ops128}
use amneziawg_nt.AllowedIps.Key.V4.{laws32}
use amneziawg_nt.AllowedIps.Key.V6.{laws128}
use amneziawg_nt.AllowedIps.Find.{find_node-eq-longest}
use amneziawg_nt.AllowedIps.Add.{add-updates}
use amneziawg_nt.AllowedIps.Remove.{remove-updates}
use amneziawg_nt.AllowedIps.Table.{
  Table, Command, insert4, insert6, remove4, remove6, step, run, init, insert_v4, insert_v6,
  remove_v4, remove_v6, lookup4, lookup6, lookup_src, lookup_dst, ipv4, ipv6, IpHeader,
  swap_endian32, swap_endian128,
}

abbrev pub BothWellFormed : Table → Type 0
BothWellFormed table = WellFormed ops32 table.root4 × WellFormed ops128 table.root6

step-BothWellFormed :
    (table : Table) (c : Command) → BothWellFormed table → BothWellFormed (step table c)
unfolding insert_v4 insert_v6 remove_v4 remove_v6
step-BothWellFormed table (insert4 first second ip cidr peer) h =
    ((add-updates ops32 laws32 first second table.root4 (swap_endian32 ip) cidr peer h.0).0, h.1)
step-BothWellFormed table (insert6 first second ip cidr peer) h =
    (h.0, (add-updates ops128 laws128 first second table.root6 (swap_endian128 ip) cidr peer h.1).0)
step-BothWellFormed table (remove4 ip cidr peer) h =
    ((remove-updates ops32 laws32 table.root4 (swap_endian32 ip) cidr peer h.0).0, h.1)
step-BothWellFormed table (remove6 ip cidr peer) h =
    (h.0, (remove-updates ops128 laws128 table.root6 (swap_endian128 ip) cidr peer h.1).0)

run-BothWellFormed :
    (table : Table) (cs : List Command) → BothWellFormed table → BothWellFormed (run table cs)
run-BothWellFormed table [] h = h
run-BothWellFormed table (c ∷ cs) h =
    run-BothWellFormed (step table c) cs (step-BothWellFormed table c h)

-- The peer of the longest prefix of the address to which the table gives one.
abbrev pub best4 : Table → List ℕ → Option ℕ
best4 table ip =
    Option.map (λ (r : ℕ × ℕ). r.1) (longest (entry_at ops32 table.root4 (swap_endian32 ip)) 32)

abbrev pub best6 : Table → List ℕ → Option ℕ
best6 table ip =
    Option.map (λ (r : ℕ × ℕ). r.1) (longest (entry_at ops128 table.root6 (swap_endian128 ip)) 128)

-- After any calls that insert and remove prefixes, failed ones included, the lookups of an IPv4 or
-- IPv6 packet by its destination and by its source answer with the peer of the longest prefix of
-- the address that has one, and with no peer where none has.
pub run-lookup :
    (cs : List Command) (header : IpHeader)
    → let table = run init cs in
      (lookup_dst table ipv4 header ≡ best4 table header.destination)
      × (lookup_src table ipv4 header ≡ best4 table header.source)
      × (lookup_dst table ipv6 header ≡ best6 table header.destination)
      × (lookup_src table ipv6 header ≡ best6 table header.source)
unfolding lookup_dst lookup_src lookup4 lookup6
run-lookup cs header =
    let (h4, h6) = run-BothWellFormed init cs (tt, tt) in
    (
      ap (Option.map (λ (r : ℕ × ℕ). r.1))
          (find_node-eq-longest ops32 laws32 _ (swap_endian32 header.destination) h4),
      ap (Option.map (λ (r : ℕ × ℕ). r.1))
          (find_node-eq-longest ops32 laws32 _ (swap_endian32 header.source) h4),
      ap (Option.map (λ (r : ℕ × ℕ). r.1))
          (find_node-eq-longest ops128 laws128 _ (swap_endian128 header.destination) h6),
      ap (Option.map (λ (r : ℕ × ℕ). r.1))
          (find_node-eq-longest ops128 laws128 _ (swap_endian128 header.source) h6),
    )
