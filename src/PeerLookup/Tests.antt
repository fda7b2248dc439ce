-- ===== src/PeerLookup/Tests.antt =====
-- The two tables on concrete calls.
use amneziawg_nt.Base.{ℕ, true, false, List, [], ◌∷◌, ◌≡◌, refl, arith, if◌then◌else◌, ◌==◌}
use amneziawg_nt.Handshake.{Bytes}
use amneziawg_nt.PeerLookup.{
  Round, IndexEntry, IndexTable, handshake_entry, keypair_entry, index_table_alloc, index_bucket,
  index_insert, index_remove, pubkey_table_alloc, pubkey_lookup, first_keyed, get_maybe_zero,
}
use amneziawg_nt.PeerLookup.Unique.{
  IndexEvent, removed, tried, replaced, IsUnique, index_run, run-IsUnique,
}
use amneziawg_nt.PeerLookup.Insert.{Inserted, insert-total}
use amneziawg_nt.PeerLookup.Pubkeys.{
  PeerEvent, added, removed as peer_removed, pubkey_run, all_peers, lookup-run,
}

abbrev entry : ℕ → IndexEntry
entry id = record { id = id; peer = 1; entry_type = handshake_entry; index = 0 }

abbrev keypair : ℕ → IndexEntry
keypair id = record { id = id; peer = 1; entry_type = keypair_entry; index = 0 }

-- Two handshakes, of which the second draws the first one's index at first; then a keypair takes the
-- first one's place.
abbrev calls : List IndexEvent
calls =
    removed 10
    ∷ tried (entry 10) 77 false
    ∷ removed 11
    ∷ tried (entry 11) 77 false
    ∷ tried (entry 11) 8269 false
    ∷ replaced true 10 (keypair 12)
    ∷ []

run-IsUnique_example : IsUnique (index_run index_table_alloc calls)
run-IsUnique_example = run-IsUnique calls

-- A reader that has seen the entry of the handshake before it is replaced.
abbrev walk : List IndexEntry
walk = record (entry 10) { index = 77 } ∷ []

abbrev one_taken : IndexTable
one_taken b = if b == 77 then record (entry 10) { index = 77 } ∷ [] else []

-- Index 77 is drawn and seen in use, 5 is taken by another thread after the search, 6 is free.
abbrev five_taken : IndexTable
five_taken b = if b == 5 then record (entry 13) { index = 5 } ∷ [] else one_taken b

abbrev three_rounds : IndexTable → List Round
three_rounds t =
    record { drawn = 77; seen = t; locked = t }
    ∷ record { drawn = 5; seen = t; locked = five_taken }
    ∷ record { drawn = 6; seen = five_taken; locked = five_taken }
    ∷ []

insert-total_example :
    Inserted
      (entry 11)
      (three_rounds (index_remove one_taken 11))
      (index_insert one_taken (entry 11) three_rounds)
unfolding index_remove index_bucket
insert-total_example =
    insert-total one_taken (entry 11) three_rounds (77 ∷ 5 ∷ [])
      ((λ i h. ground arith), ((λ i h. ground arith), ((λ i h. ground arith), tt)))
      (refl, (refl, (refl, tt))) (omega arith)

abbrev first_byte : Bytes → ℕ
first_byte [] = 0
first_byte (b ∷ bs) = b

abbrev peers : List PeerEvent
peers =
    added (record { owner = 1; remote_static = 9 ∷ 1 ∷ [] })
    ∷ added (record { owner = 2; remote_static = 9 ∷ 2 ∷ [] })
    ∷ peer_removed 2
    ∷ []

lookup-run_example :
    pubkey_lookup first_byte
      (pubkey_run first_byte pubkey_table_alloc peers)
      (λ id. true)
      (9 ∷ 1 ∷ [])
    ≡ get_maybe_zero (λ id. true) (first_keyed (9 ∷ 1 ∷ []) (all_peers [] peers))
lookup-run_example = lookup-run first_byte peers (λ id. true) (9 ∷ 1 ∷ [])
