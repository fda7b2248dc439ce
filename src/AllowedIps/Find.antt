-- ===== src/AllowedIps/Find.antt =====
-- `FindNode` returns the longest prefix of the address that has a peer.
use native.Mathlib.Decide.{dec_lt, ℕ_discrete}
use amneziawg_nt.Base.{
  ℕ, ◌≤◌, ◌<◌, ◌≡◌, ◌≢◌, refl, inl, inr, Bool, true, false, Option, none, some, arith, ◌==◌,
  if◌then◌else◌, Bool-cases,
}
use amneziawg_nt.AllowedIps.{KeyOps, Trie, leaf, node, find_node, prefix_matches}
use amneziawg_nt.AllowedIps.Laws.{KeyLaws}
use amneziawg_nt.AllowedIps.WellFormed.{
  All, All-map, Under, WellFormed, same_prefix, entry_at, or_else, longest,
}
use amneziawg_nt.AllowedIps.Strays.{
  or_else-none, entry_at-Strays, entry_at_short, entry_at-node, Strays-of_side, Strays-of_parent,
}
use amneziawg_nt.AllowedIps.Best.{IsBest, IsBest-longest, IsBest-step}

module _ {Key : Type 0} (ops : KeyOps Key) (laws : KeyLaws ops) where
  open ops use {bits, common, choose}

  -- The child that the address chooses decides all but the node's own prefix.
  entry_at-chosen :
      (q : Option ℕ) (c : ℕ) (k : Key) (zeros ones : Trie Key) (ip : Key)
      → WellFormed ops (node q c k zeros ones)
      → c ≤ common k ip
      → (cidr : ℕ)
      → entry_at ops (node q c k zeros ones) ip cidr ≡ (
          if c == cidr
          then q
          else if choose c ip
          then entry_at ops ones ip cidr
          else entry_at ops zeros ip cidr)
  unfolding or_else
  entry_at-chosen q c k zeros ones ip h le cidr = elim (Bool-cases (choose c ip)) [
    | inl one ↦
        rw
          (
            entry_at-node ops laws q c k zeros ones ip cidr le,
            entry_at-Strays ops laws c ip zeros cidr
                (Strays-of_side ops laws c k false zeros ip (λ e. cc) h.1),
            one,
          )
          refl
    | inr nil ↦
        rw
          (
            entry_at-node ops laws q c k zeros ones ip cidr le,
            entry_at-Strays ops laws c ip ones cidr
                (Strays-of_side ops laws c k true ones ip (λ e. cc) h.2),
            or_else-none,
            nil,
          )
          refl
  ]

  -- A child's prefixes are longer than its parent's.
  entry_at_below :
      (c : ℕ) (k : Key) (b : Bool) (t : Trie Key) (ip : Key)
      → All (Under ops c k b) t
      → (cidr : ℕ) → cidr ≤ c
      → entry_at ops t ip cidr ≡ none
  entry_at_below c k b t ip h cidr le =
      entry_at_short ops laws c ip t cidr
        (All-map (Under ops c k b) (λ c' k'. c < c') t (λ c' k' u. u.longer) h) le

  -- No prefix is longer than the key.
  IsBest-leaf : (seen : Option (ℕ × ℕ)) → IsBest (λ c. none) bits seen seen
  IsBest-leaf seen = inl (refl, λ c. refl)

  same_prefix_off :
      (c : ℕ) (k ip : Key) (cidr : ℕ) → common k ip < c → same_prefix ops c k cidr ip ≡ false
  unfolding same_prefix
  same_prefix_off c k ip cidr off = ground arith

  pub entry_at_off :
      (q : Option ℕ) (c : ℕ) (k : Key) (zeros ones : Trie Key) (ip : Key)
      → WellFormed ops (node q c k zeros ones)
      → common k ip < c
      → (cidr : ℕ) → entry_at ops (node q c k zeros ones) ip cidr ≡ none
  unfolding entry_at or_else
  entry_at_off q c k zeros ones ip h off cidr =
      rw
        (
          same_prefix_off c k ip cidr off,
          entry_at-Strays ops laws c ip zeros cidr
              (Strays-of_parent ops laws c k false zeros ip off h.1),
          entry_at-Strays ops laws c ip ones cidr
              (Strays-of_parent ops laws c k true ones ip off h.2),
        )
        refl

  entry_at_full :
      (c : ℕ) (k : Key) (b : Bool) (t : Trie Key) (ip : Key)
      → c ≡ bits
      → All (Under ops c k b) t
      → (cidr : ℕ) → entry_at ops t ip cidr ≡ none
  unfolding entry_at
  entry_at_full c k b leaf ip full h cidr = refl
  entry_at_full c k b (node q' c' k' zeros ones) ip full h cidr =
      absurd (omega (arith, h.0.longer, h.0.fits))

  -- A node as long as the key decides alone.
  entry_at-node_full :
      (q : Option ℕ) (c : ℕ) (k : Key) (zeros ones : Trie Key) (ip : Key)
      → WellFormed ops (node q c k zeros ones)
      → c ≤ common k ip
      → c ≡ bits
      → (cidr : ℕ) → entry_at ops (node q c k zeros ones) ip cidr ≡ (if c == cidr then q else none)
  unfolding or_else
  entry_at-node_full q c k zeros ones ip h on full cidr =
      rw
        (
          entry_at-node ops laws q c k zeros ones ip cidr on,
          entry_at_full c k false zeros ip full h.1 cidr,
          entry_at_full c k true ones ip full h.2 cidr,
        )
        refl

  abbrev seen_at : Option ℕ → ℕ → Option (ℕ × ℕ) → Option (ℕ × ℕ)
  seen_at q c found = elim q [ none ↦ found | some p ↦ some (c, p) ]

  module _ (q : Option ℕ) (c : ℕ) (k : Key) (zeros ones : Trie Key) (ip : Key)
      (found : Option (ℕ × ℕ)) where
    find_node_off : common k ip < c → find_node ops (node q c k zeros ones) ip found ≡ found
    unfolding find_node prefix_matches
    find_node_off off = ground arith

    find_node_full :
        c ≤ common k ip
        → c ≡ bits
        → find_node ops (node q c k zeros ones) ip found ≡ seen_at q c found
    unfolding find_node prefix_matches
    find_node_full on full = ground arith

    find_node_one :
        c ≤ common k ip
        → c ≢ bits
        → choose c ip ≡ true
        → find_node ops (node q c k zeros ones) ip found ≡ find_node ops ones ip (seen_at q c found)
    unfolding find_node prefix_matches
    find_node_one on part one = ground arith

    find_node_zero :
        c ≤ common k ip
        → c ≢ bits
        → choose c ip ≡ false
        → find_node ops (node q c k zeros ones) ip found
          ≡ find_node ops zeros ip (seen_at q c found)
    unfolding find_node prefix_matches
    find_node_zero on part nil = ground arith

  find_node-IsBest :
      (t : Trie Key) (ip : Key) (found : Option (ℕ × ℕ))
      → WellFormed ops t
      → IsBest (entry_at ops t ip) bits found (find_node ops t ip found)
  find_node-IsBest leaf ip found h = unfold find_node entry_at in inl (refl, λ c. refl)
  find_node-IsBest (node q c k zeros ones) ip found h = elim (dec_lt (common k ip) c) [
    | yes off ↦
        inl (find_node_off q c k zeros ones ip found off, entry_at_off q c k zeros ones ip h off)
    | no on ↦ elim (ℕ_discrete c bits) [
      | yes full ↦ rw (find_node_full q c k zeros ones ip found (omega arith) full) (
          IsBest-step _ (λ _. none) bits c q found _
            (entry_at-node_full q c k zeros ones ip h (omega arith) full) (λ c' le. refl) h.0
            (IsBest-leaf (seen_at q c found)))
      | no part ↦ elim (Bool-cases (choose c ip)) [
        | inl one ↦ rw (find_node_one q c k zeros ones ip found (omega arith) part one) (
            IsBest-step _ (entry_at ops ones ip) bits c q found _
              (λ c'. rw (entry_at-chosen q c k zeros ones ip h (omega arith) c', one))
              (entry_at_below c k true ones ip h.2) h.0 (find_node-IsBest ones ip _ h.5))
        | inr nil ↦ rw (find_node_zero q c k zeros ones ip found (omega arith) part nil) (
            IsBest-step _ (entry_at ops zeros ip) bits c q found _
              (λ c'. rw (entry_at-chosen q c k zeros ones ip h (omega arith) c', nil))
              (entry_at_below c k false zeros ip h.1) h.0 (find_node-IsBest zeros ip _ h.4))
      ]
    ]
  ]

  -- In a well-formed tree, the node that `FindNode` returns for an address has the longest prefix
  -- of that address to which the tree gives a peer, with that peer; and no node where there is none.
  pub find_node-eq-longest :
      (t : Trie Key) (ip : Key)
      → WellFormed ops t
      → find_node ops t ip none ≡ longest (entry_at ops t ip) bits
  find_node-eq-longest t ip h = IsBest-longest _ bits _ (find_node-IsBest t ip none h)
