-- ===== src/AllowedIps/Beside.antt =====
-- The new node of `Add` beside a subtree, below a node for what both have in common.
use native.Mathlib.Decide.{dec_lt}
use amneziawg_nt.Base.{
  ℕ, ◌+◌, ◌≤◌, ◌<◌, ◌≡◌, refl, Bool, true, false, Option, none, some, arith, if◌then◌else◌, not,
}
use amneziawg_nt.AllowedIps.{KeyOps, Trie, node, success, connect, single}
use amneziawg_nt.AllowedIps.Laws.{KeyLaws}
use amneziawg_nt.AllowedIps.WellFormed.{
  All-map, Under, WellFormed, same_prefix, entry_at, or_else, same_prefix_fields, same_prefix_ne,
}
use amneziawg_nt.AllowedIps.Strays.{Strays, entry_at-Strays, entry_at_short, or_else-none}
use amneziawg_nt.AllowedIps.Placed.{
  Placed, Under-shared, WellFormed-Within, Within, Within-Under_side,
}

-- The entries of a node for a shared prefix with the old subtree and the new node below.
beside_entries :
    (shared new : Bool) (old : Option ℕ) (peer : ℕ)
    → (new ≡ true → old ≡ none)
    → (shared ≡ true → (old ≡ none) × (new ≡ false))
    → (if shared then none else or_else old (if new then some peer else none))
      ≡ (if new then some peer else old)
unfolding or_else
beside_entries shared new old peer h h' = ground (arith, h, h')

beside_entries_first :
    (shared new : Bool) (old : Option ℕ) (peer : ℕ)
    → (new ≡ true → old ≡ none)
    → (shared ≡ true → (old ≡ none) × (new ≡ false))
    → (if shared then none else or_else (if new then some peer else none) old)
      ≡ (if new then some peer else old)
unfolding or_else
beside_entries_first shared new old peer h h' = ground (arith, h, h')

module _ {Key : Type 0} (ops : KeyOps Key) (laws : KeyLaws ops) where
  open ops use {bits, common, choose}

  module _ (q : Option ℕ) (c : ℕ) (k : Key) (zeros ones : Trie Key) (key : Key) (cidr n : ℕ)
      (h : WellFormed ops (node q c k zeros ones)) (lt : n < cidr) (lt' : n < c)
      (e : n ≡ common k key) where
    beside_new :
        (ip : Key) (c' : ℕ)
        → same_prefix ops cidr key c' ip ≡ true
        → entry_at ops (node q c k zeros ones) ip c' ≡ none
    beside_new ip c' s = entry_at-Strays ops laws n ip (node q c k zeros ones) c' (
        All-map (Within ops laws c k) (Strays ops laws n ip) (node q c k zeros ones)
          (λ c1 k1 w. (omega (arith, w.least), apart c1 k1 w))
          (WellFormed-Within ops laws q c k zeros ones h))
      where
        near : n < common key ip
        near = omega (arith, same_prefix_fields ops cidr key c' ip s)

        apart : (c1 : ℕ) (k1 : Key) → Within ops laws c k c1 k1 → common k1 ip ≤ n
        apart c1 k1 w = elim (dec_lt n (common k1 ip)) [
          | yes far ↦ absurd (
              omega (
                arith,
                laws.common_trans k k1 key (n + 1) (omega (arith, w.shares)) (
                    laws.common_trans k1 ip key (n + 1) (omega arith)
                      (omega (arith, near, laws.common_comm key ip))),
              ))
          | no close ↦ omega arith
        ]

    beside_shared :
        (ip : Key) (c' : ℕ)
        → same_prefix ops n key c' ip ≡ true
        → (entry_at ops (node q c k zeros ones) ip c' ≡ none)
          × (same_prefix ops cidr key c' ip ≡ false)
    beside_shared ip c' s = (
      entry_at_short ops laws n ip (node q c k zeros ones) c'
          (All-map (Within ops laws c k) (λ c1 k1. n < c1) (node q c k zeros ones)
            (λ c1 k1 w. omega (arith, w.least)) (WellFormed-Within ops laws q c k zeros ones h))
          (omega (arith, same_prefix_fields ops n key c' ip s)),
      same_prefix_ne ops cidr key c' ip (omega (arith, same_prefix_fields ops n key c' ip s)),
    )

  new_Under :
      (key : Key) (cidr n : ℕ) (b : Bool)
      → cidr ≤ bits
      → n < cidr
      → choose n key ≡ b
      → Under ops n key b cidr key
  new_Under key cidr n b fits lt side = record {
    longer = lt;
    fits = fits;
    shares = omega (arith, laws.common_self key);
    side = side;
  }

  pub beside-Placed :
      (b : Bool) (q : Option ℕ) (c : ℕ) (k : Key) (zeros ones : Trie Key) (key : Key)
      (cidr n peer : ℕ)
      → choose n key ≡ b
      → choose n k ≡ not b
      → WellFormed ops (node q c k zeros ones)
      → cidr ≤ bits
      → n < cidr
      → n < c
      → n ≡ common k key
      → Placed ops laws (node q c k zeros ones) key cidr peer (
        success,
        connect b
            (single (some peer) cidr key)
            (connect (not b) (node q c k zeros ones) (single none n key)),
      )
  beside-Placed true q c k zeros ones key cidr n peer side side' h fits lt lt' e = record {
    succeeded = refl;
    is_node = tt;
    well_formed = (
      omega (arith, fits),
      Within-Under_side ops laws c n k key false (node q c k zeros ones) side' lt' (omega arith)
          (WellFormed-Within ops laws q c k zeros ones h),
      (new_under, tt, tt),
      (tt, tt),
      h,
      (fits, tt, tt, tt, tt, tt),
    );
    entries = λ ip c'.
        unfold entry_at in
        rw or_else-none (
          beside_entries _ _ _ peer (beside_new q c k zeros ones key cidr n h lt lt' e ip c')
            (beside_shared q c k zeros ones key cidr n h lt lt' e ip c'));
    below = λ c0 k0 b0 u v.
        (Under-shared ops laws c0 k0 b0 c k cidr n key u.0 v (omega arith), u, (v, tt, tt));
  }
    where
      new_under : Under ops n key true cidr key
      new_under = new_Under key cidr n true fits lt side
  beside-Placed false q c k zeros ones key cidr n peer side side' h fits lt lt' e = record {
    succeeded = refl;
    is_node = tt;
    well_formed = (
      omega (arith, fits),
      (new_Under key cidr n false fits lt side, tt, tt),
      Within-Under_side ops laws c n k key true (node q c k zeros ones) side' lt' (omega arith)
          (WellFormed-Within ops laws q c k zeros ones h),
      (tt, tt),
      (fits, tt, tt, tt, tt, tt),
      h,
    );
    entries = λ ip c'.
        unfold entry_at in
        rw or_else-none (
          beside_entries_first _ _ _ peer (beside_new q c k zeros ones key cidr n h lt lt' e ip c')
            (beside_shared q c k zeros ones key cidr n h lt lt' e ip c'));
    below = λ c0 k0 b0 u v.
        (Under-shared ops laws c0 k0 b0 c k cidr n key u.0 v (omega arith), (v, tt, tt), u);
  }
