-- ===== src/AllowedIps/Prune.antt =====
-- `Remove` at a node on the path: what the parent becomes after a removal below it.
use amneziawg_nt.Base.{
  ℕ, ◌<◌, ◌≡◌, ◌≢◌, refl, ◌∙◌, Bool, true, false, Option, none, some, arith, if◌then◌else◌,
}
use amneziawg_nt.AllowedIps.{KeyOps, Trie, leaf, node, Removal, absent, changed, gone, after_child}
use amneziawg_nt.AllowedIps.Laws.{KeyLaws}
use amneziawg_nt.AllowedIps.WellFormed.{
  All, All-map, IsNeeded, Under, WellFormed, same_prefix, entry_at, or_else, same_prefix_fields,
  same_prefix_ne,
}
use amneziawg_nt.AllowedIps.Strays.{entry_at-Strays, entry_at_short, Strays-of_side}
use amneziawg_nt.AllowedIps.Descend.{IsNode-IsNeeded_one, IsNode-IsNeeded_zero}
use amneziawg_nt.AllowedIps.Without.{one_kept, one_left, zero_kept, zero_left}
use amneziawg_nt.AllowedIps.Unlink.{Outcome, Removed}

module _ {Key : Type 0} (ops : KeyOps Key) (laws : KeyLaws ops) where
  open ops use {bits, common, choose}

  same_prefix-above :
      (c : ℕ) (k key : Key) (cidr : ℕ) (ip : Key) (c' : ℕ)
      → c < cidr
      → same_prefix ops cidr key c' ip ≡ true
      → same_prefix ops c k c' ip ≡ false
  same_prefix-above c k key cidr ip c' lt s =
      same_prefix_ne ops c k c' ip (omega (arith, same_prefix_fields ops cidr key c' ip s))

  entry_at-none :
      (c : ℕ) (k : Key) (zeros ones : Trie Key) (ip : Key) (c' : ℕ)
      → entry_at ops (node none c k zeros ones) ip c' ≡ (
          if same_prefix ops c k c' ip
          then none
          else or_else (entry_at ops zeros ip c') (entry_at ops ones ip c'))
  unfolding entry_at
  entry_at-none c k zeros ones ip c' = refl

  entry_at-above :
      (c : ℕ) (k : Key) (b : Bool) (t : Trie Key) (ip : Key) (c' : ℕ)
      → All (Under ops c k b) t
      → same_prefix ops c k c' ip ≡ true
      → entry_at ops t ip c' ≡ none
  entry_at-above c k b t ip c' u s =
      entry_at_short ops laws c ip t c'
        (All-map (Under ops c k b) (λ c1 k1. c < c1) t (λ c1 k1 u. u.longer) u)
        (omega (arith, same_prefix_fields ops c k c' ip s))

  -- The subtree that the prefix does not choose holds nothing for it.
  entry_at-other_side :
      (c : ℕ) (k : Key) (b : Bool) (t : Trie Key) (key : Key) (cidr : ℕ) (ip : Key) (c' : ℕ)
      → All (Under ops c k b) t
      → c < cidr
      → choose c key ≢ b
      → same_prefix ops cidr key c' ip ≡ true
      → entry_at ops t ip c' ≡ none
  entry_at-other_side c k b t key cidr ip c' u lt ne s = entry_at-Strays ops laws c ip t c' (
      Strays-of_side ops laws c k b t ip
        (λ e.
          ne (
            laws.choose_same key ip c (omega (arith, same_prefix_fields ops cidr key c' ip s)) ∙ e))
        u)

  module _ (c : ℕ) (k : Key) (zeros ones : Trie Key) (key : Key) (cidr peer : ℕ)
      (lt : c < cidr) where
    module _ (side : choose c key ≡ true) where
      one-Removed :
          (q : Option ℕ) (t : Trie Key)
          → WellFormed ops (node q c k zeros ones)
          → IsNeeded q zeros t
          → Removed ops laws ones key cidr peer t
          → Removed ops laws (node q c k zeros ones) key cidr peer (node q c k zeros t)
      one-Removed q t h n r = record {
        well_formed = (h.0, h.1, r.below c k true h.2, n, h.4, r.well_formed);
        entries = λ ip c'.
            unfold entry_at in
            one_kept _ _ q _ _ _ peer
              (λ s. (
                same_prefix-above c k key cidr ip c' lt s,
                entry_at-other_side c k false zeros key cidr ip c' h.1 lt (λ e. cc) s,
              ))
              (r.entries ip c');
        below = λ c0 k0 b0 u. (u.0, u.1, r.below c0 k0 b0 u.2);
      }

      one_gone :
          WellFormed ops (node none c k zeros ones)
          → Removed ops laws ones key cidr peer leaf
          → Removed ops laws (node none c k zeros ones) key cidr peer zeros
      one_gone h r = record {
        well_formed = h.4;
        entries = λ ip c'. rw (entry_at-none c k zeros ones ip c') (
            zero_left _ _ _ _ peer
              (λ s. (
                same_prefix-above c k key cidr ip c' lt s,
                entry_at-other_side c k false zeros key cidr ip c' h.1 lt (λ e. cc) s,
              ))
              (entry_at-above c k false zeros ip c' h.1) (unfold entry_at in r.entries ip c'));
        below = λ c0 k0 b0 u. u.1;
      }

      pub one_after :
          (q : Option ℕ) (r : Removal Key)
          → WellFormed ops (node q c k zeros ones)
          → Outcome ops laws ones key cidr peer r
          → Outcome ops laws
              (node q c k zeros ones)
              key
              cidr
              peer
              (after_child q c k true zeros ones r)
      unfolding after_child
      one_after q absent h (r, n) = (one-Removed q ones h h.3 r, tt)
      one_after q (changed t) h (r, n) =
          (one-Removed q t h (IsNode-IsNeeded_one q zeros ones t n h.3) r, tt)
      one_after none gone h (r, n) = (one_gone h r, h.3.0)
      one_after (some p) gone h (r, n) = (one-Removed (some p) leaf h tt r, tt)

    module _ (side : choose c key ≡ false) where
      zero-Removed :
          (q : Option ℕ) (t : Trie Key)
          → WellFormed ops (node q c k zeros ones)
          → IsNeeded q t ones
          → Removed ops laws zeros key cidr peer t
          → Removed ops laws (node q c k zeros ones) key cidr peer (node q c k t ones)
      zero-Removed q t h n r = record {
        well_formed = (h.0, r.below c k false h.1, h.2, n, r.well_formed, h.5);
        entries = λ ip c'.
            unfold entry_at in
            zero_kept _ _ q _ _ _ peer
              (λ s. (
                same_prefix-above c k key cidr ip c' lt s,
                entry_at-other_side c k true ones key cidr ip c' h.2 lt (λ e. cc) s,
              ))
              (r.entries ip c');
        below = λ c0 k0 b0 u. (u.0, r.below c0 k0 b0 u.1, u.2);
      }

      zero_gone :
          WellFormed ops (node none c k zeros ones)
          → Removed ops laws zeros key cidr peer leaf
          → Removed ops laws (node none c k zeros ones) key cidr peer ones
      zero_gone h r = record {
        well_formed = h.5;
        entries = λ ip c'. rw (entry_at-none c k zeros ones ip c') (
            one_left _ _ _ _ peer
              (λ s. (
                same_prefix-above c k key cidr ip c' lt s,
                entry_at-other_side c k true ones key cidr ip c' h.2 lt (λ e. cc) s,
              ))
              (entry_at-above c k true ones ip c' h.2) (unfold entry_at in r.entries ip c'));
        below = λ c0 k0 b0 u. u.2;
      }

      pub zero_after :
          (q : Option ℕ) (r : Removal Key)
          → WellFormed ops (node q c k zeros ones)
          → Outcome ops laws zeros key cidr peer r
          → Outcome ops laws
              (node q c k zeros ones)
              key
              cidr
              peer
              (after_child q c k false zeros ones r)
      unfolding after_child
      zero_after q absent h (r, n) = (zero-Removed q zeros h h.3 r, tt)
      zero_after q (changed t) h (r, n) =
          (zero-Removed q t h (IsNode-IsNeeded_zero q zeros t ones n h.3) r, tt)
      zero_after none gone h (r, n) = (zero_gone h r, h.3.1)
      zero_after (some p) gone h (r, n) = (zero-Removed (some p) leaf h tt r, tt)
