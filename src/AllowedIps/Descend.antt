-- ===== src/AllowedIps/Descend.antt =====
-- `Add` at a node on the path: the change in one child is a change of the tree.
use native.Mathlib.Decide.{dec_lt}
use amneziawg_nt.Base.{
  ℕ, ◌≤◌, ◌<◌, ◌≡◌, refl, sym, inl, inr, Bool, true, false, Option, none, some, arith,
  if◌then◌else◌,
}
use amneziawg_nt.AllowedIps.{KeyOps, Trie, node, Status, success}
use amneziawg_nt.AllowedIps.Laws.{KeyLaws}
use amneziawg_nt.AllowedIps.WellFormed.{
  IsNode, IsNeeded, Under, WellFormed, same_prefix, entry_at, or_else, same_prefix_fields,
  same_prefix_ne,
}
use amneziawg_nt.AllowedIps.Strays.{entry_at-Strays, Strays-of_side}
use amneziawg_nt.AllowedIps.Placed.{Placed}
use amneziawg_nt.AllowedIps.Split.{Outcome}

one_entries :
    (outer new : Bool) (q z o : Option ℕ) (peer : ℕ)
    → (new ≡ true → (outer ≡ false) × (z ≡ none))
    → (if outer then q else or_else z (if new then some peer else o))
      ≡ (if new then some peer else if outer then q else or_else z o)
unfolding or_else
one_entries outer new q z o peer h = ground (arith, h)

zero_entries :
    (outer new : Bool) (q z o : Option ℕ) (peer : ℕ)
    → (new ≡ true → outer ≡ false)
    → (if outer then q else or_else (if new then some peer else z) o)
      ≡ (if new then some peer else if outer then q else or_else z o)
unfolding or_else
zero_entries outer new q z o peer h = ground (arith, h)

overwritten :
    (outer : Bool) (q rest : Option ℕ) (peer : ℕ)
    → (if outer then some peer else rest) ≡ (if outer then some peer else if outer then q else rest)
overwritten true q rest peer = refl
overwritten false q rest peer = refl

pub IsNode-IsNeeded_one :
    {Key : Type 0} (q : Option ℕ) (zeros ones ones' : Trie Key)
    → IsNode ones'
    → IsNeeded q zeros ones
    → IsNeeded q zeros ones'
IsNode-IsNeeded_one none zeros ones ones' h n = (n.0, h)
IsNode-IsNeeded_one (some p) zeros ones ones' h n = tt

pub IsNode-IsNeeded_zero :
    {Key : Type 0} (q : Option ℕ) (zeros zeros' ones : Trie Key)
    → IsNode zeros'
    → IsNeeded q zeros ones
    → IsNeeded q zeros' ones
IsNode-IsNeeded_zero none zeros zeros' ones h n = (h, n.1)
IsNode-IsNeeded_zero (some p) zeros zeros' ones h n = tt

module _ {Key : Type 0} (ops : KeyOps Key) (laws : KeyLaws ops) where
  open ops use {bits, common, choose}

  module _ (q : Option ℕ) (c : ℕ) (k : Key) (zeros ones : Trie Key) (key : Key) (cidr peer : ℕ)
      (h : WellFormed ops (node q c k zeros ones)) (lt : c < cidr) (fits : cidr ≤ bits)
      (on : c ≤ common k key) where
    new_below : (b : Bool) → choose c key ≡ b → Under ops c k b cidr key
    new_below b side = record { longer = lt; fits = fits; shares = on; side = side }

    same_prefix-outer :
        (ip : Key) (c' : ℕ)
        → same_prefix ops cidr key c' ip ≡ true
        → same_prefix ops c k c' ip ≡ false
    same_prefix-outer ip c' s =
        same_prefix_ne ops c k c' ip (omega (arith, same_prefix_fields ops cidr key c' ip s))

    one-Placed :
        (s : Status) (t : Trie Key)
        → choose c key ≡ true
        → Placed ops laws ones key cidr peer (s, t)
        → Placed ops laws (node q c k zeros ones) key cidr peer (s, node q c k zeros t)
    one-Placed s t side r = record {
      succeeded = r.succeeded;
      is_node = tt;
      well_formed = (
        h.0,
        h.1,
        r.below c k true h.2 (new_below true side),
        IsNode-IsNeeded_one q zeros ones t r.is_node h.3,
        h.4,
        r.well_formed,
      );
      entries = λ ip c'.
          unfold entry_at in
          rw (r.entries ip c')
            (one_entries _ _ q _ _ peer (λ e. (same_prefix-outer ip c' e, no_zero ip c' e)));
      below = λ c0 k0 b0 u v. (u.0, u.1, r.below c0 k0 b0 u.2 v);
    }
      where
        no_zero :
            (ip : Key) (c' : ℕ)
            → same_prefix ops cidr key c' ip ≡ true
            → entry_at ops zeros ip c' ≡ none
        no_zero ip c' e = entry_at-Strays ops laws c ip zeros c' (
            Strays-of_side ops laws c k false zeros ip
              (λ e'.
                let same : choose c key ≡ choose c ip =
                  laws.choose_same key ip c
                    (omega (arith, same_prefix_fields ops cidr key c' ip e)) in
                cc)
              h.1)

    zero-Placed :
        (s : Status) (t : Trie Key)
        → choose c key ≡ false
        → Placed ops laws zeros key cidr peer (s, t)
        → Placed ops laws (node q c k zeros ones) key cidr peer (s, node q c k t ones)
    zero-Placed s t side r = record {
      succeeded = r.succeeded;
      is_node = tt;
      well_formed = (
        h.0,
        r.below c k false h.1 (new_below false side),
        h.2,
        IsNode-IsNeeded_zero q zeros t ones r.is_node h.3,
        r.well_formed,
        h.5,
      );
      entries = λ ip c'.
          unfold entry_at in
          rw (r.entries ip c') (zero_entries _ _ q _ _ peer (same_prefix-outer ip c'));
      below = λ c0 k0 b0 u v. (u.0, r.below c0 k0 b0 u.1 v, u.2);
    }

  pub same_prefix_same :
      (c : ℕ) (k key ip : Key) (c' : ℕ)
      → c ≤ common k key
      → same_prefix ops c k c' ip ≡ same_prefix ops c key c' ip
  unfolding same_prefix
  same_prefix_same c k key ip c' le = elim (dec_lt (common k ip) c) [
    | yes off ↦ let off' : common key ip < c = apart off in ground arith
    | no on ↦
        let on' : c ≤ common key ip =
          laws.common_trans key k ip c (omega (arith, laws.common_comm key k)) (omega arith) in
        ground arith
  ]
    where
      apart : common k ip < c → common key ip < c
      apart off = elim (dec_lt (common key ip) c) [
        | yes lt ↦ lt
        | no ge ↦ absurd (omega (arith, laws.common_trans k key ip c le (omega arith)))
      ]

  -- The peer of the node for the prefix itself changes.
  pub same-Placed :
      (q : Option ℕ) (c : ℕ) (k : Key) (zeros ones : Trie Key) (key : Key) (cidr peer : ℕ)
      → WellFormed ops (node q c k zeros ones)
      → c ≤ common k key
      → c ≡ cidr
      → Placed ops laws
          (node q c k zeros ones)
          key
          cidr
          peer
          (success, node (some peer) c k zeros ones)
  same-Placed q c k zeros ones key cidr peer h on e = record {
    succeeded = refl;
    is_node = tt;
    well_formed = (h.0, h.1, h.2, tt, h.4, h.5);
    entries = λ ip c'.
        unfold entry_at in
        rw (sym e, same_prefix_same c k key ip c' on)
          (overwritten (same_prefix ops c key c' ip) q _ peer);
    below = λ c0 k0 b0 u v. u;
  }

  module _ (q : Option ℕ) (c : ℕ) (k : Key) (zeros ones : Trie Key) (key : Key) (cidr peer : ℕ)
      (h : WellFormed ops (node q c k zeros ones)) (lt : c < cidr) (fits : cidr ≤ bits)
      (on : c ≤ common k key) where
    pub one-Outcome :
        (r : Status × Trie Key)
        → choose c key ≡ true
        → Outcome ops laws ones key cidr peer r
        → Outcome ops laws (node q c k zeros ones) key cidr peer (r.0, node q c k zeros r.1)
    one-Outcome r side (inl e) = inl (rw e refl)
    one-Outcome r side (inr p) =
        inr (one-Placed q c k zeros ones key cidr peer h lt fits on r.0 r.1 side p)

    pub zero-Outcome :
        (r : Status × Trie Key)
        → choose c key ≡ false
        → Outcome ops laws zeros key cidr peer r
        → Outcome ops laws (node q c k zeros ones) key cidr peer (r.0, node q c k r.1 ones)
    zero-Outcome r side (inl e) = inl (rw e refl)
    zero-Outcome r side (inr p) =
        inr (zero-Placed q c k zeros ones key cidr peer h lt fits on r.0 r.1 side p)
