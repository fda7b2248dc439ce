-- ===== src/AllowedIps/Add.antt =====
-- `Add`: the tree stays well formed, and stands for the map with one entry changed.
use native.Mathlib.Decide.{dec_lt, ℕ_discrete}
use amneziawg_nt.Base.{
  ℕ, ◌≤◌, ◌≡◌, ◌≢◌, refl, ◌⊎◌, inl, inr, Bool, true, false, Option, none, some, arith, leb, ltb,
  ◌==◌, if◌then◌else◌, Bool-cases, ◌&&◌,
}
use amneziawg_nt.AllowedIps.{
  KeyOps, Trie, leaf, node, Status, success, insufficient_resources, prefix_matches, split_above,
  place, add,
}
use amneziawg_nt.AllowedIps.Laws.{KeyLaws}
use amneziawg_nt.AllowedIps.WellFormed.{WellFormed, same_prefix, entry_at, or_else}
use amneziawg_nt.AllowedIps.Split.{Outcome, other_length, same_length, split_above-Outcome}
use amneziawg_nt.AllowedIps.Descend.{one-Outcome, zero-Outcome, same-Placed}

module _ {Key : Type 0} (ops : KeyOps Key) (laws : KeyLaws ops) where
  open ops use {bits, common, choose}

  split-Outcome :
      (first second : Bool) (q : Option ℕ) (c : ℕ) (k : Key) (zeros ones : Trie Key) (key : Key)
      (cidr peer : ℕ)
      → WellFormed ops (node q c k zeros ones)
      → cidr ≤ bits
      → (leb c cidr && prefix_matches ops c k key) ≡ false
      → Outcome ops laws (node q c k zeros ones) key cidr peer (
          if first
          then split_above ops second (node q c k zeros ones) k key cidr peer
          else (insufficient_resources, node q c k zeros ones))
  split-Outcome true second q c k zeros ones key cidr peer h fits off =
      split_above-Outcome ops laws second q c k zeros ones key cidr peer h fits off
  split-Outcome false second q c k zeros ones key cidr peer h fits off = inl refl

  pub on_fields :
      (c cidr : ℕ) (k key : Key)
      → (leb c cidr && prefix_matches ops c k key) ≡ true
      → (c ≤ cidr) × (c ≤ common k key)
  unfolding prefix_matches
  on_fields c cidr k key e = ground arith

  -- `place` at a node, branch by branch.
  module _ (first second : Bool) (q : Option ℕ) (c : ℕ) (k : Key) (zeros ones : Trie Key)
      (key : Key) (cidr peer : ℕ) where
    place_off :
        (leb c cidr && prefix_matches ops c k key) ≡ false
        → place ops first second (node q c k zeros ones) key cidr peer ≡ (
            if first
            then split_above ops second (node q c k zeros ones) k key cidr peer
            else (insufficient_resources, node q c k zeros ones))
    unfolding place
    place_off e = rw (e, place) refl

    place_same :
        (leb c cidr && prefix_matches ops c k key) ≡ true
        → (c == cidr) ≡ true
        → place ops first second (node q c k zeros ones) key cidr peer
          ≡ (success, node (some peer) c k zeros ones)
    unfolding place
    place_same e e' = rw (e, e', place) refl

    place_one :
        (leb c cidr && prefix_matches ops c k key) ≡ true
        → (c == cidr) ≡ false
        → choose c key ≡ true
        → place ops first second (node q c k zeros ones) key cidr peer
          ≡ (let r = place ops first second ones key cidr peer in (r.0, node q c k zeros r.1))
    unfolding place
    place_one e e' side = rw (e, e', side, place) refl

    place_zero :
        (leb c cidr && prefix_matches ops c k key) ≡ true
        → (c == cidr) ≡ false
        → choose c key ≡ false
        → place ops first second (node q c k zeros ones) key cidr peer
          ≡ (let r = place ops first second zeros key cidr peer in (r.0, node q c k r.1 ones))
    unfolding place
    place_zero e e' side = rw (e, e', side, place) refl

  place-Outcome :
      (first second : Bool) (t : Trie Key) (key : Key) (cidr peer : ℕ)
      → WellFormed ops t
      → cidr ≤ bits
      → Outcome ops laws t key cidr peer (place ops first second t key cidr peer)
  unfolding place
  place-Outcome false second leaf key cidr peer h fits = inl refl
  place-Outcome true second leaf key cidr peer h fits = inr record {
    succeeded = refl;
    is_node = tt;
    well_formed = (fits, tt, tt, tt, tt, tt);
    entries = λ ip c'. unfold entry_at or_else in refl;
    below = λ c0 k0 b0 u v. (v, tt, tt);
  }
  place-Outcome first second (node q c k zeros ones) key cidr peer h fits =
      elim (Bool-cases (leb c cidr && prefix_matches ops c k key)) [
        | inr off ↦
            rw (place_off first second q c k zeros ones key cidr peer off)
              (split-Outcome first second q c k zeros ones key cidr peer h fits off)
        | inl on ↦
            let (le, shares) = on_fields c cidr k key on in
            elim (ℕ_discrete c cidr) [
              | yes e ↦
                  let e' : (c == cidr) ≡ true = same_length c cidr e in
                  rw (place_same first second q c k zeros ones key cidr peer on e')
                    (inr (same-Placed ops laws q c k zeros ones key cidr peer h shares e))
              | no ne ↦
                  let e' : (c == cidr) ≡ false = other_length c cidr ne in
                  elim (Bool-cases (choose c key)) [
                    | inl one ↦
                        rw (place_one first second q c k zeros ones key cidr peer on e' one) (
                          one-Outcome ops laws q c k zeros ones key cidr peer h (omega arith) fits
                            shares _ one (place-Outcome first second ones key cidr peer h.5 fits))
                    | inr nil ↦
                        rw (place_zero first second q c k zeros ones key cidr peer on e' nil) (
                          zero-Outcome ops laws q c k zeros ones key cidr peer h (omega arith) fits
                            shares _ nil (place-Outcome first second zeros key cidr peer h.4 fits))
                  ]
            ]
      ]

  -- `Add` on a well-formed tree leaves a well-formed tree. Either it reports a failure and the tree
  -- is as before, or it succeeds, the prefix `key / cidr` has the new peer, and every other prefix
  -- has the peer it had.
  pub add-updates :
      (first second : Bool) (t : Trie Key) (key : Key) (cidr : ℕ) (q : Option ℕ)
      → WellFormed ops t
      → WellFormed ops (add ops first second t key cidr q).1
        × (((add ops first second t key cidr q).0 ≢ success)
              × ((add ops first second t key cidr q).1 ≡ t)
            ⊎ ((add ops first second t key cidr q).0 ≡ success)
              × ((ip : Key) (c : ℕ)
                  → entry_at ops (add ops first second t key cidr q).1 ip c
                    ≡ (if same_prefix ops cidr key c ip then q else entry_at ops t ip c)))
  unfolding add
  add-updates first second t key cidr none h = (h, inl (λ e. cc, refl))
  add-updates first second t key cidr (some peer) h = elim (dec_lt bits cidr) [
    | yes long ↦ let e : ltb bits cidr ≡ true = ground arith in rw e (h, inl (λ e. cc, refl))
    | no fits ↦
        let e : ltb bits cidr ≡ false = ground arith in
        rw e (
          finish (place ops first second t key cidr peer)
            (place-Outcome first second t key cidr peer h (omega arith)))
  ]
    where
      finish :
          (r : Status × Trie Key)
          → Outcome ops laws t key cidr peer r
          → WellFormed ops r.1
            × (((r.0 ≢ success) × (r.1 ≡ t))
                ⊎ (r.0 ≡ success)
                  × ((ip : Key) (c : ℕ)
                      → entry_at ops r.1 ip c ≡ (
                          if same_prefix ops cidr key c ip
                          then some peer
                          else entry_at ops t ip c)))
      finish r (inl e) = rw e (h, inl (λ e'. cc, refl))
      finish r (inr p) = (p.well_formed, inr (p.succeeded, p.entries))
