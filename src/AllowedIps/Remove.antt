-- ===== src/AllowedIps/Remove.antt =====
-- `Remove`: the tree stays well formed, and stands for the map without the one entry.
use native.Mathlib.Decide.{dec_lt, ℕ_discrete}
use amneziawg_nt.Base.{
  ℕ, ◌≤◌, ◌<◌, ◌≡◌, refl, ◌⊎◌, inl, inr, true, false, Option, none, arith, leb, ltb, ◌==◌,
  if◌then◌else◌, Bool-cases, ◌&&◌,
}
use amneziawg_nt.AllowedIps.{
  KeyOps, Trie, leaf, node, success, invalid_parameter, prefix_matches, absent, unlink, after_child,
  same_peer, remove_at, remove,
}
use amneziawg_nt.AllowedIps.Laws.{KeyLaws}
use amneziawg_nt.AllowedIps.WellFormed.{
  All-map, Under, WellFormed, same_prefix, entry_at, same_prefix_fields,
}
use amneziawg_nt.AllowedIps.Strays.{entry_at_short}
use amneziawg_nt.AllowedIps.Find.{entry_at_off}
use amneziawg_nt.AllowedIps.Split.{same_length, other_length}
use amneziawg_nt.AllowedIps.Add.{on_fields}
use amneziawg_nt.AllowedIps.Without.{kept_none, without}
use amneziawg_nt.AllowedIps.Unlink.{unlink-Outcome, kept-Outcome, Outcome, Removed}
use amneziawg_nt.AllowedIps.Prune.{one_after, zero_after}

module _ {Key : Type 0} (ops : KeyOps Key) (laws : KeyLaws ops) where
  open ops use {bits, common, choose}

  -- `remove_at` at a node, branch by branch.
  module _ (q : Option ℕ) (c : ℕ) (k : Key) (zeros ones : Trie Key) (key : Key)
      (cidr peer : ℕ) where
    remove_at_off :
        (leb c cidr && prefix_matches ops c k key) ≡ false
        → remove_at ops (node q c k zeros ones) key cidr peer ≡ absent
    unfolding remove_at
    remove_at_off e = rw (e, remove_at) refl

    remove_at_same :
        (leb c cidr && prefix_matches ops c k key) ≡ true
        → (c == cidr) ≡ true
        → remove_at ops (node q c k zeros ones) key cidr peer
          ≡ (if same_peer q peer then unlink (node q c k zeros ones) else absent)
    unfolding remove_at
    remove_at_same e e' = rw (e, e', remove_at) refl

    remove_at_one :
        (leb c cidr && prefix_matches ops c k key) ≡ true
        → (c == cidr) ≡ false
        → choose c key ≡ true
        → remove_at ops (node q c k zeros ones) key cidr peer
          ≡ after_child q c k true zeros ones (remove_at ops ones key cidr peer)
    unfolding remove_at
    remove_at_one e e' side = rw (e, e', side, remove_at) refl

    remove_at_zero :
        (leb c cidr && prefix_matches ops c k key) ≡ true
        → (c == cidr) ≡ false
        → choose c key ≡ false
        → remove_at ops (node q c k zeros ones) key cidr peer
          ≡ after_child q c k false zeros ones (remove_at ops zeros key cidr peer)
    unfolding remove_at
    remove_at_zero e e' side = rw (e, e', side, remove_at) refl

  off_fields :
      (c cidr : ℕ) (k key : Key)
      → (leb c cidr && prefix_matches ops c k key) ≡ false
      → c ≤ cidr
      → ¬ (c ≤ common k key)
  unfolding prefix_matches
  off_fields c cidr k key e le shares = ground arith

  -- A node that is not on the prefix's path has nothing for the prefix below it.
  off-Outcome :
      (q : Option ℕ) (c : ℕ) (k : Key) (zeros ones : Trie Key) (key : Key) (cidr peer : ℕ)
      → WellFormed ops (node q c k zeros ones)
      → (leb c cidr && prefix_matches ops c k key) ≡ false
      → Removed ops laws (node q c k zeros ones) key cidr peer (node q c k zeros ones)
  off-Outcome q c k zeros ones key cidr peer h off = record {
    well_formed = h;
    entries = λ ip c'. kept_none _ _ peer (missed ip c');
    below = λ c0 k0 b0 u. u;
  }
    where
      missed :
          (ip : Key) (c' : ℕ)
          → same_prefix ops cidr key c' ip ≡ true
          → entry_at ops (node q c k zeros ones) ip c' ≡ none
      missed ip c' s =
          let (e, near) = same_prefix_fields ops cidr key c' ip s in
          elim (dec_lt cidr c) [
            | yes long ↦
                entry_at_short ops laws cidr ip (node q c k zeros ones) c'
                  (
                    long,
                    All-map (Under ops c k false) (λ c1 k1. cidr < c1) zeros
                        (λ c1 k1 u. omega (arith, u.longer)) h.1,
                    All-map (Under ops c k true) (λ c1 k1. cidr < c1) ones
                        (λ c1 k1 u. omega (arith, u.longer)) h.2,
                  )
                  (omega arith)
            | no le ↦ entry_at_off ops laws q c k zeros ones ip h (apart le near) c'
          ]
        where
          apart : ¬ (cidr < c) → cidr ≤ common key ip → common k ip < c
          apart le near = elim (dec_lt (common k ip) c) [
            | yes lt ↦ lt
            | no ge ↦ absurd (
                off_fields c cidr k key off (omega arith) (
                  laws.common_trans k ip key c (omega arith)
                    (omega (arith, laws.common_comm key ip))))
          ]

  remove_at-Outcome :
      (t : Trie Key) (key : Key) (cidr peer : ℕ)
      → WellFormed ops t
      → Outcome ops laws t key cidr peer (remove_at ops t key cidr peer)
  remove_at-Outcome leaf key cidr peer h =
      unfold remove_at entry_at in
      (
        record {
          well_formed = tt;
          entries = λ ip c'. kept_none _ none peer (λ s. refl);
          below = λ c0 k0 b0 u. tt;
        },
        tt,
      )
  remove_at-Outcome (node q c k zeros ones) key cidr peer h =
      elim (Bool-cases (leb c cidr && prefix_matches ops c k key)) [
        | inr off ↦
            rw (remove_at_off q c k zeros ones key cidr peer off)
              (off-Outcome q c k zeros ones key cidr peer h off, tt)
        | inl on ↦
            let (le, shares) = on_fields ops laws c cidr k key on in
            elim (ℕ_discrete c cidr) [
              | yes e ↦
                  rw (remove_at_same q c k zeros ones key cidr peer on (same_length c cidr e))
                    (elim (Bool-cases (same_peer q peer)) [
                      | inl same ↦
                          rw same
                            (unlink-Outcome ops laws c k key cidr shares e q peer zeros ones same h)
                      | inr other ↦ rw other (
                        kept-Outcome ops laws c k key cidr shares e q peer zeros ones other h,
                        tt,
                      )
                    ])
              | no ne ↦ elim (Bool-cases (choose c key)) [
                | inl one ↦
                    rw
                      (remove_at_one q c k zeros ones key cidr peer on (other_length c cidr ne) one)
                      (one_after ops laws c k zeros ones key cidr peer (omega arith) one q _ h
                        (remove_at-Outcome ones key cidr peer h.5))
                | inr nil ↦
                    rw
                      (remove_at_zero q c k zeros ones key cidr peer on (other_length c cidr ne)
                        nil)
                      (zero_after ops laws c k zeros ones key cidr peer (omega arith) nil q _ h
                        (remove_at-Outcome zeros key cidr peer h.4))
              ]
            ]
      ]

  -- `Remove` on a well-formed tree leaves a well-formed tree. A prefix length beyond the key's is
  -- refused and the tree stays. Otherwise the prefix `key / cidr` loses its peer where that is the
  -- given peer, and every other prefix, or another peer's prefix, keeps the peer it had.
  pub remove-updates :
      (t : Trie Key) (key : Key) (cidr peer : ℕ)
      → WellFormed ops t
      → WellFormed ops (remove ops t key cidr peer).1
        × ((bits < cidr) × (remove ops t key cidr peer ≡ (invalid_parameter, t))
            ⊎ (cidr ≤ bits)
              × ((remove ops t key cidr peer).0 ≡ success)
              × ((ip : Key) (c : ℕ)
                  → entry_at ops (remove ops t key cidr peer).1 ip c ≡ (
                      if same_prefix ops cidr key c ip && same_peer (entry_at ops t ip c) peer
                      then none
                      else entry_at ops t ip c)))
  unfolding remove without
  remove-updates t key cidr peer h = elim (dec_lt bits cidr) [
    | yes long ↦ let e : ltb bits cidr ≡ true = ground arith in rw e (h, inl (long, refl))
    | no fits ↦
        let e : ltb bits cidr ≡ false = ground arith in
        let (r, n) = remove_at-Outcome t key cidr peer h in
        rw e (r.well_formed, inr (omega arith, refl, r.entries))
  ]
