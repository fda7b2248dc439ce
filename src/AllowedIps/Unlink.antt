-- ===== src/AllowedIps/Unlink.antt =====
-- `RemoveNode` on the node for the prefix itself.
use amneziawg_nt.Base.{
  ℕ, ◌≤◌, ◌<◌, ◌≡◌, refl, ◌∙◌, sym, Bool, true, false, Option, none, arith, if◌then◌else◌,
}
use amneziawg_nt.AllowedIps.{
  KeyOps, Trie, leaf, node, Removal, absent, changed, gone, settle, unlink, same_peer,
}
use amneziawg_nt.AllowedIps.Laws.{KeyLaws}
use amneziawg_nt.AllowedIps.WellFormed.{
  All, All-map, IsNode, Under, WellFormed, same_prefix, entry_at, or_else, same_prefix_fields,
}
use amneziawg_nt.AllowedIps.Strays.{entry_at_short, or_else-none}
use amneziawg_nt.AllowedIps.Descend.{same_prefix_same}
use amneziawg_nt.AllowedIps.Without.{kept, unlinked, unlinked_first, without}

module _ {Key : Type 0} (ops : KeyOps Key) (laws : KeyLaws ops) where
  open ops use {bits, common, choose}

  -- `t'` is `t` without the entry `key / cidr`, had that entry the peer `peer`.
  pub record Removed (t : Trie Key) (key : Key) (cidr peer : ℕ) (t' : Trie Key) : Type 0 where
    pub well_formed : WellFormed ops t'
    pub entries :
        (ip : Key) (c : ℕ)
        → entry_at ops t' ip c ≡ without (same_prefix ops cidr key c ip) peer (entry_at ops t ip c)
    pub below : (c : ℕ) (k : Key) (b : Bool) → All (Under ops c k b) t → All (Under ops c k b) t'

  -- A subtree that stands in for another is not empty.
  abbrev Stays : Removal Key → Type 0
  Stays absent = Unit {0}
  Stays (changed t) = IsNode t
  Stays gone = Unit {0}

  abbrev pub Outcome : Trie Key → Key → ℕ → ℕ → Removal Key → Type 0
  Outcome t key cidr peer r = Removed t key cidr peer (settle t r) × Stays r

  -- Below a node for the prefix `key / cidr` itself, no node is for it.
  module _ (c : ℕ) (k key : Key) (cidr : ℕ) (on : c ≤ common k key) (e : c ≡ cidr) where
    entry_at-same :
        (q : Option ℕ) (zeros ones : Trie Key) (ip : Key) (c' : ℕ)
        → entry_at ops (node q c k zeros ones) ip c' ≡ (
            if same_prefix ops cidr key c' ip
            then q
            else or_else (entry_at ops zeros ip c') (entry_at ops ones ip c'))
    entry_at-same q zeros ones ip c' =
        unfold entry_at in rw (sym e, same_prefix_same ops laws c k key ip c' on) refl

    entry_at-same_last :
        (q : Option ℕ) (zeros : Trie Key) (ip : Key) (c' : ℕ)
        → entry_at ops (node q c k zeros leaf) ip c'
          ≡ (if same_prefix ops cidr key c' ip then q else entry_at ops zeros ip c')
    entry_at-same_last q zeros ip c' =
        entry_at-same q zeros leaf ip c'
        ∙ (unfold entry_at in rw (or_else-none (entry_at ops zeros ip c')) refl)

    short :
        (b : Bool) (t : Trie Key) (ip : Key) (c' : ℕ)
        → All (Under ops c k b) t
        → same_prefix ops cidr key c' ip ≡ true
        → entry_at ops t ip c' ≡ none
    short b t ip c' u s =
        entry_at_short ops laws c ip t c'
          (All-map (Under ops c k b) (λ c1 k1. c < c1) t (λ c1 k1 u. u.longer) u)
          (omega (arith, same_prefix_fields ops cidr key c' ip s))

    pub unlink-Outcome :
        (q : Option ℕ) (peer : ℕ) (zeros ones : Trie Key)
        → same_peer q peer ≡ true
        → WellFormed ops (node q c k zeros ones)
        → Outcome (node q c k zeros ones) key cidr peer (unlink (node q c k zeros ones))
    unfolding unlink
    unlink-Outcome q peer leaf leaf same h = (
      record {
        well_formed = tt;
        entries = λ ip c'.
            rw (entry_at-same q leaf leaf ip c')
              (unfold entry_at or_else in unlinked_first _ q none peer same (λ s. refl));
        below = λ c0 k0 b0 u. tt;
      },
      tt,
    )
    unlink-Outcome q peer leaf (node q' c1 k1 z1 o1) same h = (
      record {
        well_formed = h.5;
        entries = λ ip c'. rw (entry_at-same q leaf (node q' c1 k1 z1 o1) ip c') (
            unfold entry_at or_else in
            unlinked_first _ q _ peer same (short true (node q' c1 k1 z1 o1) ip c' h.2));
        below = λ c0 k0 b0 u. u.2;
      },
      tt,
    )
    unlink-Outcome q peer (node q' c1 k1 z1 o1) leaf same h = (
      record {
        well_formed = h.4;
        entries = λ ip c'.
            rw (entry_at-same_last q (node q' c1 k1 z1 o1) ip c')
              (unlinked_first _ q _ peer same (short false (node q' c1 k1 z1 o1) ip c' h.1));
        below = λ c0 k0 b0 u. u.1;
      },
      tt,
    )
    unlink-Outcome q peer (node q' c1 k1 z1 o1) (node q2 c2 k2 z2 o2) same h = (
      record {
        well_formed = (h.0, h.1, h.2, (tt, tt), h.4, h.5);
        entries = λ ip c'.
            rw
              (
                entry_at-same none (node q' c1 k1 z1 o1) (node q2 c2 k2 z2 o2) ip c',
                entry_at-same q (node q' c1 k1 z1 o1) (node q2 c2 k2 z2 o2) ip c',
              )
              (unlinked _ q _ peer same);
        below = λ c0 k0 b0 u. u;
      },
      tt,
    )

    pub kept-Outcome :
        (q : Option ℕ) (peer : ℕ) (zeros ones : Trie Key)
        → same_peer q peer ≡ false
        → WellFormed ops (node q c k zeros ones)
        → Removed (node q c k zeros ones) key cidr peer (node q c k zeros ones)
    kept-Outcome q peer zeros ones other h = record {
      well_formed = h;
      entries = λ ip c'. rw (entry_at-same q zeros ones ip c') (kept _ q _ peer other);
      below = λ c0 k0 b0 u. u;
    }
