-- ===== src/AllowedIps/Placed.antt =====
-- What a tree with one entry changed is, and the new node of `Add` above a subtree.
use native.Mathlib.Decide.{dec_lt}
use amneziawg_nt.Base.{
  ℕ, ◌≤◌, ◌<◌, ◌≡◌, refl, ◌∙◌, sym, Bool, true, false, Option, some, arith, if◌then◌else◌, min,
}
use mathlib.Core.Path.{subst}
use amneziawg_nt.AllowedIps.{KeyOps, Trie, node, Status, success, connect, single}
use amneziawg_nt.AllowedIps.Laws.{KeyLaws}
use amneziawg_nt.AllowedIps.WellFormed.{
  All, All-map, IsNode, Under, WellFormed, same_prefix, entry_at, or_else,
}
use amneziawg_nt.AllowedIps.Strays.{or_else-none}

module _ {Key : Type 0} (ops : KeyOps Key) (laws : KeyLaws ops) where
  open ops use {bits, common, choose}

  -- `r` is the tree `t` with the entry `key / cidr` set to `peer`.
  pub record Placed (t : Trie Key) (key : Key) (cidr peer : ℕ) (r : Status × Trie Key)
      : Type 0 where
    pub succeeded : r.0 ≡ success
    pub is_node : IsNode r.1
    pub well_formed : WellFormed ops r.1
    pub entries :
        (ip : Key) (c : ℕ)
        → entry_at ops r.1 ip c
          ≡ (if same_prefix ops cidr key c ip then some peer else entry_at ops t ip c)
    pub below :
        (c : ℕ) (k : Key) (b : Bool)
        → All (Under ops c k b) t
        → Under ops c k b cidr key
        → All (Under ops c k b) r.1

  -- The nodes of a subtree share its root's prefix.
  pub record Within (c : ℕ) (k : Key) (c' : ℕ) (k' : Key) : Type 0 where
    pub least : c ≤ c'
    pub fits : c' ≤ bits
    pub shares : c ≤ common k k'

  Under-Within :
      (c : ℕ) (k : Key) (b : Bool) (t : Trie Key) → All (Under ops c k b) t → All (Within c k) t
  Under-Within c k b t =
      All-map (Under ops c k b) (Within c k) t
        (λ c' k' u. record { least = omega (arith, u.longer); fits = u.fits; shares = u.shares })

  pub WellFormed-Within :
      (q : Option ℕ) (c : ℕ) (k : Key) (zeros ones : Trie Key)
      → WellFormed ops (node q c k zeros ones)
      → All (Within c k) (node q c k zeros ones)
  WellFormed-Within q c k zeros ones h = (
    record { least = omega arith; fits = h.0; shares = omega (arith, laws.common_self k, h.0) },
    Under-Within c k false zeros h.1,
    Under-Within c k true ones h.2,
  )

  -- A node for a shorter prefix goes above a subtree.
  Within-Under :
      (c n : ℕ) (k key : Key) (t : Trie Key)
      → n < c
      → n ≤ common key k
      → All (Within c k) t
      → All (Under ops n key (choose n k)) t
  Within-Under c n k key t lt le = All-map (Within c k) (Under ops n key (choose n k)) t (λ c' k' w.
      record {
        longer = omega (arith, w.least);
        fits = w.fits;
        shares = laws.common_trans key k k' n le (omega (arith, w.shares));
        side = sym (laws.choose_same k k' n (omega (arith, w.shares)));
      })

  pub Within-Under_side :
      (c n : ℕ) (k key : Key) (b : Bool) (t : Trie Key)
      → choose n k ≡ b
      → n < c
      → n ≤ common k key
      → All (Within c k) t
      → All (Under ops n key b) t
  Within-Under_side c n k key b t side lt le h =
      subst (λ b. All (Under ops n key b) t) side
        (Within-Under c n k key t lt (omega (arith, laws.common_comm k key)) h)

  -- Keys on one side of a node share more than its prefix.
  shared_longer :
      (c : ℕ) (k : Key) (b : Bool) (c' : ℕ) (k' : Key) (cidr : ℕ) (key : Key)
      → Under ops c k b c' k'
      → Under ops c k b cidr key
      → c < common k' key
  shared_longer c k b c' k' cidr key u v = elim (dec_lt c (common k' key)) [
    | yes lt ↦ lt
    | no ge ↦ absurd (
        laws.choose_ne k' key c
          (omega (
            arith,
            laws.common_trans k' k key c (omega (arith, laws.common_comm k' k, u.shares)) v.shares,
          ))
          (omega (arith, v.longer, v.fits)) (u.side ∙ sym v.side))
  ]

  pub Under-shared :
      (c : ℕ) (k : Key) (b : Bool) (c' : ℕ) (k' : Key) (cidr n : ℕ) (key : Key)
      → Under ops c k b c' k'
      → Under ops c k b cidr key
      → n ≡ min cidr (common k' key)
      → Under ops c k b n key
  Under-shared c k b c' k' cidr n key u v e = record {
    longer = omega (arith, shared_longer c k b c' k' cidr key u v, v.longer);
    fits = omega (arith, v.fits);
    shares = v.shares;
    side = v.side;
  }

  -- The new node above the subtree, by the side of the subtree.
  pub above-Placed :
      (b : Bool) (q : Option ℕ) (c : ℕ) (k : Key) (zeros ones : Trie Key) (key : Key)
      (cidr peer : ℕ)
      → choose cidr k ≡ b
      → WellFormed ops (node q c k zeros ones)
      → cidr ≤ bits
      → cidr < c
      → cidr ≤ common k key
      → Placed
          (node q c k zeros ones)
          key
          cidr
          peer
          (success, connect b (node q c k zeros ones) (single (some peer) cidr key))
  above-Placed true q c k zeros ones key cidr peer side h fits lt le = record {
    succeeded = refl;
    is_node = tt;
    well_formed = (
      fits,
      tt,
      Within-Under_side c cidr k key true (node q c k zeros ones) side lt le
          (WellFormed-Within q c k zeros ones h),
      tt,
      tt,
      h,
    );
    entries = λ ip c'. unfold entry_at or_else in refl;
    below = λ c0 k0 b0 u v. (v, tt, u);
  }
  above-Placed false q c k zeros ones key cidr peer side h fits lt le = record {
    succeeded = refl;
    is_node = tt;
    well_formed = (
      fits,
      Within-Under_side c cidr k key false (node q c k zeros ones) side lt le
          (WellFormed-Within q c k zeros ones h),
      tt,
      tt,
      h,
      tt,
    );
    entries = λ ip c'. unfold entry_at in rw or_else-none refl;
    below = λ c0 k0 b0 u v. (v, u, tt);
  }
  -- A subtree beside the new node has nothing for the new prefix, nor for the shared one.
