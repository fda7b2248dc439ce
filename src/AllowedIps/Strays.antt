-- ===== src/AllowedIps/Strays.antt =====
-- Subtrees that hold nothing for an address.
use native.Mathlib.Decide.{dec_lt}
use amneziawg_nt.Base.{
  ℕ, ◌≤◌, ◌<◌, ◌≡◌, ◌≢◌, refl, ◌∙◌, sym, Bool, Option, none, some, arith, ◌==◌, if◌then◌else◌,
}
use amneziawg_nt.AllowedIps.{KeyOps, Trie, leaf, node}
use amneziawg_nt.AllowedIps.Laws.{KeyLaws}
use amneziawg_nt.AllowedIps.WellFormed.{All, All-map, Under, same_prefix, entry_at, or_else}

pub or_else-none : (a : Option ℕ) → or_else a none ≡ a
unfolding or_else
or_else-none none = refl
or_else-none (some p) = refl

module _ {Key : Type 0} (ops : KeyOps Key) (laws : KeyLaws ops) where
  open ops use {bits, common, choose}

  -- Nodes that differ from the address within their first `n + 1` bits.
  abbrev pub Strays : ℕ → Key → ℕ → Key → Type 0
  Strays n ip c k = (n < c) × (common k ip ≤ n)

  pub entry_at-Strays :
      (n : ℕ) (ip : Key) (t : Trie Key) (cidr : ℕ)
      → All (Strays n ip) t
      → entry_at ops t ip cidr ≡ none
  unfolding entry_at same_prefix or_else
  entry_at-Strays n ip leaf cidr h = refl
  entry_at-Strays n ip (node q c k zeros ones) cidr h =
      ground (arith, entry_at-Strays n ip zeros cidr h.1, entry_at-Strays n ip ones cidr h.2)

  -- A prefix no longer than those of the nodes is not among them.
  pub entry_at_short :
      (n : ℕ) (ip : Key) (t : Trie Key) (cidr : ℕ)
      → All (λ c k. n < c) t
      → cidr ≤ n
      → entry_at ops t ip cidr ≡ none
  unfolding entry_at same_prefix or_else
  entry_at_short n ip leaf cidr h le = refl
  entry_at_short n ip (node q c k zeros ones) cidr h le =
      ground (arith, entry_at_short n ip zeros cidr h.1 le, entry_at_short n ip ones cidr h.2 le)

  pub entry_at-node :
      (q : Option ℕ) (c : ℕ) (k : Key) (zeros ones : Trie Key) (ip : Key) (cidr : ℕ)
      → c ≤ common k ip
      → entry_at ops (node q c k zeros ones) ip cidr ≡ (
          if c == cidr then q else or_else (entry_at ops zeros ip cidr) (entry_at ops ones ip cidr))
  unfolding entry_at same_prefix
  entry_at-node q c k zeros ones ip cidr h = ground arith

  -- The subtree that the address does not choose holds nothing for it.
  pub Strays-of_side :
      (c : ℕ) (k : Key) (b : Bool) (t : Trie Key) (ip : Key)
      → choose c ip ≢ b
      → All (Under ops c k b) t
      → All (Strays c ip) t
  Strays-of_side c k b t ip ne =
      All-map (Under ops c k b) (Strays c ip) t (λ c' k' u. (u.longer, common_side c' k' u))
    where
      common_side : (c' : ℕ) (k' : Key) → Under ops c k b c' k' → common k' ip ≤ c
      common_side c' k' u = elim (dec_lt c (common k' ip)) [
        | yes far ↦ absurd (ne (sym (laws.choose_same k' ip c far) ∙ u.side))
        | no near ↦ omega arith
      ]

  -- Nothing below a node that the address does not match is for the address.
  pub Strays-of_parent :
      (c : ℕ) (k : Key) (b : Bool) (t : Trie Key) (ip : Key)
      → common k ip < c
      → All (Under ops c k b) t
      → All (Strays c ip) t
  Strays-of_parent c k b t ip off =
      All-map (Under ops c k b) (Strays c ip) t (λ c' k' u. (u.longer, common_off c' k' u))
    where
      common_off : (c' : ℕ) (k' : Key) → Under ops c k b c' k' → common k' ip ≤ c
      common_off c' k' u = elim (dec_lt c (common k' ip)) [
        | yes far ↦ absurd (omega (arith, laws.common_trans k k' ip c u.shares (omega arith)))
        | no near ↦ omega arith
      ]
