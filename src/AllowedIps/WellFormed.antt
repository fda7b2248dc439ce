-- ===== src/AllowedIps/WellFormed.antt =====
-- The tree's invariant, and the map from prefixes to peers that a tree stands for.
use amneziawg_nt.Base.{
  arith, ℕ, zero, suc, ◌≤◌, ◌<◌, ◌≡◌, ◌≢◌, Bool, true, false, ◌&&◌, Option, none, some, leb, ◌==◌,
  if◌then◌else◌,
}
use amneziawg_nt.AllowedIps.{KeyOps, Trie, leaf, node}

abbrev pub All : {Key : Type 0} → (ℕ → Key → Type 0) → Trie Key → Type 0
All P leaf = Unit {0}
All P (node q c k zeros ones) = P c k × All P zeros × All P ones

abbrev pub IsNode : {Key : Type 0} → Trie Key → Type 0
IsNode leaf = ⊥
IsNode (node q c k zeros ones) = Unit {0}

-- A node without a peer is there for its two children.
abbrev pub IsNeeded : {Key : Type 0} → Option ℕ → Trie Key → Trie Key → Type 0
IsNeeded none zeros ones = IsNode zeros × IsNode ones
IsNeeded (some p) zeros ones = Unit {0}

pub All-map :
    {Key : Type 0} (P Q : ℕ → Key → Type 0) (t : Trie Key)
    → ((c : ℕ) (k : Key) → P c k → Q c k)
    → All P t
    → All Q t
All-map P Q leaf f h = tt
All-map P Q (node q c k zeros ones) f h =
    (f c k h.0, All-map P Q zeros f h.1, All-map P Q ones f h.2)

unfoldable pub or_else : Option ℕ → Option ℕ → Option ℕ
or_else none b = b
or_else (some a) b = some a

-- The longest of the lengths up to `n` that has a peer.
unfoldable pub longest : (ℕ → Option ℕ) → ℕ → Option (ℕ × ℕ)
longest f zero = elim (f zero) [ none ↦ none | some p ↦ some (zero, p) ]
longest f (suc n) = elim (f (suc n)) [ none ↦ longest f n | some p ↦ some (suc n, p) ]

module _ {Key : Type 0} (ops : KeyOps Key) where
  open ops use {bits, common, choose}

  -- Below the slot `b` of a node with the prefix `k / c`.
  pub record Under (c : ℕ) (k : Key) (b : Bool) (c' : ℕ) (k' : Key) : Type 0 where
    pub longer : c < c'
    pub fits : c' ≤ bits
    pub shares : c ≤ common k k'
    pub side : choose c k' ≡ b

  abbrev pub WellFormed : Trie Key → Type 0
  WellFormed leaf = Unit {0}
  WellFormed (node q c k zeros ones) =
      (c ≤ bits)
      × All (Under c k false) zeros
      × All (Under c k true) ones
      × IsNeeded q zeros ones
      × WellFormed zeros
      × WellFormed ones

  -- `k / c` and `k' / c'` are one prefix.
  unfoldable pub same_prefix : ℕ → Key → ℕ → Key → Bool
  same_prefix c k c' k' = c == c' && leb c (common k k')

  -- The peer of the prefix `ip / cidr`, looked for in the whole tree.
  unfoldable pub entry_at : Trie Key → Key → ℕ → Option ℕ
  entry_at leaf ip cidr = none
  entry_at (node q c k zeros ones) ip cidr =
      if same_prefix c k cidr ip
      then q
      else or_else (entry_at zeros ip cidr) (entry_at ones ip cidr)

  pub same_prefix_fields :
      (c : ℕ) (k : Key) (c' : ℕ) (k' : Key)
      → same_prefix c k c' k' ≡ true
      → (c ≡ c') × (c ≤ common k k')
  unfolding same_prefix
  same_prefix_fields c k c' k' s = ground arith

  pub same_prefix_of_fields :
      (c : ℕ) (k : Key) (c' : ℕ) (k' : Key)
      → c ≡ c'
      → c ≤ common k k'
      → same_prefix c k c' k' ≡ true
  unfolding same_prefix
  same_prefix_of_fields c k c' k' e le = ground arith

  pub same_prefix_ne :
      (c : ℕ) (k : Key) (c' : ℕ) (k' : Key) → c ≢ c' → same_prefix c k c' k' ≡ false
  unfolding same_prefix
  same_prefix_ne c k c' k' ne = ground arith
