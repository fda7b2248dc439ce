-- ===== src/AllowedIps/Split.antt =====
-- `Add` where the new node goes above a subtree, or beside it below a new node.
use native.Mathlib.Decide.{dec_lt}
use amneziawg_nt.Base.{
  ℕ, ◌≤◌, ◌<◌, ◌≡◌, ◌≢◌, refl, sym, ◌⊎◌, inl, inr, Bool, true, false, Option, arith, leb, ◌==◌,
  Bool-cases, min, ◌&&◌, not,
}
use amneziawg_nt.AllowedIps.{
  KeyOps, Trie, node, Status, insufficient_resources, prefix_matches, split_above,
}
use amneziawg_nt.AllowedIps.Laws.{KeyLaws}
use amneziawg_nt.AllowedIps.WellFormed.{WellFormed}
use amneziawg_nt.AllowedIps.Placed.{Placed, above-Placed}
use amneziawg_nt.AllowedIps.Beside.{beside-Placed}

Bool-other : (a b : Bool) → a ≢ b → b ≡ not a
Bool-other true true ne = absurd (ne refl)
Bool-other true false ne = refl
Bool-other false true ne = refl
Bool-other false false ne = absurd (ne refl)

above_shorter : (c cidr m : ℕ) → (leb c cidr && leb c m) ≡ false → cidr ≤ m → cidr < c
above_shorter c cidr m e le = ground arith

beside_shorter : (c cidr m : ℕ) → (leb c cidr && leb c m) ≡ false → m < cidr → m < c
beside_shorter c cidr m e lt = ground arith

pub same_length : (c cidr : ℕ) → c ≡ cidr → (c == cidr) ≡ true
same_length c cidr e = ground arith

pub other_length : (c cidr : ℕ) → c ≢ cidr → (c == cidr) ≡ false
other_length c cidr ne = ground arith

min_above : (cidr m : ℕ) → cidr ≤ m → (cidr == min cidr m) ≡ true
min_above cidr m le = grind arith

min_beside : (cidr m : ℕ) → m < cidr → ((cidr == min cidr m) ≡ false) × (min cidr m ≡ m)
min_beside cidr m lt = (grind arith, omega arith)

module _ {Key : Type 0} (ops : KeyOps Key) (laws : KeyLaws ops) where
  open ops use {bits, common, choose}

  -- What `Add` does at a subtree: nothing, where an allocation fails, or the one change.
  abbrev pub Outcome : Trie Key → Key → ℕ → ℕ → Status × Trie Key → Type 0
  Outcome t key cidr peer r = (r ≡ (insufficient_resources, t)) ⊎ Placed ops laws t key cidr peer r

  pub split_above-Outcome :
      (second : Bool) (q : Option ℕ) (c : ℕ) (k : Key) (zeros ones : Trie Key) (key : Key)
      (cidr peer : ℕ)
      → WellFormed ops (node q c k zeros ones)
      → cidr ≤ bits
      → (leb c cidr && prefix_matches ops c k key) ≡ false
      → Outcome
          (node q c k zeros ones)
          key
          cidr
          peer
          (split_above ops second (node q c k zeros ones) k key cidr peer)
  unfolding split_above prefix_matches
  split_above-Outcome second q c k zeros ones key cidr peer h fits off =
      elim (dec_lt (common k key) cidr) [
        | no ge ↦ rw (min_above cidr (common k key) (omega arith)) (
            inr (
              above-Placed ops laws (choose cidr k) q c k zeros ones key cidr peer refl h fits
                (above_shorter c cidr (common k key) off (omega arith)) (omega arith)))
        | yes lt ↦ elim (Bool-cases second) [
          | inr none_left ↦ rw ((min_beside cidr (common k key) lt).0, none_left) (inl refl)
          | inl one_left ↦
              rw
                (
                  (min_beside cidr (common k key) lt).0,
                  (min_beside cidr (common k key) lt).1,
                  one_left,
                  side lt,
                )
                (inr (
                  beside-Placed ops laws (choose (common k key) key) q c k zeros ones key cidr
                    (common k key) peer refl (side lt) h fits lt
                    (beside_shorter c cidr (common k key) off lt) refl))
        ]
      ]
    where
      side : common k key < cidr → choose (common k key) k ≡ not (choose (common k key) key)
      side lt =
          Bool-other (choose (common k key) key) (choose (common k key) k)
            (λ e. laws.choose_ne k key (common k key) refl (omega arith) (sym e))
