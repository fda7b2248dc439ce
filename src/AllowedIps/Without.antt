-- ===== src/AllowedIps/Without.antt =====
-- An entry after a removal, and what the nodes hold for the prefix that is removed.
use amneziawg_nt.Base.{ℕ, ◌≡◌, Bool, true, false, Option, none, arith, if◌then◌else◌, ◌&&◌}
use amneziawg_nt.AllowedIps.{same_peer}
use amneziawg_nt.AllowedIps.WellFormed.{or_else}

-- An entry after the removal: `hit` says whether it is for the prefix that was given.
unfoldable pub without : Bool → ℕ → Option ℕ → Option ℕ
without hit peer e = if hit && same_peer e peer then none else e

pub one_kept :
    (outer hit : Bool) (q z o o' : Option ℕ) (peer : ℕ)
    → (hit ≡ true → (outer ≡ false) × (z ≡ none))
    → o' ≡ without hit peer o
    → (if outer then q else or_else z o') ≡ without hit peer (if outer then q else or_else z o)
unfolding or_else without
one_kept outer hit q z o o' peer h e = rw e (ground (arith, h))

pub zero_kept :
    (outer hit : Bool) (q z o z' : Option ℕ) (peer : ℕ)
    → (hit ≡ true → (outer ≡ false) × (o ≡ none))
    → z' ≡ without hit peer z
    → (if outer then q else or_else z' o) ≡ without hit peer (if outer then q else or_else z o)
unfolding or_else without
zero_kept outer hit q z o z' peer h e = rw e (ground (arith, h))

-- The subtree that is left takes the place of a node without a peer.
pub zero_left :
    (outer hit : Bool) (z o : Option ℕ) (peer : ℕ)
    → (hit ≡ true → (outer ≡ false) × (z ≡ none))
    → (outer ≡ true → z ≡ none)
    → none ≡ without hit peer o
    → z ≡ without hit peer (if outer then none else or_else z o)
unfolding or_else without same_peer
zero_left outer hit z o peer h h' e = ground (arith, h, h', e)

pub one_left :
    (outer hit : Bool) (z o : Option ℕ) (peer : ℕ)
    → (hit ≡ true → (outer ≡ false) × (o ≡ none))
    → (outer ≡ true → o ≡ none)
    → none ≡ without hit peer z
    → o ≡ without hit peer (if outer then none else or_else z o)
unfolding or_else without same_peer
one_left outer hit z o peer h h' e = ground (arith, h, h', e)

-- The node for the prefix itself.
pub unlinked :
    (hit : Bool) (q rest : Option ℕ) (peer : ℕ)
    → same_peer q peer ≡ true
    → (if hit then none else rest) ≡ without hit peer (if hit then q else rest)
unfolding without
unlinked hit q rest peer h = ground (arith, h)

pub unlinked_first :
    (hit : Bool) (q rest : Option ℕ) (peer : ℕ)
    → same_peer q peer ≡ true
    → (hit ≡ true → rest ≡ none)
    → rest ≡ without hit peer (if hit then q else rest)
unfolding without
unlinked_first hit q rest peer h h' = ground (arith, h, h')

pub kept_none :
    (hit : Bool) (e : Option ℕ) (peer : ℕ) → (hit ≡ true → e ≡ none) → e ≡ without hit peer e
unfolding without
kept_none hit e peer h = ground (arith, h)

pub kept :
    (hit : Bool) (q rest : Option ℕ) (peer : ℕ)
    → same_peer q peer ≡ false
    → (if hit then q else rest) ≡ without hit peer (if hit then q else rest)
unfolding without
kept hit q rest peer h = ground (arith, h)
