-- ===== src/PeerLookup/Refine.antt =====
-- driver/peerlookup.c: the table of indices is a map from indices to entries.
use amneziawg_nt.Base.{
  take, ℕ, ◌≤◌, true, false, ◌||◌, Option, none, some, List, [], ◌∷◌, ◌≡◌, refl, arith, ◌==◌,
  if◌then◌else◌, Bool-cases, inl, inr, ap, ==_iff,
}
use amneziawg_nt.PeerLookup.{
  IndexEntry, IndexTable, index_table_alloc, index_bucket, first_with, is_taken,
}
use amneziawg_nt.PeerLookup.Unique.{IndexEvent, removed, tried, replaced, index_run}

abbrev pub IndexMap : Type 0
IndexMap = ℕ → Option IndexEntry

abbrev pub without_id : ℕ → Option IndexEntry → Option IndexEntry
without_id id none = none
without_id id (some e) = if e.id == id then none else some e

abbrev pub renamed : ℕ → IndexEntry → Option IndexEntry → Option IndexEntry
renamed id new none = none
renamed id new (some e) = if e.id == id then some (record new { index = e.index }) else some e

-- A call on the map: an entry goes, or takes an index that is free, or its index goes to another.
abbrev pub map_step : IndexMap → IndexEvent → IndexMap
map_step m (removed id) j = without_id id (m j)
map_step m (tried e i in_use) j =
    if in_use || is_taken (m i) then m j else if j == i then some (record e { index = i }) else m j
map_step m (replaced hashed id new) j = if hashed then renamed id new (m j) else m j

abbrev pub map_run : IndexMap → List IndexEvent → IndexMap
map_run m [] = m
map_run m (e ∷ es) = map_run (map_step m e) es

abbrev pub empty_map : IndexMap
empty_map i = none

abbrev pub found : IndexTable → IndexMap
found t i = first_with i (t (index_bucket i))

pub found-add :
    (t : IndexTable) (e : IndexEntry) (i j : ℕ)
    → first_with j (
        if index_bucket j == index_bucket i
        then record e { index = i } ∷ t (index_bucket j)
        else t (index_bucket j))
      ≡ (if j == i then some (record e { index = i }) else found t j)
found-add t e i j = elim (Bool-cases (j == i)) [
  | inl a ↦
      let home : (index_bucket j == index_bucket i) ≡ true =
        (==_iff _ _).1 (ap index_bucket ((==_iff j i).0 a)) in
      let same : (i == j) ≡ true = ground arith in rw (home, a) (rw same refl)
  | inr a ↦
      let other : (i == j) ≡ false = ground arith in
      elim (Bool-cases (index_bucket j == index_bucket i)) [
        | inl b ↦ rw (b, a) (rw other refl)
        | inr b ↦ rw (b, a) refl
      ]
]

-- The table after the first steps of a run.
abbrev pub table_at : List IndexEvent → ℕ → IndexTable
table_at es n = index_run index_table_alloc (take n es)

-- The entries that a walk visits stood in the table as they are seen, each at some moment from the start
-- of the walk on.
abbrev pub WasThere : List IndexEvent → ℕ → List IndexEntry → Type 0
WasThere es start [] = Unit {0}
WasThere es start (e ∷ visited) =
    ((n : ℕ) × (start ≤ n) × (found (table_at es n) e.index ≡ some e)) × WasThere es start visited
