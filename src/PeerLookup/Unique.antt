-- ===== src/PeerLookup/Unique.antt =====
-- driver/peerlookup.c: an index names one entry at most, however the calls of many threads mix.
use amneziawg_nt.Base.{
  ap, ==_iff, ℕ, suc, ◌≤◌, Bool, true, false, Option, none, some, List, [], ◌∷◌, ◌≡◌, refl, arith,
  ◌==◌, if◌then◌else◌, Bool-cases, inl, inr,
}
use amneziawg_nt.PeerLookup.{
  IndexEntry, IndexTable, index_table_alloc, index_bucket, delete, index_remove, first_with,
  is_taken, index_try, swap, index_replace,
}

-- The moments at which a thread changes the table: `IndexHashtableInsert` has two, the removal of
-- the entry and each round of its search.
pub data IndexEvent : Type 0 where
  removed : ℕ → IndexEvent
  tried : IndexEntry → ℕ → Bool → IndexEvent
  replaced : Bool → ℕ → IndexEntry → IndexEvent

abbrev pub or_same : IndexTable → Option IndexTable → IndexTable
or_same t none = t
or_same t (some t') = t'

unfoldable pub index_step : IndexTable → IndexEvent → IndexTable
index_step t (removed id) = index_remove t id
index_step t (tried e i in_use) = or_same t (index_try t e i in_use)
index_step t (replaced hashed id new) = (index_replace t hashed id new).1

unfoldable pub index_run : IndexTable → List IndexEvent → IndexTable
unfolding index_step
index_run t [] = t
index_run t (e ∷ es) = index_run (index_step t e) es

-- How many entries of a bucket have an index.
abbrev pub uses : ℕ → List IndexEntry → ℕ
uses i [] = 0
uses i (e ∷ es) = let rest = uses i es in if e.index == i then suc rest else rest

-- An index is used once at most, and in its bucket.
abbrev pub IsUnique : IndexTable → Type 0
IsUnique t = (b i : ℕ) → uses i (t b) ≤ (if b == index_bucket i then 1 else 0)

uses-delete : (i id : ℕ) (es : List IndexEntry) → uses i (delete id es) ≤ uses i es
uses-delete i id [] = omega arith
uses-delete i id (e ∷ es) = ground (arith, uses-delete i id es)

uses-swap :
    (i id : ℕ) (new : IndexEntry) (es : List IndexEntry) → uses i (swap id new es) ≡ uses i es
uses-swap i id new [] = refl
uses-swap i id new (e ∷ es) =
    let rest : (if e.index == i then suc (uses i (swap id new es)) else uses i (swap id new es))
        ≡ (if e.index == i then suc (uses i es) else uses i es) =
      ap (λ n. if e.index == i then suc n else n) (uses-swap i id new es) in
    elim (Bool-cases (e.id == id)) [ inl s ↦ rw s rest | inr s ↦ rw s rest ]

pub first-with-none :
    (i : ℕ) (es : List IndexEntry) → is_taken (first_with i es) ≡ false → uses i es ≡ 0
first-with-none i [] h = refl
first-with-none i (e ∷ es) h = ground (arith, first-with-none i es)

-- An unused index can be added to its bucket.
add-IsUnique :
    (t : IndexTable) (e : IndexEntry) (i : ℕ)
    → IsUnique t
    → is_taken (first_with i (t (index_bucket i))) ≡ false
    → IsUnique (λ b. if b == index_bucket i then record e { index = i } ∷ t b else t b)
add-IsUnique t e i u free b j = elim (Bool-cases (b == index_bucket i)) [
  | inr eb ↦ rw eb (u b j)
  | inl eb ↦ rw eb (elim (Bool-cases (i == j)) [
    | inr ej ↦ rw ej (u b j)
    | inl ej ↦
        let at : b ≡ index_bucket i = (==_iff b (index_bucket i)).0 eb in
        let same : i ≡ j = (==_iff i j).0 ej in
        let none_yet : uses i (t (index_bucket i)) ≡ 0 =
          first-with-none i (t (index_bucket i)) free in
        let none_here : uses j (t b) ≡ 0 = cc in
        let home : (b == index_bucket j) ≡ true = (==_iff b (index_bucket j)).1 cc in
        rw (ej, home) (omega (arith, none_here))
  ])
]

try-IsUnique :
    (t : IndexTable) (e : IndexEntry) (i : ℕ) (in_use : Bool)
    → IsUnique t
    → IsUnique (or_same t (index_try t e i in_use))
unfolding index_try
try-IsUnique t e i true u b j = u b j
try-IsUnique t e i false u b j = elim (Bool-cases (is_taken (first_with i (t (index_bucket i))))) [
  | inl k ↦ rw k (u b j)
  | inr k ↦ rw k (add-IsUnique t e i u k b j)
]

pub step-IsUnique : (t : IndexTable) (e : IndexEvent) → IsUnique t → IsUnique (index_step t e)
unfolding index_step index_remove index_replace
step-IsUnique t (removed id) u b i = omega (arith, uses-delete i id (t b), u b i)
step-IsUnique t (tried e i in_use) u b i' = try-IsUnique t e i in_use u b i'
step-IsUnique t (replaced true id new) u b i = omega (arith, uses-swap i id new (t b), u b i)
step-IsUnique t (replaced false id new) u b i = u b i

pub alloc-IsUnique : IsUnique index_table_alloc
unfolding index_table_alloc
alloc-IsUnique b i = omega arith

-- Whatever the threads do, in any order, from an empty table on: no two entries have one index,
-- and an entry is in the bucket of its index.
pub run-IsUnique : (es : List IndexEvent) → IsUnique (index_run index_table_alloc es)
unfolding index_run
run-IsUnique es = go es index_table_alloc alloc-IsUnique
  where
    go : (es : List IndexEvent) (t : IndexTable) → IsUnique t → IsUnique (index_run t es)
    go [] t u = u
    go (e ∷ es) t u = go es (index_step t e) (step-IsUnique t e u)
