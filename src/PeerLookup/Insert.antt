-- ===== src/PeerLookup/Insert.antt =====
-- driver/peerlookup.c: the search for an unused index ends.
use amneziawg_nt.Base.{
  IsIn, ◌⊎◌, ℕ, suc, ◌≤◌, ◌<◌, Bool, true, false, ◌||◌, Option, some, List, [], ◌∷◌, ◌≡◌, refl,
  arith, ◌==◌, if◌then◌else◌, Bool-cases, inl, inr, ap, ◌∙◌, sym, ==_iff, length,
}
use amneziawg_nt.PeerLookup.{
  Round, IndexEntry, IndexTable, index_bucket, is_taken, index_try, search_unused, index_remove,
  index_insert,
}
use amneziawg_nt.PeerLookup.Refine.{found, found-add}

abbrev pub elem : ℕ → List ℕ → Bool
elem i [] = false
elem i (x ∷ xs) = x == i || elem i xs

abbrev pub NoRepeat : List ℕ → Type 0
NoRepeat [] = Unit {0}
NoRepeat (x ∷ xs) = (elem x xs ≡ false) × NoRepeat xs

abbrev remove_one : ℕ → List ℕ → List ℕ
remove_one i [] = []
remove_one i (x ∷ xs) = if x == i then xs else x ∷ remove_one i xs

length-remove_one :
    (i : ℕ) (xs : List ℕ) → elem i xs ≡ true → length xs ≡ suc (length (remove_one i xs))
length-remove_one i [] h = cc
length-remove_one i (x ∷ xs) h = ground (arith, length-remove_one i xs)

elem-remove_one :
    (i j : ℕ) (xs : List ℕ) → (i == j) ≡ false → elem j xs ≡ true → elem j (remove_one i xs) ≡ true
elem-remove_one i j [] n h = cc
elem-remove_one i j (x ∷ xs) n h = ground (arith, elem-remove_one i j xs)

elem_ne : (i j : ℕ) (xs : List ℕ) → elem i xs ≡ false → elem j xs ≡ true → (i == j) ≡ false
elem_ne i j [] n h = cc
elem_ne i j (x ∷ xs) n h = ground (arith, elem_ne i j xs)

-- A list without repeats whose elements all stand in another is not longer.
length-included :
    (xs ns : List ℕ)
    → NoRepeat xs
    → ((i : ℕ) → elem i xs ≡ true → elem i ns ≡ true)
    → length xs ≤ length ns
length-included [] ns d h = omega arith
length-included (x ∷ xs) ns (fresh, d) h =
    let here : elem x ns ≡ true = h x (ground arith) in
    let rest : length xs ≤ length (remove_one x ns) =
      length-included xs (remove_one x ns) d
        (λ i m. elem-remove_one x i ns (elem_ne x i xs fresh m) (h i (ground arith))) in
    omega (arith, rest, length-remove_one x ns here)

abbrev pub drawn_in : List Round → List ℕ
drawn_in [] = []
drawn_in (r ∷ rounds) = r.drawn ∷ drawn_in rounds

-- In each round the indices in use, as the search sees them and under the lock, are in a list.
abbrev pub IsCovered : List ℕ → List Round → Type 0
IsCovered ns [] = Unit {0}
IsCovered ns (r ∷ rounds) =
    ((i : ℕ) → (is_taken (found r.seen i) || is_taken (found r.locked i)) ≡ true → elem i ns ≡ true)
    × IsCovered ns rounds

-- A round in which the index drawn is free under the lock, and the table with the entry added.
abbrev pub Inserted : IndexEntry → List Round → Option (ℕ × IndexTable) → Type 0
Inserted e rounds result =
    (r : Round) × (t' : IndexTable) × (result ≡ some (r.drawn, t'))
    × IsIn r rounds
    × (is_taken (found r.locked r.drawn) ≡ false)
    × ((j : ℕ)
        → found t' j
          ≡ (if j == r.drawn then some (record e { index = r.drawn }) else found r.locked j))

-- A search that does not end has drawn indices of the list only.
search-cases :
    (e : IndexEntry) (rounds : List Round) (ns : List ℕ)
    → IsCovered ns rounds
    → ((i : ℕ) → elem i (drawn_in rounds) ≡ true → elem i ns ≡ true)
      ⊎ Inserted e rounds (search_unused e rounds)
unfolding search_unused index_try
search-cases e [] ns c = inl (λ i m. cc)
search-cases e (r ∷ rounds) ns (here, c) =
    elim (Bool-cases (is_taken (found r.seen r.drawn) || is_taken (found r.locked r.drawn))) [
      | inr k ↦ inr (
        r,
        (λ b.
            if b == index_bucket r.drawn
            then record e { index = r.drawn } ∷ r.locked b
            else r.locked b),
        rw (k, search_unused) refl,
        inl refl,
        ground arith,
        found-add r.locked e r.drawn,
      )
      | inl k ↦ elim (search-cases e rounds ns c) [
        | inl all ↦ inl (λ i m. elim (Bool-cases (r.drawn == i)) [
          | inl s ↦ ap (λ y. elem y ns) (sym ((==_iff r.drawn i).0 s)) ∙ here r.drawn k
          | inr s ↦ all i (ground arith)
        ])
        | inr (x, t', e1, is, free, map) ↦ inr (x, t', rw (k, search_unused) e1, inr is, free, map)
      ]
    ]

-- However the table changes between the searches of an insertion: if the indices in use are always
-- in a list, and more indices are drawn than it has, none twice, then the insertion ends in one of the
-- rounds, with an index that is free under the lock, and adds the entry under it to the table and
-- nothing else.
pub insert-total :
    (t : IndexTable) (e : IndexEntry) (rounds : IndexTable → List Round) (ns : List ℕ)
    → IsCovered ns (rounds (index_remove t e.id))
    → NoRepeat (drawn_in (rounds (index_remove t e.id)))
    → length ns < length (drawn_in (rounds (index_remove t e.id)))
    → Inserted e (rounds (index_remove t e.id)) (index_insert t e rounds)
unfolding index_insert
insert-total t e rounds ns covered d more =
    elim (search-cases e (rounds (index_remove t e.id)) ns covered) [
      | inl all ↦
          let small : length (drawn_in (rounds (index_remove t e.id))) ≤ length ns =
            length-included (drawn_in (rounds (index_remove t e.id))) ns d all in
          absurd (omega (arith, small))
      | inr done ↦ done
    ]
