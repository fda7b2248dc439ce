-- ===== src/Ratelimiter/Total.antt =====
-- `TotalEntries` counts the entries in the tables and those that wait to be freed.
use native.Mathlib.Decide.{ℕ_discrete}
use amneziawg_nt.Base.{
  ℕ, zero, suc, ◌+◌, ◌≤◌, ◌<◌, ◌≡◌, ◌≢◌, refl, sym, ap, Bool, true, false, ◌&&◌, List, [], ◌∷◌, leb,
  if◌then◌else◌, arith, Option-cases, inl, inr, length,
}
use amneziawg_nt.Ratelimiter.{
  Entry, Family, inet, inet6, Limiter, Source, address, other, Event, packet, collect_bucket, freed,
  with_bucket, same_family, find, visit, newcomer, charge, replace, allow, collect, collected,
  free_entry, bucket_of, run, empty, max_entries, table_size,
}

unfoldable pub sum_lengths : ℕ → (ℕ → List Entry) → ℕ
sum_lengths zero g = 0
sum_lengths (suc n) g = length (g n) + sum_lengths n g

sum_lengths_same :
    (n : ℕ) (g h : ℕ → List Entry)
    → ((b : ℕ) → b < n → g b ≡ h b)
    → sum_lengths n g ≡ sum_lengths n h
unfolding sum_lengths
sum_lengths_same zero g h e = refl
sum_lengths_same (suc n) g h e =
    rw (e n (omega arith), sum_lengths_same n g h (λ b lt. e b (omega arith))) refl

sum_lengths-update :
    (n b : ℕ) (g h : ℕ → List Entry)
    → b < n
    → ((b' : ℕ) → b ≢ b' → h b' ≡ g b')
    → sum_lengths n h + length (g b) ≡ sum_lengths n g + length (h b)
unfolding sum_lengths
sum_lengths-update zero b g h lt e = absurd (omega arith)
sum_lengths-update (suc n) b g h lt e = elim (ℕ_discrete b n) [
  | yes last ↦
      rw (sum_lengths_same n h g (λ b' lt'. e b' (λ same. omega arith)), sym last) (omega arith)
  | no ne ↦ rw (e n ne) (omega (arith, sum_lengths-update n b g h (omega arith) e))
]

-- The entries in the tables.
unfoldable pub held : (Family → ℕ → List Entry) → ℕ
held bs = sum_lengths table_size (bs inet) + sum_lengths table_size (bs inet6)

with_bucket_self :
    (bs : Family → ℕ → List Entry) (f : Family) (b : ℕ) (es : List Entry)
    → with_bucket bs f b es f b ≡ es
unfolding with_bucket same_family
with_bucket_self bs inet b es = ground arith
with_bucket_self bs inet6 b es = ground arith

with_bucket_ne :
    (bs : Family → ℕ → List Entry) (f f' : Family) (b b' : ℕ) (es : List Entry)
    → b ≢ b'
    → with_bucket bs f b es f' b' ≡ bs f' b'
unfolding with_bucket
with_bucket_ne bs f f' b b' es ne = ground arith

held-with_bucket :
    (bs : Family → ℕ → List Entry) (f : Family) (b : ℕ) (es : List Entry)
    → b < table_size
    → held (with_bucket bs f b es) + length (bs f b) ≡ held bs + length es
unfolding held
held-with_bucket bs inet b es lt = omega (
  arith,
  sum_lengths-update table_size b (bs inet) (with_bucket bs inet b es inet) lt
      (λ b' ne. with_bucket_ne bs inet inet b b' es ne),
  ap length (with_bucket_self bs inet b es),
  sum_lengths_same table_size (with_bucket bs inet b es inet6) (bs inet6) (λ b' lt. apart b'),
)
  where
    apart : (b' : ℕ) → with_bucket bs inet b es inet6 b' ≡ bs inet6 b'
    apart b' = unfold with_bucket same_family in refl
held-with_bucket bs inet6 b es lt = omega (
  arith,
  sum_lengths-update table_size b (bs inet6) (with_bucket bs inet6 b es inet6) lt
      (λ b' ne. with_bucket_ne bs inet6 inet6 b b' es ne),
  ap length (with_bucket_self bs inet6 b es),
  sum_lengths_same table_size (with_bucket bs inet6 b es inet) (bs inet) (λ b' lt. apart b'),
)
  where
    apart : (b' : ℕ) → with_bucket bs inet6 b es inet b' ≡ bs inet b'
    apart b' = unfold with_bucket same_family in refl

sum_lengths_empty : (n : ℕ) → sum_lengths n (λ b. []) ≡ 0
unfolding sum_lengths
sum_lengths_empty zero = refl
sum_lengths_empty (suc n) = omega (arith, sum_lengths_empty n)

-- The room that an added entry needed.
room_left :
    (total : ℕ) (allocated : Bool)
    → (leb (suc total) max_entries && allocated) ≡ true
    → suc total ≤ max_entries
room_left total allocated e = ground arith

length-replace : (e' : Entry) (es : List Entry) → length (replace e' es) ≡ length es
unfolding replace
length-replace e' [] = refl
length-replace e' (x ∷ es) = ground (arith, length-replace e' es)

length-visit :
    (may_add : Bool) (now ip : ℕ) (es : List Entry)
    → let r = visit may_add now ip es in
      (length r.2 ≡ length es + (if r.1 then 1 else 0)) × (r.1 ≡ true → may_add ≡ true)
unfolding visit
length-visit may_add now ip es = elim (Option-cases (find ip es)) [
  | inl missing ↦ rw (missing, visit) (added may_add)
  | inr (e, here) ↦
      rw (here, visit) (omega (arith, length-replace (charge now e).1 es), λ e. absurd cc)
]
  where
    added :
        (may_add : Bool)
        → let r : Bool × Bool × List Entry =
            if may_add then (true, true, newcomer now ip ∷ es) else (false, false, es) in
          (length r.2 ≡ length es + (if r.1 then 1 else 0)) × (r.1 ≡ true → may_add ≡ true)
    added true = (omega arith, λ e. refl)
    added false = (omega arith, λ e. e)

length-collected :
    (now : ℕ) (es : List Entry) → length (collected now es).0 + (collected now es).1 ≡ length es
unfolding collected
length-collected now [] = refl
length-collected now (x ∷ es) = ground (arith, length-collected now es)

-- The count is right, and within the limit.
abbrev pub IsBalanced : Limiter → Type 0
IsBalanced s = (s.total ≡ held s.buckets + s.retired) × (s.total ≤ max_entries)

-- The collector visits the buckets of the tables.
abbrev pub InTables : List Event → Type 0
InTables [] = Unit {0}
InTables (packet allocated now src ∷ es) = InTables es
InTables (collect_bucket now f b ∷ es) = (b < table_size) × InTables es
InTables (freed ∷ es) = InTables es

module _ (hash : Family → ℕ → ℕ) where
  allow-IsBalanced :
      (allocated : Bool) (now : ℕ) (src : Source) (s : Limiter)
      → IsBalanced s
      → IsBalanced (allow hash allocated now src s).1
  unfolding allow
  allow-IsBalanced allocated now other s h = h
  allow-IsBalanced allocated now (address f ip) s h = added r (length-visit room now ip es)
    where
      room : Bool
      room = leb (suc s.total) max_entries && allocated

      es : List Entry
      es = s.buckets f (bucket_of hash f ip)

      r : Bool × Bool × List Entry
      r = visit room now ip es

      added :
          (r : Bool × Bool × List Entry)
          → (length r.2 ≡ length es + (if r.1 then 1 else 0)) × (r.1 ≡ true → room ≡ true)
          → ((if r.1 then suc s.total else s.total)
              ≡ held (with_bucket s.buckets f (bucket_of hash f ip) r.2) + s.retired)
            × ((if r.1 then suc s.total else s.total) ≤ max_entries)
      added (ok, true, es') (e, has_room) = (
        omega (arith, h.0, held-with_bucket s.buckets f (bucket_of hash f ip) es' (omega arith)),
        room_left s.total allocated (has_room refl),
      )
      added (ok, false, es') (e, has_room) = (
        omega (arith, h.0, held-with_bucket s.buckets f (bucket_of hash f ip) es' (omega arith)),
        h.1,
      )

  collect-IsBalanced :
      (now : ℕ) (f : Family) (b : ℕ) (s : Limiter)
      → b < table_size
      → IsBalanced s
      → IsBalanced (collect now f b s)
  unfolding collect
  collect-IsBalanced now f b s lt h = (
    omega (
      arith,
      h.0,
      length-collected now (s.buckets f b),
      held-with_bucket s.buckets f b (collected now (s.buckets f b)).0 lt,
    ),
    h.1,
  )

  free-IsBalanced : (s : Limiter) → IsBalanced s → IsBalanced (free_entry s)
  unfolding free_entry
  free-IsBalanced s h = ground (arith, h)

  run-IsBalanced :
      (s : Limiter) (es : List Event) → InTables es → IsBalanced s → IsBalanced (run hash s es)
  run-IsBalanced s [] t h = h
  run-IsBalanced s (packet allocated now src ∷ es) t h =
      run-IsBalanced (allow hash allocated now src s).1 es t
        (allow-IsBalanced allocated now src s h)
  run-IsBalanced s (collect_bucket now f b ∷ es) t h =
      run-IsBalanced (collect now f b s) es t.1 (collect-IsBalanced now f b s t.0 h)
  run-IsBalanced s (freed ∷ es) t h = run-IsBalanced (free_entry s) es t (free-IsBalanced s h)

  -- After any events from the empty tables on, with allocations that may fail, the count of entries
  -- is the number of entries in both tables and of those that wait to be freed, and it is at most
  -- eight for each bucket of one table. The collector visits buckets of the tables only.
  pub total-bound : (es : List Event) → InTables es → IsBalanced (run hash empty es)
  total-bound es t =
      run-IsBalanced empty es t
        (unfold held in omega (arith, sum_lengths_empty table_size), omega arith)
