-- ===== src/Ratelimiter/Bucket.antt =====
-- The tokens of an address, read from its bucket, through a packet and the collector.
use amneziawg_nt.Base.{
  ℕ, ◌+◌, ◌-◌, ◌^◌, ◌≤◌, ◌<◌, ◌≡◌, ◌≢◌, refl, sym, ◌∙◌, Bool, true, false, Option, none, some, List,
  ◌∷◌, ltb, leb, if◌then◌else◌, arith, Bool-cases, Option-cases, inl, inr, min,
}
use amneziawg_nt.Ratelimiter.{
  Entry, find, replace, collected, units_per_sec, elapsed, refilled, charge, visit, newcomer,
  packet_cost, token_max,
}
use mathlib.Core.Path.{subst}
use amneziawg_nt.Ratelimiter.Find.{
  entries_of, find-none, find-ip, find-replace_self, find-replace_ne, entries_of-replace,
  entries_of-collected, find-collected,
}

-- The tokens at a time; an address without an entry has all of them.
unfoldable pub credit : ℕ → Option Entry → ℕ
credit now none = token_max
credit now (some e) = refilled now e

-- An entry that was last used by a time, with no more tokens than allowed.
abbrev pub IsFresh : ℕ → Option Entry → Type 0
IsFresh now none = Unit {0}
IsFresh now (some e) = (e.last_time ≤ now) × (e.tokens ≤ token_max)

pub credit-fresh :
    (now : ℕ) (e : Entry)
    → now < 2 ^ 63
    → e.last_time ≤ now
    → e.tokens ≤ token_max
    → refilled now e ≡ min token_max (e.tokens + (now - e.last_time))
unfolding refilled elapsed
credit-fresh now e h le le' = omega arith

pub credit-later :
    (t now : ℕ) (o : Option Entry)
    → now < 2 ^ 63
    → t ≤ now
    → IsFresh t o
    → credit now o ≤ credit t o + (now - t)
unfolding credit
credit-later t now none h le fresh = omega arith
credit-later t now (some e) h le fresh = omega (
  arith,
  credit-fresh now e h (omega arith) fresh.1,
  credit-fresh t e (omega arith) fresh.0 fresh.1,
)

pub IsFresh-later : (t now : ℕ) (o : Option Entry) → t ≤ now → IsFresh t o → IsFresh now o
IsFresh-later t now none le fresh = tt
IsFresh-later t now (some e) le fresh = (omega arith, fresh.1)

abbrev pub price : Bool → ℕ
price ok = if ok then packet_cost else 0

refilled-le : (now : ℕ) (e : Entry) → refilled now e ≤ token_max
unfolding refilled
refilled-le now e = omega arith

refilled-now :
    (ip now tokens : ℕ)
    → now < 2 ^ 63
    → tokens ≤ token_max
    → refilled now (record { ip = ip; last_time = now; tokens = tokens }) ≤ tokens
refilled-now ip now tokens h le = omega (
  arith,
  credit-fresh now (record { ip = ip; last_time = now; tokens = tokens }) h (omega arith) le,
)

pub credit-le : (now : ℕ) (o : Option Entry) → credit now o ≤ token_max
unfolding credit
credit-le now none = omega arith
credit-le now (some e) = refilled-le now e

-- A packet pays for itself from the tokens of its address.
charge-pays :
    (now : ℕ) (e : Entry)
    → now < 2 ^ 63
    → IsFresh now (some e)
    → let (ok, e') = charge now e in
      IsFresh now (some e') × (price ok + refilled now e' ≤ refilled now e)
unfolding charge
charge-pays now e h fresh = elim (Bool-cases (leb packet_cost (refilled now e))) [
  | inl enough ↦ rw enough (
    (omega arith, omega (arith, refilled-le now e)),
    omega (
      arith,
      refilled-now e.ip now (refilled now e - packet_cost) h (omega (arith, refilled-le now e)),
      has enough,
    ),
  )
  | inr short ↦ rw short (
    (omega arith, refilled-le now e),
    omega (arith, refilled-now e.ip now (refilled now e) h (refilled-le now e)),
  )
]
  where
    has : leb packet_cost (refilled now e) ≡ true → packet_cost ≤ refilled now e
    has enough = ground arith

charge-ip : (now : ℕ) (e : Entry) → (charge now e).1.ip ≡ e.ip
unfolding charge
charge-ip now e = refl

-- A bucket in which the address has one entry at most, last used by the time.
abbrev pub IsOrderly : ℕ → ℕ → List Entry → Type 0
IsOrderly ip now es = (entries_of ip es ≤ 1) × IsFresh now (find ip es)

visit-some :
    (may_add : Bool) (now ip : ℕ) (es : List Entry) (e : Entry)
    → find ip es ≡ some e
    → visit may_add now ip es ≡ ((charge now e).0, false, replace (charge now e).1 es)
unfolding visit
visit-some may_add now ip es e here = rw (here, visit) refl

visit-none :
    (may_add : Bool) (now ip : ℕ) (es : List Entry)
    → find ip es ≡ none
    → visit may_add now ip es
      ≡ (if may_add then (true, true, newcomer now ip ∷ es) else (false, false, es))
unfolding visit
visit-none may_add now ip es missing = rw (missing, visit) refl

find-newcomer :
    (now ip : ℕ) (es : List Entry) → find ip (newcomer now ip ∷ es) ≡ some (newcomer now ip)
unfolding find
find-newcomer now ip es = ground arith

find-newcomer_ne :
    (now ip ip' : ℕ) (es : List Entry) → ip' ≢ ip → find ip (newcomer now ip' ∷ es) ≡ find ip es
unfolding find
find-newcomer_ne now ip ip' es ne = ground arith

visit_missing :
    (may_add : Bool) (now ip : ℕ) (es : List Entry)
    → now < 2 ^ 63
    → find ip es ≡ none
    → let r = visit may_add now ip es in
      IsOrderly ip now r.2 × (price r.0 + credit now (find ip r.2) ≤ credit now none)
visit_missing true now ip es h missing =
    rw (visit-none true now ip es missing, find-newcomer now ip es)
      (
        (omega (arith, one), (omega arith, omega arith)),
        unfold credit in
            omega (arith, refilled-now ip now (token_max - packet_cost) h (omega arith)),
      )
  where
    one : entries_of ip (newcomer now ip ∷ es) ≡ 1
    one = ground (arith, find-none ip es missing)
visit_missing false now ip es h missing =
    rw (visit-none false now ip es missing, missing)
      ((omega (arith, find-none ip es missing), tt), omega arith)

visit_here :
    (may_add : Bool) (now ip : ℕ) (es : List Entry) (e : Entry)
    → now < 2 ^ 63
    → entries_of ip es ≤ 1
    → IsFresh now (some e)
    → find ip es ≡ some e
    → let r = visit may_add now ip es in
      IsOrderly ip now r.2 × (price r.0 + credit now (find ip r.2) ≤ credit now (some e))
visit_here may_add now ip es e h one fresh here =
    rw (visit-some may_add now ip es e here, replaced)
      (
        (omega (arith, entries_of-replace ip (charge now e).1 es), (charge-pays now e h fresh).0),
        unfold credit in (charge-pays now e h fresh).1,
      )
  where
    same : (charge now e).1.ip ≡ ip
    same = charge-ip now e ∙ find-ip ip es e here

    replaced : find ip (replace (charge now e).1 es) ≡ some (charge now e).1
    replaced = find-replace_self ip (charge now e).1 es e same here

pub visit_self :
    (may_add : Bool) (now ip : ℕ) (es : List Entry)
    → now < 2 ^ 63
    → IsOrderly ip now es
    → let r = visit may_add now ip es in
      IsOrderly ip now r.2 × (price r.0 + credit now (find ip r.2) ≤ credit now (find ip es))
visit_self may_add now ip es h (one, fresh) = elim (Option-cases (find ip es)) [
  | inl missing ↦ rw missing (visit_missing may_add now ip es h missing)
  | inr (e, here) ↦
      rw here (visit_here may_add now ip es e h one (subst (IsFresh now) here fresh) here)
]

pub visit_ne :
    (may_add : Bool) (now ip ip' : ℕ) (es : List Entry)
    → ip' ≢ ip
    → let r = visit may_add now ip' es in
      (find ip r.2 ≡ find ip es) × (entries_of ip r.2 ≡ entries_of ip es)
visit_ne may_add now ip ip' es ne = elim (Option-cases (find ip' es)) [
  | inl missing ↦ rw (visit-none may_add now ip' es missing) (added may_add)
  | inr (e, here) ↦ rw (visit-some may_add now ip' es e here) (
    find-replace_ne ip (charge now e).1 es
        (λ same. ne (sym (find-ip ip' es e here) ∙ sym (charge-ip now e) ∙ same)),
    entries_of-replace ip (charge now e).1 es,
  )
]
  where
    added :
        (may_add : Bool)
        → let r : Bool × Bool × List Entry =
            if may_add then (true, true, newcomer now ip' ∷ es) else (false, false, es) in
          (find ip r.2 ≡ find ip es) × (entries_of ip r.2 ≡ entries_of ip es)
    added true = (find-newcomer_ne now ip ip' es ne, ground arith)
    added false = (refl, refl)

idle :
    (now last : ℕ)
    → now < 2 ^ 63
    → last ≤ now
    → ltb units_per_sec (elapsed now last) ≡ true
    → units_per_sec < now - last
unfolding elapsed
idle now last h le stale = ground (arith, stale)

-- Whether the address's entry was used after the collector read its time.
abbrev pub used_after : ℕ → Option Entry → Bool
used_after read none = false
used_after read (some e) = ltb read e.last_time

abbrev stale_dropped : ℕ → Option Entry → Option Entry
stale_dropped read none = none
stale_dropped read (some e) = if ltb units_per_sec (elapsed read e.last_time) then none else some e

dropped-IsFresh :
    (read now : ℕ) (o : Option Entry) → IsFresh now o → IsFresh now (stale_dropped read o)
dropped-IsFresh read now none fresh = tt
dropped-IsFresh read now (some e) fresh =
    elim (Bool-cases (ltb units_per_sec (elapsed read e.last_time))) [
      | inl stale ↦ rw stale tt
      | inr live ↦ rw live fresh
    ]

dropped-credit :
    (read now : ℕ) (o : Option Entry)
    → now < 2 ^ 63
    → read ≤ now
    → used_after read o ≡ false
    → IsFresh now o
    → credit now (stale_dropped read o) ≤ credit now o
dropped-credit read now none h le unused fresh = omega arith
dropped-credit read now (some e) h le unused fresh =
    elim (Bool-cases (ltb units_per_sec (elapsed read e.last_time))) [
      | inl stale ↦
          let past : e.last_time ≤ read = ground arith in
          rw stale (
            unfold credit in
            omega (
              arith,
              credit-fresh now e h fresh.0 fresh.1,
              idle read e.last_time (omega arith) past stale,
            ))
      | inr live ↦ rw live (omega arith)
    ]

-- The collector, with a time that it has read before, keeps a bucket in order, and gives an address no
-- tokens unless its entry was used after that time.
pub collected-IsOrderly :
    (read now ip : ℕ) (es : List Entry)
    → IsOrderly ip now es
    → IsOrderly ip now (collected read es).0
collected-IsOrderly read now ip es (one, fresh) =
    rw (find-collected ip read es one)
      (omega (arith, entries_of-collected ip read es), dropped-IsFresh read now (find ip es) fresh)

pub collected_self :
    (read now ip : ℕ) (es : List Entry)
    → now < 2 ^ 63
    → read ≤ now
    → used_after read (find ip es) ≡ false
    → IsOrderly ip now es
    → credit now (find ip (collected read es).0) ≤ credit now (find ip es)
collected_self read now ip es h le unused (one, fresh) =
    rw (find-collected ip read es one) (dropped-credit read now (find ip es) h le unused fresh)
