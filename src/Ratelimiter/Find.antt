-- ===== src/Ratelimiter/Find.antt =====
-- The entry of an address in a bucket, through the changes of the bucket.
use native.Mathlib.Decide.{ℕ_discrete}
use amneziawg_nt.Base.{
  ℕ, suc, ◌≤◌, ◌≡◌, ◌≢◌, refl, none, some, List, [], ◌∷◌, ltb, ◌==◌, if◌then◌else◌, arith,
}
use amneziawg_nt.Ratelimiter.{Entry, find, replace, collected, units_per_sec, elapsed}

-- How many entries of a bucket are for an address.
abbrev pub entries_of : ℕ → List Entry → ℕ
entries_of ip [] = 0
entries_of ip (e ∷ es) = let rest = entries_of ip es in if e.ip == ip then suc rest else rest

pub find-none : (ip : ℕ) (es : List Entry) → find ip es ≡ none → entries_of ip es ≡ 0
unfolding find
find-none ip [] h = refl
find-none ip (e ∷ es) h = ground (arith, find-none ip es)

pub find_absent : (ip : ℕ) (es : List Entry) → entries_of ip es ≡ 0 → find ip es ≡ none
unfolding find
find_absent ip [] h = refl
find_absent ip (e ∷ es) h = ground (arith, find_absent ip es)

pub find-ip : (ip : ℕ) (es : List Entry) (e : Entry) → find ip es ≡ some e → e.ip ≡ ip
unfolding find
find-ip ip [] e h = absurd (cc)
find-ip ip (x ∷ es) e h = ground (arith, find-ip ip es e)

pub find-replace_self :
    (ip : ℕ) (e' : Entry) (es : List Entry) (e : Entry)
    → e'.ip ≡ ip
    → find ip es ≡ some e
    → find ip (replace e' es) ≡ some e'
unfolding find replace
find-replace_self ip e' [] e same h = absurd (cc)
find-replace_self ip e' (x ∷ es) e same h = ground (arith, find-replace_self ip e' es e same)

pub find-replace_ne :
    (ip : ℕ) (e' : Entry) (es : List Entry) → e'.ip ≢ ip → find ip (replace e' es) ≡ find ip es
unfolding find replace
find-replace_ne ip e' [] ne = refl
find-replace_ne ip e' (x ∷ es) ne = ground (arith, find-replace_ne ip e' es ne)

pub entries_of-replace :
    (ip : ℕ) (e' : Entry) (es : List Entry) → entries_of ip (replace e' es) ≡ entries_of ip es
unfolding replace
entries_of-replace ip e' [] = refl
entries_of-replace ip e' (x ∷ es) = ground (arith, entries_of-replace ip e' es)

pub entries_of-collected :
    (ip now : ℕ) (es : List Entry) → entries_of ip (collected now es).0 ≤ entries_of ip es
unfolding collected
entries_of-collected ip now [] = omega arith
entries_of-collected ip now (x ∷ es) = ground (arith, entries_of-collected ip now es)

-- The collector takes the address's entry out where it is stale, and else leaves it.
pub find-collected :
    (ip now : ℕ) (es : List Entry)
    → entries_of ip es ≤ 1
    → find ip (collected now es).0 ≡ elim (find ip es) [
      | none ↦ none
      | some e ↦ if ltb units_per_sec (elapsed now e.last_time) then none else some e
    ]
unfolding find collected
find-collected ip now [] h = refl
find-collected ip now (x ∷ es) h = elim (ℕ_discrete x.ip ip) [
  | yes e ↦
      let gone =
        find_absent ip (collected now es).0
          (omega (arith, entries_of-collected ip now es, first_only e)) in
      ground arith
  | no ne ↦ let rest = find-collected ip now es (tail_only ne) in ground arith
]
  where
    first_only : x.ip ≡ ip → entries_of ip es ≡ 0
    first_only e = ground arith

    tail_only : x.ip ≢ ip → entries_of ip es ≤ 1
    tail_only ne = ground arith
