-- ===== src/AllowedIps/Best.antt =====
-- The longest length with an entry, found step by step.
use native.Mathlib.Decide.{dec_lt}
use amneziawg_nt.Base.{
  ℕ, zero, suc, ◌≤◌, ◌<◌, ◌≡◌, ◌∙◌, sym, ◌⊎◌, inl, inr, Option, none, some, arith, ◌==◌,
  if◌then◌else◌,
}
use amneziawg_nt.AllowedIps.WellFormed.{longest}

-- `r` is the longest length with a peer in `f`, or `found` where there is none.
abbrev pub IsBest : (ℕ → Option ℕ) → ℕ → Option (ℕ × ℕ) → Option (ℕ × ℕ) → Type 0
IsBest f n found r =
    ((r ≡ found) × ((c : ℕ) → f c ≡ none))
    ⊎ ((c : ℕ) × (p : ℕ) × (r ≡ some (c, p))
        × (f c ≡ some p)
        × (c ≤ n)
        × ((c' : ℕ) → c < c' → f c' ≡ none))

-- One node on the path: the rest of the path knows longer prefixes only.
pub IsBest-step :
    (f g : ℕ → Option ℕ) (n c : ℕ) (q : Option ℕ) (found r : Option (ℕ × ℕ))
    → ((c' : ℕ) → f c' ≡ (if c == c' then q else g c'))
    → ((c' : ℕ) → c' ≤ c → g c' ≡ none)
    → c ≤ n
    → IsBest g n (elim q [ none ↦ found | some p ↦ some (c, p) ]) r
    → IsBest f n found r
IsBest-step f g n c none found r hf short le (inl (e, no_g)) =
    inl (e, λ c'. ground (arith, hf c', no_g c'))
IsBest-step f g n c (some p) found r hf short le (inl (e, no_g)) =
    inr (c, p, e, ground (arith, hf c), le, λ c' lt. ground (arith, hf c', no_g c'))
IsBest-step f g n c q found r hf short le (inr (c1, p1, e, at, c1_le, none_above)) = inr (
  c1,
  p1,
  e,
  ground (arith, hf c1, at, short c1),
  c1_le,
  λ c' lt. ground (arith, hf c', none_above c' lt, short c1, at),
)

longest-none : (f : ℕ → Option ℕ) (n : ℕ) → ((c : ℕ) → f c ≡ none) → longest f n ≡ none
unfolding longest
longest-none f zero h = ground (arith, h 0)
longest-none f (suc n) h = ground (arith, h (suc n), longest-none f n h)

longest-some :
    (f : ℕ → Option ℕ) (n c p : ℕ)
    → f c ≡ some p
    → c ≤ n
    → ((c' : ℕ) → c < c' → f c' ≡ none)
    → longest f n ≡ some (c, p)
unfolding longest
longest-some f zero zero p e le above = ground (arith, e)
longest-some f zero (suc c) p e le above = absurd (omega arith)
longest-some f (suc n) c p e le above = elim (dec_lt n c) [
  | yes top ↦ let same : c ≡ suc n = omega arith in rw same (rw (rw same at e, longest))
  | no below ↦
      rw (above (suc n) (omega arith), longest) (longest-some f n c p e (omega arith) above)
]

pub IsBest-longest :
    (f : ℕ → Option ℕ) (n : ℕ) (r : Option (ℕ × ℕ)) → IsBest f n none r → r ≡ longest f n
IsBest-longest f n r (inl (e, no_f)) = e ∙ sym (longest-none f n no_f)
IsBest-longest f n r (inr (c, p, e, at, le, above)) = e ∙ sym (longest-some f n c p at le above)
