-- ===== src/Ratelimiter/Bound.antt =====
-- The rate that the limiter lets through.
use amneziawg_nt.Base.{max, ℕ, suc, ◌+◌, ◌≤◌, Bool, false, ◌&&◌, List, [], ◌∷◌, ◌==◌, if◌then◌else◌}
use amneziawg_nt.Ratelimiter.{
  Entry, Family, Limiter, Event, packet, collect_bucket, freed, same_family, find, bucket_of, step,
  passes,
}
use amneziawg_nt.Ratelimiter.Bucket.{used_after, credit, IsOrderly, price}

-- The events take place in order, from a time to a time. A visit of the collector comes after the time that
-- its pass has read, be it long after: the pass reads it once for all buckets.
abbrev pub InOrder : ℕ → List Event → ℕ → Type 0
InOrder t [] end = t ≤ end
InOrder t (packet allocated now src ∷ es) end = (t ≤ now) × InOrder now es end
InOrder t (collect_bucket read f b ∷ es) end = InOrder (max t read) es end
InOrder t (freed ∷ es) end = InOrder t es end

module _ (hash : Family → ℕ → ℕ) (f : Family) (ip : ℕ) where
  abbrev view : Limiter → List Entry
  view s = s.buckets f (bucket_of hash f ip)

  -- What an event at a time does to the address's tokens.
  abbrev Pays : ℕ → Limiter → Event → Type 0
  Pays now s e =
      IsOrderly ip now (view (step hash s e))
      × (price (passes hash s f ip e) + credit now (find ip (view (step hash s e)))
          ≤ credit now (find ip (view s)))

  -- A visit takes out the address's entry, or may, although it was used after the pass read its time.
  abbrev pub is_early : Limiter → Event → Bool
  is_early s (packet allocated now src) = false
  is_early s freed = false
  is_early s (collect_bucket read f' b') =
      same_family f' f && b' == bucket_of hash f ip && used_after read (find ip (view s))

  abbrev pub early_visits : Limiter → List Event → ℕ
  early_visits s [] = 0
  early_visits s (e ∷ es) =
      let rest = early_visits (step hash s e) es in if is_early s e then suc rest else rest
