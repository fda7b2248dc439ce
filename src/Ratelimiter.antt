-- ===== src/Ratelimiter.antt =====
-- driver/ratelimiter.c: the token bucket per source address that guards handshakes under load.
-- The two tables are one function of a family and a bucket; the keyed hash is an argument. A packet
-- and the collector's visit to one bucket are each one step, with the time that is read: by a packet there and
-- then, by the collector at the start of the pass over all buckets; freeing
-- a collected entry, which lowers `TotalEntries`, is a later step.
pub mod Find
pub mod Bucket
pub mod Bound
pub mod Total
mod Tests
use amneziawg_nt.Base.{
  ℕ, suc, ◌+◌, ◌-◌, ◌*◌, ◌/◌, ◌%◌, ◌^◌, min, Bool, true, false, ◌&&◌, Option, none, some, List, [],
  ◌∷◌, ltb, leb, ◌==◌, if◌then◌else◌,
}

-- `SYS_TIME_UNITS_PER_SEC`.
abbrev pub units_per_sec : ℕ
units_per_sec = 10000000

abbrev pub packet_cost : ℕ
packet_cost = units_per_sec / 20

abbrev pub token_max : ℕ
token_max = packet_cost * 5

abbrev pub table_size : ℕ
table_size = 8192

abbrev pub max_entries : ℕ
max_entries = table_size * 8

-- `RATELIMITER_ENTRY`.
pub record Entry : Type 0 where
  pub ip : ℕ
  pub last_time : ℕ
  pub tokens : ℕ

pub data Family : Type 0 where
  inet inet6 : Family

-- The tables by family and bucket, `TotalEntries`, and the entries taken out but not yet freed.
pub record Limiter : Type 0 where
  pub buckets : Family → ℕ → List Entry
  pub total : ℕ
  pub retired : ℕ

-- The source address of a packet: for IPv6, its first 64 bits.
pub data Source : Type 0 where
  address : Family → ℕ → Source
  other : Source

-- Subtraction of 64-bit numbers.
unfoldable pub elapsed : ℕ → ℕ → ℕ
elapsed now last = (now + (2 ^ 64 - last)) % 2 ^ 64

-- `min(TOKEN_MAX, Entry->Tokens + Now - Entry->LastTime)`.
unfoldable pub refilled : ℕ → Entry → ℕ
refilled now e = min token_max (elapsed ((e.tokens + now) % 2 ^ 64) e.last_time)

-- The entry after a packet, and whether the packet passes.
unfoldable pub charge : ℕ → Entry → Bool × Entry
charge now e =
    let tokens = refilled now e in
    let ok = leb packet_cost tokens in
    (
      ok,
      record { ip = e.ip; last_time = now; tokens = if ok then tokens - packet_cost else tokens },
    )

unfoldable pub same_family : Family → Family → Bool
same_family inet inet = true
same_family inet inet6 = false
same_family inet6 inet = false
same_family inet6 inet6 = true

-- The tables with one bucket replaced.
unfoldable pub with_bucket :
    (Family → ℕ → List Entry) → Family → ℕ → List Entry → Family → ℕ → List Entry
with_bucket buckets f b es f' b' = if same_family f f' && (b == b') then es else buckets f' b'

-- The first entry of the address in a bucket.
unfoldable pub find : ℕ → List Entry → Option Entry
find ip [] = none
find ip (e ∷ es) = if e.ip == ip then some e else find ip es

-- The bucket with that entry replaced.
unfoldable pub replace : Entry → List Entry → List Entry
replace e' [] = []
replace e' (e ∷ es) = if e.ip == e'.ip then e' ∷ es else e ∷ replace e' es

abbrev pub newcomer : ℕ → ℕ → Entry
newcomer now ip = record { ip = ip; last_time = now; tokens = token_max - packet_cost }

-- A packet at its bucket: whether it passes, whether an entry is added, and the bucket after it.
unfoldable pub visit : Bool → ℕ → ℕ → List Entry → Bool × Bool × List Entry
visit may_add now ip bucket = elim (find ip bucket) [
  | some e ↦ let (ok, e') = charge now e in (ok, false, replace e' bucket)
  | none ↦ if may_add then (true, true, newcomer now ip ∷ bucket) else (false, false, bucket)
]

module _ (hash : Family → ℕ → ℕ) where
  abbrev pub bucket_of : Family → ℕ → ℕ
  bucket_of f ip = hash f ip % table_size

  -- `RatelimiterAllow`; `allocated` says whether the allocation succeeds.
  unfoldable pub allow : Bool → ℕ → Source → Limiter → Bool × Limiter
  allow allocated now other s = (false, s)
  allow allocated now (address f ip) s =
      let room = leb (suc s.total) max_entries && allocated in
      let (ok, added, es) = visit room now ip (s.buckets f (bucket_of f ip)) in
      (
        ok,
        record {
          buckets = with_bucket s.buckets f (bucket_of f ip) es;
          total = if added then suc s.total else s.total;
          retired = s.retired;
        },
      )

-- The entries of a bucket that the collector leaves, and the number that it takes out.
unfoldable pub collected : ℕ → List Entry → List Entry × ℕ
collected now [] = ([], 0)
collected now (e ∷ es) =
    let (kept, n) = collected now es in
    if ltb units_per_sec (elapsed now e.last_time) then (kept, suc n) else (e ∷ kept, n)

-- `RatelimiterGcEntries` on one bucket, with the time read at the start of its pass.
unfoldable pub collect : ℕ → Family → ℕ → Limiter → Limiter
collect now f b s =
    let (kept, n) = collected now (s.buckets f b) in
    record { buckets = with_bucket s.buckets f b kept; total = s.total; retired = s.retired + n }

-- `EntryFree`.
unfoldable pub free_entry : Limiter → Limiter
free_entry s =
    if s.retired == 0
    then s
    else record { buckets = s.buckets; total = s.total - 1; retired = s.retired - 1 }

abbrev pub empty : Limiter
empty = record { buckets = λ f b. []; total = 0; retired = 0 }

pub data Event : Type 0 where
  packet : Bool → ℕ → Source → Event
  collect_bucket : ℕ → Family → ℕ → Event
  freed : Event

unfoldable pub same_source : Source → Family → ℕ → Bool
same_source other f ip = false
same_source (address f' ip') f ip = same_family f' f && (ip' == ip)

module _ (hash : Family → ℕ → ℕ) where
  abbrev pub step : Limiter → Event → Limiter
  step s (packet allocated now src) = (allow hash allocated now src s).1
  step s (collect_bucket now f b) = collect now f b s
  step s freed = free_entry s

  abbrev pub run : Limiter → List Event → Limiter
  run s [] = s
  run s (e ∷ es) = run (step s e) es

  -- Whether an event is a packet of the address that passes.
  abbrev pub passes : Limiter → Family → ℕ → Event → Bool
  passes s f ip (packet allocated now src) =
      same_source src f ip && (allow hash allocated now src s).0
  passes s f ip (collect_bucket now f' b) = false
  passes s f ip freed = false

  -- The number of packets of the address that pass.
  abbrev pub passed : Limiter → Family → ℕ → List Event → ℕ
  passed s f ip [] = 0
  passed s f ip (e ∷ es) =
      let rest = passed (step s e) f ip es in if passes s f ip e then suc rest else rest
