-- ===== src/Handshake/Replay.antt =====
-- driver/noise.c: what the acceptance of an initiation means for the checks that come after it.
use mathlib.Core.Path.{subst}
use amneziawg_nt.Handshake.Change.{at, NotFor, Taken, Change, step-Change}
use amneziawg_nt.Handshake.Kept.{Kept}
use amneziawg_nt.Base.{
  ℕ, ◌+◌, ◌^◌, ◌≤◌, ◌<◌, true, false, Bool-cases, Option, none, some, List, [], ◌∷◌, ◌≡◌, refl, ◌∙◌,
  sym, ◌⊎◌, inl, inr, arith,
}
use amneziawg_nt.Handshake.{Bytes, Crypto}
use amneziawg_nt.Handshake.Peer.{Handshake, bytes_lt}
use amneziawg_nt.Handshake.Initiation.{
  Initiation, Checked, create_initiation, check_initiation, initiation_units, later_of,
}
use amneziawg_nt.Handshake.Response.{Response, create_response, consume_response}
use amneziawg_nt.Handshake.Session.{Session, Begun, begin_session}
use amneziawg_nt.Handshake.Device.{
  Device, Event, Outcome, initiate, check_first, copy_first, passed, checked_initiation,
  pick_checked, respond, got_response, begin, clear, quiet, accepted, completed, opened,
  wrote_initiation, took_initiation, wrote_response, took_response, begun_session, found_response,
  step, run,
}

bytes-lt_trans : (a b d : Bytes) → bytes_lt a b ≡ true → bytes_lt b d ≡ true → bytes_lt a d ≡ true
bytes-lt_trans [] [] d h k = cc
bytes-lt_trans [] (y ∷ b) [] h k = cc
bytes-lt_trans [] (y ∷ b) (z ∷ d) h k = refl
bytes-lt_trans (x ∷ a) [] d h k = cc
bytes-lt_trans (x ∷ a) (y ∷ b) [] h k = cc
bytes-lt_trans (x ∷ a) (y ∷ b) (z ∷ d) h k = ground (arith, bytes-lt_trans a b d)

-- Later checks of a peer pass for a newer timestamp only, and after a pause.
abbrev pub After : ℕ → Bytes → ℕ → List Outcome → Type 0
After j timestamp now [] = Unit {0}
After j timestamp now (passed id newer checked ∷ os) =
    (id ≡ j → (bytes_lt timestamp newer ≡ true) × (now + initiation_units ≤ checked))
    × After j timestamp now os
After j timestamp now (_ ∷ os) = After j timestamp now os

-- So for each acceptance.
abbrev pub Spaced : List Outcome → Type 0
Spaced [] = Unit {0}
Spaced (accepted id timestamp now ∷ os) = After id timestamp now os × Spaced os
Spaced (_ ∷ os) = Spaced os

-- The interrupt times fit a signed 64-bit integer.
abbrev pub InTime : List Event → Type 0
InTime [] = Unit {0}
InTime (copy_first i now ∷ es) = (now < 2 ^ 63) × InTime es
InTime (_ ∷ es) = InTime es

-- The peer's memory is at least this new.
abbrev Since : Bytes → ℕ → Handshake → Type 0
Since timestamp now h =
    ((h.latest_timestamp ≡ timestamp) ⊎ (bytes_lt timestamp h.latest_timestamp ≡ true))
    × (now ≤ h.last_initiation_consumption)

later_of_max :
    (last now : ℕ)
    → last < 2 ^ 63
    → now < 2 ^ 63
    → (last ≤ later_of last now) × (now ≤ later_of last now) × (later_of last now < 2 ^ 63)
unfolding later_of
later_of_max last now h k = ground arith

abbrev Timed : Outcome → Type 0
Timed (accepted id timestamp now) = now < 2 ^ 63
Timed _ = Unit {0}

abbrev Newer : ℕ → Bytes → ℕ → Outcome → Type 0
Newer j timestamp now (passed id newer checked) =
    id ≡ j → (bytes_lt timestamp newer ≡ true) × (now + initiation_units ≤ checked)
Newer j timestamp now _ = Unit {0}

abbrev Fits : Device → Type 0
Fits d = (j : ℕ) → (at d j).last_initiation_consumption < 2 ^ 63

bytes-lt_since :
    (a b d : Bytes) → (b ≡ a) ⊎ (bytes_lt a b ≡ true) → bytes_lt b d ≡ true → bytes_lt a d ≡ true
bytes-lt_since a b d (inl e) h = rw⁻¹ e h
bytes-lt_since a b d (inr l) h = bytes-lt_trans a b d l h

not-for_Newer : (o : Outcome) (j : ℕ) (ts : Bytes) (now : ℕ) → NotFor j o → Newer j ts now o
not-for_Newer (accepted id newer later) j ts now n = tt
not-for_Newer (passed id newer checked) j ts now n = λ e. absurd (n e)
not-for_Newer quiet j ts now n = tt
not-for_Newer (completed id) j ts now n = tt
not-for_Newer (opened id s) j ts now n = tt

Change-last_lt :
    (j : ℕ) (h h' : Handshake) (o : Outcome)
    → Change j h h' o
    → Timed o
    → h.last_initiation_consumption < 2 ^ 63
    → h'.last_initiation_consumption < 2 ^ 63
Change-last_lt j h h' o (inl (k, n)) t b = omega (arith, k.consumption)
Change-last_lt j h h' o (inr (inl (ts, checked, k, n, e))) t b = omega (arith, k.consumption)
Change-last_lt j h h' o (inr (inr (ts, now, a, e))) t b =
    let small : now < 2 ^ 63 = subst Timed e t in
    omega (arith, a.consumed, later_of_max h.last_initiation_consumption now b small)

Kept-Since : (h h' : Handshake) (ts : Bytes) (t : ℕ) → Kept h h' → Since ts t h → Since ts t h'
Kept-Since h h' ts t k (s, l) = (ground (arith, k.timestamp), omega (arith, k.consumption))

-- A copy never makes the memory older.
Taken-Since :
    (h h' : Handshake) (ts new : Bytes) (t now : ℕ)
    → Taken h h' new now
    → now < 2 ^ 63
    → h.last_initiation_consumption < 2 ^ 63
    → Since ts t h
    → Since ts t h'
Taken-Since h h' ts new t now a small b (s, l) = (
  elim (Bool-cases (bytes_lt h.latest_timestamp new)) [
    | inl newer ↦
        let e : h'.latest_timestamp ≡ new = a.latest ∙ rw newer refl in
        rw e (inr (bytes-lt_since ts h.latest_timestamp new s newer))
    | inr older ↦
        let e : h'.latest_timestamp ≡ h.latest_timestamp = a.latest ∙ rw older refl in rw e s
  ],
  omega (arith, a.consumed, l, later_of_max h.last_initiation_consumption now b small),
)

Change-Since :
    (j : ℕ) (h h' : Handshake) (o : Outcome) (ts : Bytes) (t : ℕ)
    → Change j h h' o
    → Timed o
    → h.last_initiation_consumption < 2 ^ 63
    → Since ts t h
    → Since ts t h' × Newer j ts t o
Change-Since j h h' o ts t (inl (k, n)) timed b s =
    (Kept-Since h h' ts t k s, not-for_Newer o j ts t n)
Change-Since j h h' o ts t (inr (inl (new, checked, k, n, e))) timed b s = (
  Kept-Since h h' ts t k s,
  subst (Newer j ts t) (sym e) (λ same.
      (bytes-lt_since ts h.latest_timestamp new s.0 n.newer, omega (arith, n.spaced, s.1))),
)
Change-Since j h h' o ts t (inr (inr (new, now, a, e))) timed b s =
    let small : now < 2 ^ 63 = subst Timed e timed in
    (Taken-Since h h' ts new t now a small b s, subst (Newer j ts t) (sym e) tt)

After-cons :
    (j : ℕ) (ts : Bytes) (t : ℕ) (o : Outcome) (os : List Outcome)
    → Newer j ts t o
    → After j ts t os
    → After j ts t (o ∷ os)
After-cons j ts t quiet os n a = a
After-cons j ts t (passed id newer checked) os n a = (n, a)
After-cons j ts t (accepted id newer later) os n a = a
After-cons j ts t (completed id) os n a = a
After-cons j ts t (opened id s) os n a = a

bytes-lt_total : (a b : Bytes) → bytes_lt a b ≡ false → (a ≡ b) ⊎ (bytes_lt b a ≡ true)
bytes-lt_total [] [] h = inl refl
bytes-lt_total [] (y ∷ b) h = absurd cc
bytes-lt_total (x ∷ a) [] h = inr refl
bytes-lt_total (x ∷ a) (y ∷ b) h = ground (arith, bytes-lt_total a b)

-- What a copy leaves behind.
Taken-own :
    (h h' : Handshake) (ts : Bytes) (now : ℕ)
    → Taken h h' ts now
    → now < 2 ^ 63
    → h.last_initiation_consumption < 2 ^ 63
    → Since ts now h'
Taken-own h h' ts now a small b = (
  elim (Bool-cases (bytes_lt h.latest_timestamp ts)) [
    | inl newer ↦ inl (a.latest ∙ rw newer refl)
    | inr older ↦
        let e : h'.latest_timestamp ≡ h.latest_timestamp = a.latest ∙ rw older refl in
        rw e (bytes-lt_total h.latest_timestamp ts older)
  ],
  omega (arith, a.consumed, later_of_max h.last_initiation_consumption now b small),
)

module _ (c : Crypto) (hn idn : Bytes) where
  step-Timed :
      (d : Device) (e : Event) (es : List Event)
      → InTime (e ∷ es)
      → Timed (step c hn idn d e).1 × InTime es
  unfolding step wrote_initiation checked_initiation took_initiation wrote_response found_response
      took_response begun_session
  step-Timed d (initiate id new) es t =
      (wrote (create_initiation c hn idn d.identity (at d id) new), t)
    where
      wrote : (r : Option Initiation × Handshake) → Timed (wrote_initiation d id new r).1
      wrote (none, h) = tt
      wrote (some m, h) = tt
  step-Timed d (check_first m checked) es t =
      (passes (check_initiation c hn idn d.identity d.peers m checked), t)
    where
      passes : (r : Option Checked) → Timed (checked_initiation d checked r).1
      passes none = tt
      passes (some k) = tt
  step-Timed d (copy_first i now) es (small, t) = (took (pick_checked i d.waiting).0, t)
    where
      took :
          (r : Option Checked)
          → Timed (took_initiation (record d { waiting = (pick_checked i d.waiting).1 }) now r).1
      took none = tt
      took (some k) = small
  step-Timed d (respond id new) es t = (wrote (create_response c (at d id) new), t)
    where
      wrote : (r : Option Response × Handshake) → Timed (wrote_response d id new r).1
      wrote (none, h) = tt
      wrote (some m, h) = tt
  step-Timed d (got_response m) es t = (found (d.indices m.receiver_index), t)
    where
      took : (id : ℕ) (r : Option Handshake) → Timed (took_response d id r).1
      took id none = tt
      took id (some h) = tt

      found : (r : Option ℕ) → Timed (found_response c d m r).1
      found none = tt
      found (some id) = took id (consume_response c d.identity m (at d id) (at d id))
  step-Timed d (begin id memory in_use indexed number now) es t =
      (begun (begin_session c (at d id) (d.slots id) memory in_use indexed number now) _, t)
    where
      begun : (b : Begun) (o : Option Session) → Timed (begun_session d id b o).1
      begun b none = tt
      begun b (some s) = tt
  step-Timed d (clear id) es t = (tt, t)

  run-After :
      (es : List Event) (d : Device) (j : ℕ) (ts : Bytes) (t : ℕ)
      → InTime es
      → Fits d
      → Since ts t (at d j)
      → After j ts t (run c hn idn d es)
  unfolding run
  run-After [] d j ts t i f s = tt
  run-After (e ∷ es) d j ts t i f s =
      let r : Device × Outcome = step c hn idn d e in
      let (timed, later) = step-Timed d e es i in
      let (s', n) =
        Change-Since j (at d j) (at r.0 j) r.1 ts t (step-Change c hn idn d e j) timed (f j) s in
      After-cons j ts t r.1 _ n (
        run-After es r.0 j ts t later
          (λ k. Change-last_lt k (at d k) (at r.0 k) r.1 (step-Change c hn idn d e k) timed (f k))
          s')

  Change-own :
      (h h' : Handshake) (id : ℕ) (ts : Bytes) (now : ℕ)
      → Change id h h' (accepted id ts now)
      → now < 2 ^ 63
      → h.last_initiation_consumption < 2 ^ 63
      → Since ts now h'
  Change-own h h' id ts now (inl (k, n)) small b = absurd (n refl)
  Change-own h h' id ts now (inr (inl (t, checked, k, n, e))) small b = cc
  Change-own h h' id ts now (inr (inr (t, nw, a, e))) small b =
      let et : t ≡ ts = cc in
      let en : nw ≡ now = cc in
      Taken-own h h' ts now (subst (λ x. Taken h h' x now) et (subst (Taken h h' t) en a)) small b

  Spaced-cons :
      (d d' : Device) (o : Outcome) (os : List Outcome)
      → ((j : ℕ) → Change j (at d j) (at d' j) o)
      → Timed o
      → Fits d
      → ((j : ℕ) (ts : Bytes) (t : ℕ) → Since ts t (at d' j) → After j ts t os)
      → Spaced os
      → Spaced (o ∷ os)
  Spaced-cons d d' quiet os ch timed f a s = s
  Spaced-cons d d' (completed id) os ch timed f a s = s
  Spaced-cons d d' (opened id x) os ch timed f a s = s
  Spaced-cons d d' (passed id ts checked) os ch timed f a s = s
  Spaced-cons d d' (accepted id ts now) os ch timed f a s =
      (a id ts now (Change-own (at d id) (at d' id) id ts now (ch id) timed (f id)), s)

  -- In every sequence of steps with times below 2^63, however the threads mix: once an initiation of a
  -- peer is accepted, that is copied, every later check of an initiation of that peer passes only if its
  -- timestamp is newer than the accepted one and it is made at least a fiftieth of a second after the
  -- copy. Two checks that are both made before either copy may both pass.
  pub run-Spaced :
      (es : List Event) (d : Device)
      → InTime es
      → ((j : ℕ) → (at d j).last_initiation_consumption < 2 ^ 63)
      → Spaced (run c hn idn d es)
  unfolding run
  run-Spaced [] d i f = tt
  run-Spaced (e ∷ es) d i f =
      let r : Device × Outcome = step c hn idn d e in
      let (timed, later) = step-Timed d e es i in
      let f' : Fits r.0 =
        λ k. Change-last_lt k (at d k) (at r.0 k) r.1 (step-Change c hn idn d e k) timed (f k) in
      Spaced-cons d r.0 r.1 _ (step-Change c hn idn d e) timed f
        (λ j ts t s. run-After es r.0 j ts t later f' s) (run-Spaced es r.0 later f')
