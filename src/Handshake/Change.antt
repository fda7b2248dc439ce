-- ===== src/Handshake/Change.antt =====
-- driver/noise.c: each call of a device writes at most one peer's memory of initiations.
use amneziawg_nt.Base.{
  ℕ, Option, none, some, ◌≡◌, ◌≢◌, refl, ◌⊎◌, inl, inr, arith, ◌==◌, Bool-cases, ==_iff,
  if◌then◌else◌,
}
use amneziawg_nt.Handshake.{Bytes, Crypto}
use amneziawg_nt.Handshake.Peer.{bytes_lt, Handshake, put_handshake}
use amneziawg_nt.Handshake.Initiation.{
  Fresh, Initiation, Checked, create_initiation, check_initiation, accept, later_of,
}
use amneziawg_nt.Handshake.Response.{Response, create_response, consume_response}
use amneziawg_nt.Handshake.Session.{Session, Begun, begin_session}
use amneziawg_nt.Handshake.Device.{
  Device, Event, Outcome, initiate, check_first, copy_first, passed, checked_initiation,
  pick_checked, respond, got_response, begin, clear, accepted, write_handshake, wrote_initiation,
  took_initiation, wrote_response, took_response, begun_session, found_response, step,
}
use amneziawg_nt.Handshake.Kept.{
  Kept, keep, create-initiation_kept, create-response_kept, consume-response_kept,
  begin-session_kept, zero-handshake_kept, Newest, check-initiation_Newest,
}

-- Neither the check nor the acceptance of an initiation of a peer.
abbrev pub NotFor : ℕ → Outcome → Type 0
NotFor j (passed id timestamp checked) = id ≢ j
NotFor j (accepted id timestamp now) = id ≢ j
NotFor j _ = Unit {0}

-- The copy of an initiation with a timestamp.
pub record Taken (h h' : Handshake) (timestamp : Bytes) (now : ℕ) : Type 0 where
  pub latest :
      h'.latest_timestamp
      ≡ (if bytes_lt h.latest_timestamp timestamp then timestamp else h.latest_timestamp)
  pub consumed : h'.last_initiation_consumption ≡ later_of h.last_initiation_consumption now

-- What a step does to a peer's memory of past initiations.
abbrev pub Change : ℕ → Handshake → Handshake → Outcome → Type 0
Change j h h' o =
    (Kept h h' × NotFor j o)
    ⊎ ((ts : Bytes) × (checked : ℕ) × Kept h h' × Newest h ts checked × (o ≡ passed j ts checked))
    ⊎ ((ts : Bytes) × (now : ℕ) × Taken h h' ts now × (o ≡ accepted j ts now))

abbrev pub at : Device → ℕ → Handshake
at d j = d.peers.handshake j

-- A handler that writes one handshake.
write-Change :
    (d : Device) (id j : ℕ) (h : Handshake)
    → Kept (at d id) h
    → Kept (at d j) (at (write_handshake d id h) j)
unfolding write_handshake put_handshake
write-Change d id j h k = elim (Bool-cases (j == id)) [
  | inl e ↦ rw (e, (==_iff j id).0 e) k
  | inr e ↦ rw e keep
]

wrote-initiation_Change :
    (d : Device) (id j : ℕ) (new : Fresh) (r : Option Initiation × Handshake)
    → Kept (at d id) r.1
    → Change j (at d j) (at (wrote_initiation d id new r).0 j) (wrote_initiation d id new r).1
unfolding wrote_initiation
wrote-initiation_Change d id j new (none, h) k = inl (write-Change d id j h k, tt)
wrote-initiation_Change d id j new (some m, h) k = inl (write-Change d id j h k, tt)

wrote-response_Change :
    (d : Device) (id j : ℕ) (new : Fresh) (r : Option Response × Handshake)
    → Kept (at d id) r.1
    → Change j (at d j) (at (wrote_response d id new r).0 j) (wrote_response d id new r).1
unfolding wrote_response
wrote-response_Change d id j new (none, h) k = inl (write-Change d id j h k, tt)
wrote-response_Change d id j new (some m, h) k = inl (write-Change d id j h k, tt)

begun-session_Change :
    (d : Device) (id j : ℕ) (b : Begun) (o : Option Session)
    → Kept (at d id) b.handshake
    → Change j (at d j) (at (begun_session d id b o).0 j) (begun_session d id b o).1
unfolding begun_session
begun-session_Change d id j b none k = inl (write-Change d id j b.handshake k, tt)
begun-session_Change d id j b (some s) k = inl (write-Change d id j b.handshake k, tt)

checked-initiation_Change :
    (d : Device) (j checked : ℕ) (r : Option Checked)
    → ((k : Checked) → r ≡ some k → Newest (at d k.id) k.timestamp checked)
    → Change j (at d j) (at (checked_initiation d checked r).0 j) (checked_initiation d checked r).1
unfolding checked_initiation
checked-initiation_Change d j checked none n = inl (keep, tt)
checked-initiation_Change d j checked (some k) n = elim (Bool-cases (j == k.id)) [
  | inl e ↦ rw ((==_iff j k.id).0 e) (inr (inl (k.timestamp, checked, keep, n k refl, refl)))
  | inr e ↦ inl (keep, λ same. ground arith)
]

took-initiation_Change :
    (d : Device) (j now : ℕ) (r : Option Checked)
    → Change j (at d j) (at (took_initiation d now r).0 j) (took_initiation d now r).1
unfolding took_initiation write_handshake put_handshake accept
took-initiation_Change d j now none = inl (keep, tt)
took-initiation_Change d j now (some k) = elim (Bool-cases (j == k.id)) [
  | inl e ↦
      rw (e, (==_iff j k.id).0 e)
        (inr (inr (k.timestamp, now, record { latest = refl; consumed = refl }, refl)))
  | inr e ↦ rw e (inl (keep, λ same. ground arith))
]

module _ (c : Crypto) (hn idn : Bytes) where
  found-response_Change :
      (d : Device) (j : ℕ) (m : Response) (o : Option ℕ)
      → Change j (at d j) (at (found_response c d m o).0 j) (found_response c d m o).1
  unfolding found_response
  found-response_Change d j m none = inl (keep, tt)
  found-response_Change d j m (some id) = go _ refl
    where
      go :
          (r : Option Handshake)
          → consume_response c d.identity m (at d id) (at d id) ≡ r
          → Change j (at d j) (at (took_response d id r).0 j) (took_response d id r).1
      go none e = inl (keep, tt)
      go (some h) e =
          inl
            (write-Change d id j h (consume-response_kept c hn idn d.identity m (at d id) h e), tt)

  pub step-Change :
      (d : Device) (e : Event) (j : ℕ)
      → Change j (at d j) (at (step c hn idn d e).0 j) (step c hn idn d e).1
  unfolding step
  step-Change d (initiate id new) j =
      wrote-initiation_Change d id j new (create_initiation c hn idn d.identity (at d id) new)
        (create-initiation_kept c hn idn d.identity (at d id) new)
  step-Change d (check_first m checked) j =
      checked-initiation_Change d j checked (check_initiation c hn idn d.identity d.peers m checked)
        (λ k e. check-initiation_Newest c hn idn d.identity d.peers m checked k e)
  step-Change d (copy_first i now) j =
      took-initiation_Change (record d { waiting = (pick_checked i d.waiting).1 }) j now
        (pick_checked i d.waiting).0
  step-Change d (respond id new) j =
      wrote-response_Change d id j new (create_response c (at d id) new)
        (create-response_kept c hn idn (at d id) new)
  step-Change d (got_response m) j = found-response_Change d j m (d.indices m.receiver_index)
  step-Change d (begin id memory in_use indexed number now) j =
      begun-session_Change d id j
        (begin_session c (at d id) (d.slots id) memory in_use indexed number now) _
        (begin-session_kept c hn idn (at d id) (d.slots id) memory in_use indexed number now)
  step-Change d (clear id) j =
      inl (write-Change d id j _ (zero-handshake_kept c hn idn (at d id)), tt)
