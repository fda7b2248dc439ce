-- ===== src/Handshake/Sessions.antt =====
-- driver/noise.c: a session takes a handshake that was finished, and each such handshake once.
use amneziawg_nt.Base.{
  ℕ, ◌+◌, ◌≤◌, true, false, Bool, Option, none, some, List, [], ◌∷◌, ◌≡◌, refl, arith,
  if◌then◌else◌, ◌==◌, Bool-cases, inl, inr, ==_iff,
}
use amneziawg_nt.Handshake.{Bytes, Crypto, Symmetric}
use amneziawg_nt.Handshake.Peer.{
  Handshake, put_handshake, zero_handshake, consumed_initiation, created_initiation,
  created_response,
}
use amneziawg_nt.Handshake.Initiation.{
  Initiation, Fresh, Checked, copy_initiation, accept, check_initiation, create_initiation,
  finish_initiation, write_initiation,
}
use amneziawg_nt.Handshake.Response.{
  Response, create_response, consume_response, finish_response, is_state, write_response,
}
use amneziawg_nt.Handshake.Session.{Session, Begun, begin_session, is_finished}
use amneziawg_nt.Handshake.Device.{
  Device, Event, Outcome, initiate, check_first, copy_first, checked_initiation, pick_checked,
  respond, got_response, begin, clear, completed, opened, write_handshake, wrote_initiation,
  took_initiation, wrote_response, took_response, begun_session, found_response, step, run,
}
use amneziawg_nt.Handshake.Change.{at}
use amneziawg_nt.Keypairs.{Keypairs}
use amneziawg_nt.Handshake.{handshake_init}

-- A handshake that can begin a session.
abbrev pub ready : Handshake → ℕ
ready h = if is_finished h.state then 1 else 0

-- Sessions that a call began for a peer, and handshakes that it finished.
abbrev pub begun_by : ℕ → Outcome → ℕ
begun_by j (opened id s) = if id == j then 1 else 0
begun_by j _ = 0

abbrev pub finished_by : ℕ → Outcome → ℕ
finished_by j (completed id) = if id == j then 1 else 0
finished_by j _ = 0

abbrev pub sessions : ℕ → List Outcome → ℕ
sessions j [] = 0
sessions j (o ∷ os) = begun_by j o + sessions j os

abbrev pub handshakes : ℕ → List Outcome → ℕ
handshakes j [] = 0
handshakes j (o ∷ os) = finished_by j o + handshakes j os

abbrev Charged : Device → ℕ → Device × Outcome → Type 0
Charged d j r = begun_by j r.1 + ready (at r.0 j) ≤ finished_by j r.1 + ready (at d j)

write-ready :
    (d : Device) (id j : ℕ) (h : Handshake)
    → ready h ≤ ready (at d id)
    → ready (at (write_handshake d id h) j) ≤ ready (at d j)
unfolding write_handshake put_handshake
write-ready d id j h k = elim (Bool-cases (j == id)) [
  | inl e ↦ rw (e, (==_iff j id).0 e) k
  | inr e ↦ rw e (omega arith)
]

-- A handshake may become ready where the call finishes it.
write-finished :
    (d : Device) (id j : ℕ) (h : Handshake)
    → ready (at (write_handshake d id h) j) ≤ finished_by j (completed id) + ready (at d j)
unfolding write_handshake put_handshake
write-finished d id j h = ground arith

-- A session takes the readiness of its handshake.
write-begun :
    (d : Device) (id j : ℕ) (h : Handshake) (s : Session)
    → ready h ≡ 0
    → ready (at d id) ≡ 1
    → begun_by j (opened id s) + ready (at (write_handshake d id h) j) ≤ ready (at d j)
unfolding write_handshake put_handshake
write-begun d id j h s e k = elim (Bool-cases (j == id)) [
  | inl same ↦ rw (same, (==_iff j id).0 same) (ground arith)
  | inr other ↦ rw other (ground arith)
]

silent : {a b : ℕ} → a ≤ b → 0 + a ≤ 0 + b
silent h = omega arith

silent_end : {a b : ℕ} → a ≤ b → 0 + a ≤ b
silent_end h = omega arith

wrote-initiation_Charged :
    (d : Device) (id j : ℕ) (new : Fresh) (present : Bool) (r : Option Initiation × Symmetric)
    → Charged d j (
        wrote_initiation d id new (
          if present
          then finish_initiation (record (at d id) { ephemeral_private = new.secret }) r
          else (none, at d id)))
unfolding wrote_initiation
wrote-initiation_Charged d id j new false r = silent (write-ready d id j (at d id) (omega arith))
wrote-initiation_Charged d id j new true (none, s) = silent (
    write-ready d id j (record (at d id) { ephemeral_private = new.secret; mixed = s })
      (omega arith))
wrote-initiation_Charged d id j new true (some m, s) = silent (
    write-ready d id j
      (record (at d id) { ephemeral_private = new.secret; mixed = s; state = created_initiation })
      (omega arith))

wrote-response_Charged :
    (d : Device) (id j : ℕ) (new : Fresh) (present : Bool) (r : Option Response × Symmetric)
    → Charged d j (
        wrote_response d id new (
          if present
          then finish_response (record (at d id) { ephemeral_private = new.secret }) r
          else (none, at d id)))
unfolding wrote_response
wrote-response_Charged d id j new false r = silent (write-ready d id j (at d id) (omega arith))
wrote-response_Charged d id j new true (none, s) = silent (
    write-ready d id j (record (at d id) { ephemeral_private = new.secret; mixed = s })
      (omega arith))
wrote-response_Charged d id j new true (some m, s) = silent_end (
    write-finished d id j
      (record (at d id) { ephemeral_private = new.secret; mixed = s; state = created_response }))

checked-initiation_Charged :
    (d : Device) (j checked : ℕ) (r : Option Checked) → Charged d j (checked_initiation d checked r)
unfolding checked_initiation
checked-initiation_Charged d j checked none = omega arith
checked-initiation_Charged d j checked (some k) = omega arith

took-initiation_Charged :
    (d : Device) (j now : ℕ) (r : Option Checked) → Charged d j (took_initiation d now r)
unfolding took_initiation accept
took-initiation_Charged d j now none = omega arith
took-initiation_Charged d j now (some k) =
    silent (write-ready d k.id j (copy_initiation (at d k.id) k now) (omega arith))

took-response_Charged :
    (d : Device) (id j : ℕ) (r : Option Handshake) → Charged d j (took_response d id r)
unfolding took_response
took-response_Charged d id j none = omega arith
took-response_Charged d id j (some h) = silent_end (write-finished d id j h)

begun-session_Charged :
    (d : Device) (id j : ℕ) (b : Begun)
    → ready b.handshake ≤ ready (at d id)
    → ((s : Session) → b.session ≡ some s → (ready b.handshake ≡ 0) × (ready (at d id) ≡ 1))
    → (o : Option Session) → b.session ≡ o
    → Charged d j (begun_session d id b o)
unfolding begun_session
begun-session_Charged d id j b le k none e = silent (write-ready d id j b.handshake le)
begun-session_Charged d id j b le k (some s) e =
    let (z, f) = k s e in
    let c : begun_by j (opened id s) + ready (at (write_handshake d id b.handshake) j)
        ≤ ready (at d j) =
      write-begun d id j b.handshake s z f in
    omega (arith, c)

module _ (c : Crypto) (hn idn : Bytes) where
  begin-session_ready :
      (h : Handshake) (slots : Keypairs) (memory in_use indexed : Bool) (id now : ℕ)
      → (ready (begin_session c h slots memory in_use indexed id now).handshake ≤ ready h)
        × ((s : Session)
            → (begin_session c h slots memory in_use indexed id now).session ≡ some s
            → (ready (begin_session c h slots memory in_use indexed id now).handshake ≡ 0)
              × (ready h ≡ 1))
  unfolding begin_session zero_handshake
  begin-session_ready h slots memory in_use indexed id now = ground arith

  found-response_Charged :
      (d : Device) (j : ℕ) (m : Response) (o : Option ℕ) → Charged d j (found_response c d m o)
  unfolding found_response
  found-response_Charged d j m none = omega arith
  found-response_Charged d j m (some id) =
      took-response_Charged d id j (consume_response c d.identity m (at d id) (at d id))

  step-Charged : (d : Device) (e : Event) (j : ℕ) → Charged d j (step c hn idn d e)
  unfolding step create_initiation create_response zero_handshake
  step-Charged d (initiate id new) j = wrote-initiation_Charged d id j new d.identity.has_identity (
      write_initiation c d.identity (at d id) new (handshake_init c hn idn (at d id).remote_static))
  step-Charged d (check_first m checked) j =
      checked-initiation_Charged d j checked
        (check_initiation c hn idn d.identity d.peers m checked)
  step-Charged d (copy_first i now) j =
      took-initiation_Charged (record d { waiting = (pick_checked i d.waiting).1 }) j now
        (pick_checked i d.waiting).0
  step-Charged d (respond id new) j =
      wrote-response_Charged d id j new (is_state (at d id).state consumed_initiation)
        (write_response c (at d id) new (at d id).mixed)
  step-Charged d (got_response m) j = found-response_Charged d j m (d.indices m.receiver_index)
  step-Charged d (begin id memory in_use indexed number now) j =
      let (le, k) = begin-session_ready (at d id) (d.slots id) memory in_use indexed number now in
      begun-session_Charged d id j
        (begin_session c (at d id) (d.slots id) memory in_use indexed number now) le k _ refl
  step-Charged d (clear id) j = silent (write-ready d id j (zero_handshake (at d id)) (omega arith))

  -- In every sequence of calls, a peer's sessions are at most its responses sent or accepted, and one
  -- more if its handshake was finished at the start.
  pub run-session-bound :
      (es : List Event) (d : Device) (j : ℕ)
      → sessions j (run c hn idn d es) ≤ handshakes j (run c hn idn d es) + ready (at d j)
  unfolding run
  run-session-bound [] d j = omega arith
  run-session-bound (e ∷ es) d j =
      omega (arith, step-Charged d e j, run-session-bound es (step c hn idn d e).0 j)
