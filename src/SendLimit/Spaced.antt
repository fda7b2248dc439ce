-- ===== src/SendLimit/Spaced.antt =====
-- driver/send.c: the time between two initiations to a peer.
use amneziawg_nt.Base.{
  ℕ, ◌+◌, ◌*◌, ◌≤◌, Bool, true, false, not, List, [], ◌∷◌, arith, leb, if◌then◌else◌, Bool-cases,
  inl, inr,
}
use amneziawg_nt.Cookies.{birthdate_has_expired}
use amneziawg_nt.SendLimit.{
  HandshakeSender, send_handshake_initiation, send_handshake_response, SendCall, send_initiation,
  send_response, send_call, send_calls,
}

-- Five seconds after the newest of the times.
abbrev pub IsFiveAfter : ℕ → List ℕ → Type 0
IsFiveAfter t [] = Unit {0}
IsFiveAfter t (u ∷ us) = u + 50000000 ≤ t

-- Times, the last one first: each at least five seconds after the one before, and none after `last`.
abbrev pub IsApart : ℕ → List ℕ → Type 0
IsApart last [] = Unit {0}
IsApart last (t ∷ ts) = (t ≤ last) × IsFiveAfter t ts × IsApart t ts

-- The interrupt time does not go back, from a call to the next or within a call.
abbrev pub IsOrdered : ℕ → List SendCall → Type 0
IsOrdered before [] = Unit {0}
IsOrdered before (send_initiation now later allocated created ∷ cs) =
    (before ≤ now) × (now ≤ later) × IsOrdered later cs
IsOrdered before (send_response now later allocated created ∷ cs) =
    (before ≤ now) × (now ≤ later) × IsOrdered later cs

IsApart-later : (last now : ℕ) (ts : List ℕ) → last ≤ now → IsApart last ts → IsApart now ts
IsApart-later last now [] h a = tt
IsApart-later last now (t ∷ ts) h (l, f, a) = (omega (arith, h, l), f, a)

IsFiveAfter-later :
    (last now : ℕ) (ts : List ℕ) → last + 50000000 ≤ now → IsApart last ts → IsFiveAfter now ts
IsFiveAfter-later last now [] h a = tt
IsFiveAfter-later last now (t ∷ ts) h (l, f, a) = omega (arith, h, l)

-- The state between two calls: the newest initiation is not after `LastSentHandshake`, nor that after now.
abbrev IsSpaced : ℕ → HandshakeSender → Type 0
IsSpaced now s = (s.last_sent_handshake ≤ now) × IsApart s.last_sent_handshake s.initiations

initiation-IsSpaced :
    (before now later : ℕ) (allocated created : Bool) (s : HandshakeSender)
    → before ≤ now
    → now ≤ later
    → IsSpaced before s
    → IsSpaced later (send_handshake_initiation s now later allocated created)
unfolding send_handshake_initiation birthdate_has_expired
initiation-IsSpaced before now later allocated created s h k (l, a) =
    elim (Bool-cases (leb (s.last_sent_handshake + 5 * 10000000) now)) [
      | inr e ↦ rw e (omega (arith, h, k, l), a)
      | inl e ↦ rw e (go allocated created (ground (arith, e)))
    ]
  where
    go :
        (allocated created : Bool)
        → s.last_sent_handshake + 50000000 ≤ now
        → IsSpaced later (
            if not allocated
            then s
            else if created
            then record s { last_sent_handshake = later; initiations = later ∷ s.initiations }
            else record s { last_sent_handshake = now })
    go false created old = (omega (arith, h, k, l), a)
    go true true old = (
      omega arith,
      (
        omega arith,
        IsFiveAfter-later s.last_sent_handshake later s.initiations (omega (arith, old, k)) a,
        IsApart-later s.last_sent_handshake later s.initiations (omega (arith, h, k, l)) a,
      ),
    )
    go true false old =
        (k, IsApart-later s.last_sent_handshake now s.initiations (omega (arith, h, l)) a)

response-IsSpaced :
    (before now later : ℕ) (allocated created : Bool) (s : HandshakeSender)
    → before ≤ now
    → now ≤ later
    → IsSpaced before s
    → IsSpaced later (send_handshake_response s now later allocated created)
unfolding send_handshake_response
response-IsSpaced before now later false created s h k (l, a) = (omega (arith, h, k, l), a)
response-IsSpaced before now later true true s h k (l, a) = (
  omega arith,
  IsApart-later s.last_sent_handshake later s.initiations (omega (arith, h, k, l)) a,
)
response-IsSpaced before now later true false s h k (l, a) =
    (k, IsApart-later s.last_sent_handshake now s.initiations (omega (arith, h, l)) a)

-- In every sequence of sends of initiations and responses to one peer, failed ones included, with times
-- that do not go back and `NoiseResetLastSentHandshake` not called: any two initiations that are sent
-- one after the other are at least five seconds apart.
pub send-calls-IsApart :
    (cs : List SendCall) (now : ℕ) (s : HandshakeSender)
    → s.last_sent_handshake ≤ now
    → IsApart s.last_sent_handshake s.initiations
    → IsOrdered now cs
    → IsApart (send_calls s cs).last_sent_handshake (send_calls s cs).initiations
unfolding send_calls send_call
send-calls-IsApart [] now s l a o = a
send-calls-IsApart (send_initiation n later allocated created ∷ cs) now s l a (h, k, o) =
    let step = initiation-IsSpaced now n later allocated created s h k (l, a) in
    send-calls-IsApart cs later (send_handshake_initiation s n later allocated created) step.0
      step.1 o
send-calls-IsApart (send_response n later allocated created ∷ cs) now s l a (h, k, o) =
    let step = response-IsSpaced now n later allocated created s h k (l, a) in
    send-calls-IsApart cs later (send_handshake_response s n later allocated created) step.0 step.1
      o
