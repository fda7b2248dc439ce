-- ===== src/SendLimit/Tests.antt =====
-- Initiations to a peer that does not answer, and the theorem on them.
use amneziawg_nt.Base.{true, List, [], ◌∷◌, ◌≡◌, refl, arith}
use amneziawg_nt.Cookies.{birthdate_has_expired}
use amneziawg_nt.SendLimit.{
  HandshakeSender, SendCall, send_initiation, send_response, send_calls, send_call,
  send_handshake_initiation, send_handshake_response,
}
use amneziawg_nt.SendLimit.Spaced.{IsApart, send-calls-IsApart}

abbrev quiet_sender : HandshakeSender
quiet_sender = record { last_sent_handshake = 1; initiations = [] }

abbrev retries : List SendCall
retries =
    send_initiation 60000000 60000005 true true
    ∷ send_initiation 90000000 90000005 true true
    ∷ send_response 95000000 95000001 true true
    ∷ send_initiation 120000000 120000005 true true
    ∷ send_initiation 150000000 150000005 true true
    ∷ []

sent_twice : (send_calls quiet_sender retries).initiations ≡ 150000005 ∷ 60000005 ∷ []
unfolding send_calls send_call send_handshake_initiation send_handshake_response
    birthdate_has_expired
sent_twice = refl

send-calls-IsApart_example :
    IsApart
      (send_calls quiet_sender retries).last_sent_handshake
      (send_calls quiet_sender retries).initiations
send-calls-IsApart_example = send-calls-IsApart retries 1 quiet_sender (omega arith) tt (
  omega arith,
  omega arith,
  (
    omega arith,
    omega arith,
    (omega arith, omega arith, (omega arith, omega arith, (omega arith, omega arith, tt))),
  ),
)
