-- ===== src/SendLimit.antt =====
-- driver/send.c: how often a peer is sent handshake messages. A call is one step, with the interrupt
-- time at its start and where the message goes out; whether memory was got and the message was made
-- come with the call.
pub mod Spaced
mod Tests
use amneziawg_nt.Base.{ℕ, ◌+◌, Bool, true, false, not, List, [], ◌∷◌, if◌then◌else◌}
use amneziawg_nt.Cookies.{birthdate_has_expired}

-- `REKEY_TIMEOUT`, in seconds.
abbrev pub rekey_timeout : ℕ
rekey_timeout = 5

-- `LastSentHandshake`, and the times at which initiations were sent, the last one first.
pub record HandshakeSender : Type 0 where
  pub last_sent_handshake : ℕ
  pub initiations : List ℕ

-- `PacketSendHandshakeInitiation`, which starts at one time and sends at another.
unfoldable pub send_handshake_initiation : HandshakeSender → ℕ → ℕ → Bool → Bool → HandshakeSender
send_handshake_initiation s now later allocated created =
    if not (birthdate_has_expired s.last_sent_handshake rekey_timeout now)
    then s
    else if not allocated
    then s
    else if created
    then record s { last_sent_handshake = later; initiations = later ∷ s.initiations }
    else record s { last_sent_handshake = now }

-- `PacketSendHandshakeResponse`; `created` covers the message and its session.
unfoldable pub send_handshake_response : HandshakeSender → ℕ → ℕ → Bool → Bool → HandshakeSender
send_handshake_response s now later allocated created =
    if not allocated then s else record s { last_sent_handshake = if created then later else now }

-- The calls for one peer.
pub data SendCall : Type 0 where
  send_initiation send_response : ℕ → ℕ → Bool → Bool → SendCall

unfoldable pub send_call : HandshakeSender → SendCall → HandshakeSender
send_call s (send_initiation now later allocated created) =
    send_handshake_initiation s now later allocated created
send_call s (send_response now later allocated created) =
    send_handshake_response s now later allocated created

unfoldable pub send_calls : HandshakeSender → List SendCall → HandshakeSender
send_calls s [] = s
send_calls s (c ∷ cs) = send_calls (send_call s c) cs
