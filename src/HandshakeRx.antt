-- ===== src/HandshakeRx.antt =====
-- driver/receive.c, `ReceiveHandshakePacket`: which handshake messages are handled, which get a cookie
-- back and which are dropped, by how long the queue of handshakes is and was.
-- The worker of one processor at a time: a call is one step. The MAC check is `CookieValidatePacket`,
-- whose answer with and without the check of the cookie comes with the message.
pub mod Load
mod Tests
use amneziawg_nt.Base.{
  ℕ, ◌+◌, ◌/◌, ◌<◌, ◌==◌, Bool, true, false, not, ◌&&◌, List, [], ◌∷◌, leb, if◌then◌else◌,
}
use amneziawg_nt.Cookies.{
  MacState, invalid_mac, valid_mac_but_no_cookie, valid_mac_with_cookie_but_ratelimited,
  valid_mac_with_cookie, birthdate_has_expired,
}

-- `MAX_QUEUED_INCOMING_HANDSHAKES`.
abbrev pub max_queued_incoming_handshakes : ℕ
max_queued_incoming_handshakes = 4096

-- The type of a message in the handshake queue.
pub data MessageType : Type 0 where
  initiation response cookie_reply other_type : MessageType

-- A message as the worker takes it: its type, `HandshakeRxQueueLen`, the interrupt time, and what
-- `CookieValidatePacket` answers, by whether the cookie is checked.
pub record RxMessage : Type 0 where
  pub kind : MessageType
  pub queue_len : ℕ
  pub time : ℕ
  pub mac_state : Bool → MacState

-- What becomes of it.
pub data RxAction : Type 0 where
  take_cookie drop reply_with_cookie : RxAction
  take_initiation take_response wrong_type : RxAction

-- The queue is long now.
abbrev pub is_long : RxMessage → Bool
is_long m = leb (max_queued_incoming_handshakes / 8) m.queue_len

-- `UnderLoad`, and `LastUnderLoad` after it.
unfoldable pub under_load : ℕ → RxMessage → Bool × ℕ
under_load last m =
    if is_long m
    then (true, m.time)
    else if last == 0
    then (false, last)
    else if birthdate_has_expired last 1 m.time
    then (false, 0)
    else (true, last)

abbrev pub handle : MessageType → Bool → RxAction
handle initiation needs_cookie = if needs_cookie then reply_with_cookie else take_initiation
handle response needs_cookie = if needs_cookie then reply_with_cookie else take_response
handle cookie_reply needs_cookie = wrong_type
handle other_type needs_cookie = wrong_type

-- From the MAC's state and the load on; `handle` is given `PacketNeedsCookie`.
unfoldable pub decide : MessageType → Bool → MacState → RxAction
decide kind true valid_mac_with_cookie = handle kind false
decide kind true valid_mac_but_no_cookie = handle kind true
decide kind true valid_mac_with_cookie_but_ratelimited = drop
decide kind true invalid_mac = drop
decide kind false valid_mac_with_cookie = drop
decide kind false valid_mac_but_no_cookie = handle kind false
decide kind false valid_mac_with_cookie_but_ratelimited = drop
decide kind false invalid_mac = drop

abbrev pub is_cookie_reply : MessageType → Bool
is_cookie_reply cookie_reply = true
is_cookie_reply initiation = false
is_cookie_reply response = false
is_cookie_reply other_type = false

-- `ReceiveHandshakePacket`: the action, and `LastUnderLoad`.
unfoldable pub receive_handshake_packet : ℕ → RxMessage → RxAction × ℕ
receive_handshake_packet last m =
    if is_cookie_reply m.kind
    then (take_cookie, last)
    else let (loaded, last') = under_load last m in
      (decide m.kind loaded (m.mac_state loaded), last')

-- `PacketHandshakeRxWorker`, from `LastUnderLoad` on.
unfoldable pub handshake_rx_worker : ℕ → List RxMessage → List RxAction
handshake_rx_worker last [] = []
handshake_rx_worker last (m ∷ ms) =
    let (action, last') = receive_handshake_packet last m in action ∷ handshake_rx_worker last' ms
