-- ===== src/RxQueue.antt =====
-- driver/receive.c: the queue of a peer's data packets, from `DecryptPacket` to `PacketConsumeDataDone`.
-- A keypair is its number. `ChaCha20Poly1305DecryptMdl`'s answer comes with the call; `CounterValidate`
-- is Counter's and `AllowedIpsLookupSrc` is AllowedIps.Table's, over a table that stays as it is.
pub mod Once
pub mod Honest
mod Tests
use amneziawg_nt.Base.{
  ℕ, zero, suc, ◌+◌, ◌==◌, Bool, true, false, not, ◌&&◌, ◌||◌, Option, none, some, List, [], ◌∷◌,
  ◌++◌, leb, ltb, if◌then◌else◌,
}
use amneziawg_nt.Counter.{ReplayCounter, counter_validate, fresh, reject_after_messages}
use amneziawg_nt.Cookies.{birthdate_has_expired}
use amneziawg_nt.Staging.{reject_key_after_time}
use amneziawg_nt.AllowedIps.Table.{Table, IpHeader, lookup_src, ipv4, ipv6}

-- `PACKET_STATE`.
pub data PacketState : Type 0 where
  uncrypted crypted dead : PacketState

-- A data packet: `NET_BUFFER_NONCE`, the length of its data, what `IpTunnelParseProtocol` answers, and
-- its IP header with `TotLen` or `PayloadLen`.
pub record RxPacket : Type 0 where
  pub state : PacketState
  pub keypair : ℕ
  pub nonce : ℕ
  pub length : ℕ
  pub proto : ℕ
  pub ip_length : ℕ
  pub header : IpHeader

-- `NOISE_SYMMETRIC_KEY`, of the receiving side.
pub record ReceivingKey : Type 0 where
  pub is_valid : Bool
  pub birthdate : ℕ

-- A packet handed up, and the length it is trimmed to.
pub record Delivered : Type 0 where
  pub packet : RxPacket
  pub trimmed : ℕ

-- `RxQueue`, the keypairs' receiving keys and counters, the packets handed up, the last one first, and
-- `ifInErrors`.
pub record Receiver : Type 0 where
  pub queue : List RxPacket
  pub keys : ℕ → ReceivingKey
  pub counters : ℕ → ReplayCounter
  pub delivered : List Delivered
  pub in_errors : ℕ

abbrev pub update {ℓ} : {A : Type ℓ} → (ℕ → A) → ℕ → A → ℕ → A
update f k a j = if j == k then a else f j

-- `DecryptPacket`; `opens` is what the cipher answers.
unfoldable pub decrypt_packet : ReceivingKey → ReplayCounter → ℕ → Bool → Bool × ReceivingKey
decrypt_packet key c now opens =
    if not key.is_valid
      || (birthdate_has_expired key.birthdate reject_key_after_time now
          || leb reject_after_messages c.counter)
    then (false, record key { is_valid = false })
    else (opens, key)

-- The packet's new state, in the worker that decrypts.
abbrev pub new_state : Bool → PacketState
new_state ok = if ok then crypted else dead

-- What `PacketConsumeDataDone` makes of a packet.
pub data Verdict : Type 0 where
  keepalive dishonest : Verdict
  honest : ℕ → Verdict

abbrev pub same_peer : Option ℕ → ℕ → Bool
same_peer none peer = false
same_peer (some p) peer = p == peer

-- From the length in the IP header on.
abbrev pub check_source : Table → ℕ → RxPacket → ℕ → Verdict
check_source table peer p len =
    if ltb p.length len
    then dishonest
    else if same_peer (lookup_src table p.proto p.header) peer
    then honest len
    else dishonest

-- `PacketConsumeDataDone`, the part on the packet; the headers have 20 and 40 bytes.
unfoldable pub consume_data_done : Table → ℕ → RxPacket → Verdict
consume_data_done table peer p =
    if p.length == 0
    then keepalive
    else if p.proto == ipv4 && leb 20 p.length
    then (if ltb p.ip_length 20 then dishonest else check_source table peer p p.ip_length)
    else if p.proto == ipv6 && leb 40 p.length
    then check_source table peer p (p.ip_length + 40)
    else dishonest

abbrev pub record_verdict : Receiver → RxPacket → Verdict → Receiver
record_verdict r p keepalive = r
record_verdict r p dishonest = record r { in_errors = suc r.in_errors }
record_verdict r p (honest len) = record r {
  delivered = record { packet = p; trimmed = len } ∷ r.delivered;
}

-- A packet that is decrypted, by the answer of `CounterValidate`.
abbrev pub deliver : Table → ℕ → Receiver → RxPacket → Bool × ReplayCounter → Receiver
deliver table peer r p (ok, c) =
    let r' : Receiver = record r { counters = update r.counters p.keypair c } in
    if ok then record_verdict r' p (consume_data_done table peer p) else r'

abbrev pub consume_packet : Table → ℕ → Receiver → RxPacket → PacketState → Receiver
consume_packet table peer r p crypted =
    deliver table peer r p (counter_validate (r.counters p.keypair) p.nonce)
consume_packet table peer r p dead = r
consume_packet table peer r p uncrypted = r

abbrev pub is_uncrypted : PacketState → Bool
is_uncrypted uncrypted = true
is_uncrypted crypted = false
is_uncrypted dead = false

-- The loop of `PacketPeerRxWork`: whether there is more to do, and the receiver.
unfoldable pub packet_peer_rx_work : Table → ℕ → Receiver → ℕ → List RxPacket → Bool × Receiver
packet_peer_rx_work table peer r budget [] = (false, record r { queue = [] })
packet_peer_rx_work table peer r zero (p ∷ ps) =
    (not (is_uncrypted p.state), record r { queue = p ∷ ps })
packet_peer_rx_work table peer r (suc budget) (p ∷ ps) =
    let rest = packet_peer_rx_work table peer (consume_packet table peer r p p.state) budget ps in
    if is_uncrypted p.state then (false, record r { queue = p ∷ ps }) else rest

-- The worker that decrypts takes the packet at a place of the queue.
unfoldable pub decrypt_at : Receiver → ℕ → Bool → ℕ → List RxPacket → Receiver
decrypt_at r now opens place [] = r
decrypt_at r now opens zero (p ∷ ps) =
    let (ok, key) = decrypt_packet (r.keys p.keypair) (r.counters p.keypair) now opens in
    record r { queue = record p { state = new_state ok } ∷ ps; keys = update r.keys p.keypair key }
decrypt_at r now opens (suc place) (p ∷ ps) =
    let rest = decrypt_at r now opens place ps in record rest { queue = p ∷ rest.queue }

-- A packet comes, one is decrypted, the peer's queue is worked on. The one decrypted stands at any place,
-- so that all orders of the workers are among the sequences.
pub data RxEvent : Type 0 where
  arrive : RxPacket → RxEvent
  decrypt_one : ℕ → Bool → ℕ → RxEvent
  work : ℕ → RxEvent

unfoldable pub rx_step : Table → ℕ → Receiver → RxEvent → Receiver
rx_step table peer r (arrive p) = record r {
  queue = r.queue ++ record p { state = uncrypted } ∷ [];
}
rx_step table peer r (decrypt_one now opens place) = decrypt_at r now opens place r.queue
rx_step table peer r (work budget) = (packet_peer_rx_work table peer r budget r.queue).1

unfoldable pub rx_run : Table → ℕ → Receiver → List RxEvent → Receiver
rx_run table peer r [] = r
rx_run table peer r (e ∷ es) = rx_run table peer (rx_step table peer r e) es

-- No packet yet, and keypairs as they are made.
unfoldable pub rx_init : (ℕ → ReceivingKey) → Receiver
rx_init keys = record {
  queue = [];
  keys = keys;
  counters = λ k. fresh;
  delivered = [];
  in_errors = 0;
}
