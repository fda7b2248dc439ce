-- ===== src/Staging.antt =====
-- driver/send.c, driver/device.c: the packets that wait for a key, their nonces, when the key is renewed,
-- and padding.
-- A packet is a list of buffers, each of which takes a nonce. A call of `PacketSendStagedPackets` takes
-- the queue under its lock, assigns the nonces and sends, which is one step, or puts the packets back one
-- by one. `SendingCounter` does not wrap, since no nonce is taken once it is past the limit.
pub mod Nonces
pub mod Packets
pub mod Padding
mod Tests
use amneziawg_nt.Base.{
  length, ℕ, zero, suc, min, ◌+◌, ◌-◌, ◌*◌, ◌/◌, ◌%◌, Bool, true, false, ◌&&◌, ◌||◌, Option, none,
  some, List, [], ◌∷◌, ◌++◌, leb, ltb, ◌==◌, map, if◌then◌else◌,
}
use amneziawg_nt.Counter.{reject_after_messages}
use amneziawg_nt.Cookies.{birthdate_has_expired}

-- A `NET_BUFFER_LIST`: its number and how many buffers it has.
pub record StagedPacket : Type 0 where
  pub id : ℕ
  pub buffers : ℕ

-- The current keypair: `Sending.IsValid`, `Sending.Birthdate`, `SendingCounter`, `IAmTheInitiator`.
pub record SendingKey : Type 0 where
  pub is_valid : Bool
  pub birthdate : ℕ
  pub counter : ℕ
  pub initiator : Bool

-- `StagedPacketQueue` and `CurrentKeypair`; the packets that a thread has taken out to send, by call, and
-- those that it is putting back; the packets and the nonces handed to `PacketCreateData` under this
-- keypair, in order; the packets given up; how often a handshake was asked for.
pub record Staging : Type 0 where
  pub queue : List StagedPacket
  pub key : Option SendingKey
  pub stolen : List (List StagedPacket)
  pub returning : List (List StagedPacket)
  pub sent : List ℕ
  pub nonces : List ℕ
  pub discarded : List ℕ
  pub asked : ℕ

-- `REJECT_AFTER_TIME`, `REKEY_AFTER_TIME`, in seconds, and `REKEY_AFTER_MESSAGES`.
abbrev pub reject_key_after_time : ℕ
reject_key_after_time = 180

abbrev pub rekey_after_time : ℕ
rekey_after_time = 120

abbrev pub rekey_after_messages : ℕ
rekey_after_messages = 1152921504606846976

-- Nonces, the counter after them, and whether all are below the limit.
pub record Assigned : Type 0 where
  pub taken : List ℕ
  pub next : ℕ
  pub complete : Bool

abbrev join_nonces : List ℕ → Assigned → Assigned
join_nonces ns a = record a { taken = ns ++ a.taken }

-- The inner loop, over a packet's buffers.
unfoldable pub assign_buffers : ℕ → ℕ → Assigned
assign_buffers c zero = record { taken = []; next = c; complete = true }
assign_buffers c (suc n) =
    let rest = assign_buffers (suc c) n in
    if leb reject_after_messages c
    then record { taken = []; next = suc c; complete = false }
    else join_nonces (c ∷ []) rest

-- The outer loop, over the packets.
unfoldable pub assign : ℕ → List StagedPacket → Assigned
unfolding assign_buffers
assign c [] = record { taken = []; next = c; complete = true }
assign c (p ∷ ps) =
    let first = assign_buffers c p.buffers in
    let rest = assign first.next ps in
    if first.complete then join_nonces first.taken rest else first

abbrev pub packet_id : StagedPacket → ℕ
packet_id p = p.id

-- The packets go to the end of the queue again, and a handshake is asked for.
abbrev pub give_back : Staging → List StagedPacket → Staging
give_back s packets = record s { returning = packets ∷ s.returning; asked = suc s.asked }

-- With all nonces the packets go on; else the key is given up and they are staged again.
abbrev pub send_assigned : Staging → SendingKey → List StagedPacket → Assigned → Staging
send_assigned s k packets a =
    if a.complete
    then record s {
      key = some (record k { counter = a.next });
      sent = s.sent ++ map packet_id packets;
      nonces = s.nonces ++ a.taken;
    }
    else give_back (record s { key = some (record k { counter = a.next; is_valid = false }) })
        packets

abbrev pub send_with : Staging → ℕ → List StagedPacket → Option SendingKey → Staging
send_with s now packets none = give_back s packets
send_with s now packets (some k) =
    if k.is_valid
    then if birthdate_has_expired k.birthdate reject_key_after_time now
      then give_back (record s { key = some (record k { is_valid = false }) }) packets
      else send_assigned s k packets (assign k.counter packets)
    else give_back s packets

-- `PacketSendStagedPackets`: the queue is taken out,
unfoldable pub steal_staged_packets : Staging → Staging
steal_staged_packets s = record s { queue = []; stolen = s.queue ∷ s.stolen }

-- and what a call has taken out is sent or given back; nothing, if there was nothing.
abbrev pub send_unless_empty : Staging → ℕ → List StagedPacket → Staging
send_unless_empty s now [] = s
send_unless_empty s now (p ∷ ps) = send_with s now (p ∷ ps) s.key

-- The call at a place, and the others.
abbrev pub pick {ℓ} : {A : Type ℓ} → ℕ → List (List A) → List A × List (List A)
pick i [] = ([], [])
pick zero (b ∷ bs) = (b, bs)
pick (suc i) (b ∷ bs) = let (c, cs) = pick i bs in (c, b ∷ cs)

unfoldable pub send_stolen_packets : Staging → ℕ → ℕ → Staging
send_stolen_packets s i now =
    send_unless_empty (record s { stolen = (pick i s.stolen).1 }) now (pick i s.stolen).0

-- A packet given back at the end of the queue, of the call at a place; a packet waits in its call's
-- list until its turn.
abbrev pub requeue_first : Staging → List StagedPacket → List (List StagedPacket) → Staging
requeue_first s [] others = record s { returning = others }
requeue_first s (p ∷ ps) others = record s { queue = s.queue ++ p ∷ []; returning = ps ∷ others }

unfoldable pub requeue_packet : Staging → ℕ → Staging
requeue_packet s i = requeue_first s (pick i s.returning).0 (pick i s.returning).1

-- `MAX_STAGED_PACKETS`.
abbrev pub max_staged_packets : ℕ
max_staged_packets = 128

-- The oldest packets of a queue that is too long, and the rest.
unfoldable pub discard_excess : List StagedPacket → List StagedPacket × List StagedPacket
discard_excess [] = ([], [])
discard_excess (p ∷ ps) =
    let (gone, rest) = discard_excess ps in
    if ltb max_staged_packets (length (p ∷ ps)) then (p ∷ gone, rest) else ([], p ∷ ps)

-- `SendNetBufferLists` for a packet with a peer, up to the call of `PacketSendStagedPackets`.
unfoldable pub stage_packet : Staging → StagedPacket → Staging
unfolding discard_excess
stage_packet s p = record s {
  queue = (discard_excess s.queue).1 ++ p ∷ [];
  discarded = s.discarded ++ map packet_id (discard_excess s.queue).0;
}

-- `PacketPurgeStagedPackets`.
unfoldable pub purge_staged_packets : Staging → Staging
purge_staged_packets s = record s { queue = []; discarded = s.discarded ++ map packet_id s.queue }

abbrev pub is_stale : ℕ → Option SendingKey → Bool
is_stale now none = false
is_stale now (some k) =
    k.is_valid
    && (ltb rekey_after_messages k.counter
        || (k.initiator && birthdate_has_expired k.birthdate rekey_after_time now))

-- `KeepKeyFresh` of the sending side.
unfoldable pub keep_key_fresh : Staging → ℕ → Staging
keep_key_fresh s now = if is_stale now s.key then record s { asked = suc s.asked } else s

-- `MESSAGE_PADDING_MULTIPLE`.
abbrev pub padding_multiple : ℕ
padding_multiple = 16

-- `ALIGN_UP_BY_T(ULONG, n, 16)`.
abbrev pub align_padding : ℕ → ℕ
align_padding n = (n + (padding_multiple - 1)) % 4294967296 / padding_multiple * padding_multiple

-- `CalculateNblPadding`, from the data's length and the MTU.
unfoldable pub calculate_padding : ℕ → ℕ → ℕ
calculate_padding len mtu =
    if mtu == 0
    then (align_padding len + 4294967296 - len) % 4294967296
    else let last_unit = if ltb mtu len then len % mtu else len in
      (min mtu (align_padding last_unit) + 4294967296 - last_unit) % 4294967296

-- The steps, of any number of threads.
pub data StagingEvent : Type 0 where
  stage : StagedPacket → StagingEvent
  steal purge : StagingEvent
  send_stolen : ℕ → ℕ → StagingEvent
  requeue look : ℕ → StagingEvent

unfoldable pub staging_step : Staging → StagingEvent → Staging
staging_step s (stage p) = stage_packet s p
staging_step s steal = steal_staged_packets s
staging_step s purge = purge_staged_packets s
staging_step s (send_stolen i now) = send_stolen_packets s i now
staging_step s (requeue i) = requeue_packet s i
staging_step s (look now) = keep_key_fresh s now

unfoldable pub staging_run : Staging → List StagingEvent → Staging
unfolding staging_step
staging_run s [] = s
staging_run s (e ∷ es) = staging_run (staging_step s e) es
