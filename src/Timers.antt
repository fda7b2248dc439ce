-- ===== src/Timers.antt =====
-- driver/timers.c: the timers of a peer and what starts, stops and follows each.
-- A timer is pending or not, with the time it was set to expire after. Acquiring the peer's rundown
-- protection succeeds while the peer is in use. Calls into other parts are effects; jitter is an
-- argument.
pub mod Retries
pub mod Down
mod Tests
use amneziawg_nt.Base.{
  ℕ, suc, ◌+◌, ◌*◌, ◌/◌, Bool, true, false, ◌&&◌, not, List, [], ◌∷◌, ltb, ◌==◌, if◌then◌else◌,
}

-- Seconds in units of 100 nanoseconds: `SEC_TO_SYS_TIME_UNITS`.
abbrev pub sec_to_units : ℕ → ℕ
sec_to_units s = s * 10000000

abbrev pub rekey_timeout : ℕ
rekey_timeout = 5

abbrev pub keepalive_timeout : ℕ
keepalive_timeout = 10

abbrev pub reject_after_time : ℕ
reject_after_time = 180

abbrev pub max_timer_handshakes : ℕ
max_timer_handshakes = 90 / rekey_timeout

-- `TIMER`.
pub record Timer : Type 0 where
  pub pending : Bool
  pub expires : ℕ

abbrev pub stopped : Timer
stopped = record { pending = false; expires = 0 }

-- The fields of `AWG_PEER` for the timers.
pub record Peer : Type 0 where
  pub is_up : Bool
  pub in_use : Bool
  pub retransmit_handshake : Timer
  pub send_keepalive : Timer
  pub new_handshake : Timer
  pub zero_key_material : Timer
  pub persistent_keepalive : Timer
  pub attempts : ℕ
  pub sent_lastminute_handshake : Bool
  pub need_another_keepalive : Bool
  pub keepalive_interval : ℕ

pub data Effect : Type 0 where
  purge_staged_packets clear_endpoint_src keepalive clear_keys : Effect
  queued_initiation : Bool → Effect

-- `TimerDelete`.
abbrev pub timer_delete : Timer → Timer
timer_delete t = record { pending = false; expires = t.expires }

-- `ModPeerTimer`: the timer after it.
unfoldable pub mod_peer_timer : Peer → Timer → ℕ → Timer
mod_peer_timer p t expires =
    if p.is_up && p.in_use then record { pending = true; expires = expires } else t

-- `PacketSendQueuedHandshakeInitiation`, as far as the timers' fields go.
unfoldable pub queue_initiation : Peer → Bool → Peer
queue_initiation p is_retry = if is_retry then p else record p { attempts = 0 }

-- `ExpiredRetransmitHandshake`.
unfoldable pub expired_retransmit_handshake : Peer → Peer × List Effect
expired_retransmit_handshake p =
    if ltb max_timer_handshakes p.attempts
    then (
      record p {
        send_keepalive = timer_delete p.send_keepalive;
        zero_key_material =
            if p.zero_key_material.pending
            then p.zero_key_material
            else mod_peer_timer p p.zero_key_material (sec_to_units (reject_after_time * 3));
      },
      purge_staged_packets ∷ [],
    )
    else (
      queue_initiation (record p { attempts = suc p.attempts }) true,
      clear_endpoint_src ∷ queued_initiation true ∷ [],
    )

-- `ExpiredSendKeepalive`.
unfoldable pub expired_send_keepalive : Peer → Peer × List Effect
expired_send_keepalive p =
    if p.need_another_keepalive
    then (
      record p {
        need_another_keepalive = false;
        send_keepalive = mod_peer_timer p p.send_keepalive (sec_to_units keepalive_timeout);
      },
      keepalive ∷ [],
    )
    else (p, keepalive ∷ [])

-- `ExpiredNewHandshake`.
unfoldable pub expired_new_handshake : Peer → Peer × List Effect
expired_new_handshake p =
    (queue_initiation p false, clear_endpoint_src ∷ queued_initiation false ∷ [])

-- `ExpiredZeroKeyMaterial`.
unfoldable pub expired_zero_key_material : Peer → Peer × List Effect
expired_zero_key_material p = if p.in_use then (p, clear_keys ∷ []) else (p, [])

-- `ExpiredSendPersistentKeepalive`.
unfoldable pub expired_persistent_keepalive : Peer → Peer × List Effect
expired_persistent_keepalive p = if p.keepalive_interval == 0 then (p, []) else (p, keepalive ∷ [])

-- `TimersDataSent`.
unfoldable pub data_sent : Peer → ℕ → Peer
data_sent p jitter = if p.new_handshake.pending then p else record p {
  new_handshake =
      mod_peer_timer p p.new_handshake (sec_to_units (keepalive_timeout + rekey_timeout) + jitter);
}

-- `TimersDataReceived`.
unfoldable pub data_received : Peer → Peer
data_received p =
    if p.is_up
    then if p.send_keepalive.pending then record p { need_another_keepalive = true } else record p {
      send_keepalive = mod_peer_timer p p.send_keepalive (sec_to_units keepalive_timeout);
    }
    else p

-- `TimersAnyAuthenticatedPacketSent` and `TimersAnyAuthenticatedPacketReceived`.
unfoldable pub packet_sent : Peer → Peer
packet_sent p = record p { send_keepalive = timer_delete p.send_keepalive }

unfoldable pub packet_received : Peer → Peer
packet_received p = record p { new_handshake = timer_delete p.new_handshake }

-- `TimersHandshakeInitiated`.
unfoldable pub handshake_initiated : Peer → ℕ → Peer
handshake_initiated p jitter = record p {
  retransmit_handshake =
      mod_peer_timer p p.retransmit_handshake (sec_to_units rekey_timeout + jitter);
}

-- `TimersHandshakeComplete`.
unfoldable pub handshake_complete : Peer → Peer
handshake_complete p = record p {
  retransmit_handshake = timer_delete p.retransmit_handshake;
  attempts = 0;
  sent_lastminute_handshake = false;
}

-- `TimersSessionDerived`.
unfoldable pub session_derived : Peer → Peer
session_derived p = record p {
  zero_key_material = mod_peer_timer p p.zero_key_material (sec_to_units (reject_after_time * 3));
}

-- `TimersAnyAuthenticatedPacketTraversal`.
unfoldable pub packet_traversal : Peer → Peer
packet_traversal p = if p.keepalive_interval == 0 then p else record p {
  persistent_keepalive =
      mod_peer_timer p p.persistent_keepalive (sec_to_units p.keepalive_interval);
}

-- `TimersInit`, on the fields that it sets.
unfoldable pub timers_init : Peer → Peer
timers_init p = record p {
  retransmit_handshake = stopped;
  send_keepalive = stopped;
  new_handshake = stopped;
  zero_key_material = stopped;
  persistent_keepalive = stopped;
  attempts = 0;
  sent_lastminute_handshake = false;
  need_another_keepalive = false;
}

-- `TimersStop`.
unfoldable pub timers_stop : Peer → Peer
timers_stop p = record p {
  retransmit_handshake = timer_delete p.retransmit_handshake;
  send_keepalive = timer_delete p.send_keepalive;
  new_handshake = timer_delete p.new_handshake;
  zero_key_material = timer_delete p.zero_key_material;
  persistent_keepalive = timer_delete p.persistent_keepalive;
}

-- What happens to a peer, as its timers see it.
pub data Event : Type 0 where
  retransmit_fires keepalive_fires new_handshake_fires zero_fires persistent_fires : Event
  sends_data initiates : ℕ → Event
  receives_data sends receives completes derives traverses stops initiation_wanted : Event

-- `TimerDpcCallback`.
abbrev pub fired : Timer → Timer
fired t = record { pending = false; expires = t.expires }

unfoldable pub step : Peer → Event → Peer × List Effect
step p retransmit_fires =
    expired_retransmit_handshake (record p { retransmit_handshake = fired p.retransmit_handshake })
step p keepalive_fires =
    expired_send_keepalive (record p { send_keepalive = fired p.send_keepalive })
step p new_handshake_fires =
    expired_new_handshake (record p { new_handshake = fired p.new_handshake })
step p zero_fires =
    expired_zero_key_material (record p { zero_key_material = fired p.zero_key_material })
step p persistent_fires =
    expired_persistent_keepalive (record p { persistent_keepalive = fired p.persistent_keepalive })
step p (sends_data jitter) = (data_sent p jitter, [])
step p (initiates jitter) = (handshake_initiated p jitter, [])
step p receives_data = (data_received p, [])
step p sends = (packet_sent p, [])
step p receives = (packet_received p, [])
step p completes = (handshake_complete p, [])
step p derives = (session_derived p, [])
step p traverses = (packet_traversal p, [])
step p stops = (timers_stop p, [])
step p initiation_wanted = (queue_initiation p false, queued_initiation false ∷ [])

abbrev pub run : Peer → List Event → Peer
run p [] = p
run p (e ∷ es) = run (step p e).0 es
