-- ===== src/Timers/Down.antt =====
-- The timers of a peer that is stopped stay stopped.
use amneziawg_nt.Base.{ℕ, ◌≡◌, refl, false, ◌&&◌, List, [], ◌∷◌, arith}
use amneziawg_nt.Timers.{
  mod_peer_timer, Peer, queue_initiation, expired_retransmit_handshake, expired_send_keepalive,
  expired_new_handshake, expired_zero_key_material, expired_persistent_keepalive, data_sent,
  data_received, packet_sent, packet_received, handshake_initiated, handshake_complete,
  session_derived, packet_traversal, timers_stop, Event, retransmit_fires, keepalive_fires,
  new_handshake_fires, zero_fires, persistent_fires, sends_data, initiates, receives_data, sends,
  receives, completes, derives, traverses, stops, initiation_wanted, step, run,
}

-- The device is down or the peer is going away, and no timer is pending.
pub record IsQuiet (p : Peer) : Type 0 where
  pub down : (p.is_up && p.in_use) ≡ false
  pub no_retransmit : p.retransmit_handshake.pending ≡ false
  pub no_keepalive : p.send_keepalive.pending ≡ false
  pub no_handshake : p.new_handshake.pending ≡ false
  pub no_zero : p.zero_key_material.pending ≡ false
  pub no_persistent : p.persistent_keepalive.pending ≡ false

retransmit-IsQuiet : (p : Peer) → IsQuiet p → IsQuiet (step p retransmit_fires).0
unfolding step expired_retransmit_handshake queue_initiation mod_peer_timer
retransmit-IsQuiet p h = record {
  down = ground (arith, h.down);
  no_retransmit = ground (arith, h.down, h.no_retransmit);
  no_keepalive = ground (arith, h.down, h.no_keepalive);
  no_handshake = ground (arith, h.down, h.no_handshake);
  no_zero = ground (arith, h.down, h.no_zero);
  no_persistent = ground (arith, h.down, h.no_persistent);
}

keepalive-IsQuiet : (p : Peer) → IsQuiet p → IsQuiet (step p keepalive_fires).0
unfolding step expired_send_keepalive mod_peer_timer
keepalive-IsQuiet p h = record {
  down = ground (arith, h.down);
  no_retransmit = ground (arith, h.down, h.no_retransmit);
  no_keepalive = ground (arith, h.down, h.no_keepalive);
  no_handshake = ground (arith, h.down, h.no_handshake);
  no_zero = ground (arith, h.down, h.no_zero);
  no_persistent = ground (arith, h.down, h.no_persistent);
}

new_handshake-IsQuiet : (p : Peer) → IsQuiet p → IsQuiet (step p new_handshake_fires).0
unfolding step expired_new_handshake queue_initiation mod_peer_timer
new_handshake-IsQuiet p h = record {
  down = ground (arith, h.down);
  no_retransmit = ground (arith, h.down, h.no_retransmit);
  no_keepalive = ground (arith, h.down, h.no_keepalive);
  no_handshake = ground (arith, h.down, h.no_handshake);
  no_zero = ground (arith, h.down, h.no_zero);
  no_persistent = ground (arith, h.down, h.no_persistent);
}

zero-IsQuiet : (p : Peer) → IsQuiet p → IsQuiet (step p zero_fires).0
unfolding step expired_zero_key_material mod_peer_timer
zero-IsQuiet p h = record {
  down = ground (arith, h.down);
  no_retransmit = ground (arith, h.down, h.no_retransmit);
  no_keepalive = ground (arith, h.down, h.no_keepalive);
  no_handshake = ground (arith, h.down, h.no_handshake);
  no_zero = ground (arith, h.down, h.no_zero);
  no_persistent = ground (arith, h.down, h.no_persistent);
}

persistent-IsQuiet : (p : Peer) → IsQuiet p → IsQuiet (step p persistent_fires).0
unfolding step expired_persistent_keepalive mod_peer_timer
persistent-IsQuiet p h = record {
  down = ground (arith, h.down);
  no_retransmit = ground (arith, h.down, h.no_retransmit);
  no_keepalive = ground (arith, h.down, h.no_keepalive);
  no_handshake = ground (arith, h.down, h.no_handshake);
  no_zero = ground (arith, h.down, h.no_zero);
  no_persistent = ground (arith, h.down, h.no_persistent);
}

sends_data-IsQuiet : (p : Peer) (jitter : ℕ) → IsQuiet p → IsQuiet (step p (sends_data jitter)).0
unfolding step data_sent mod_peer_timer
sends_data-IsQuiet p jitter h = record {
  down = ground (arith, h.down);
  no_retransmit = ground (arith, h.down, h.no_retransmit);
  no_keepalive = ground (arith, h.down, h.no_keepalive);
  no_handshake = ground (arith, h.down, h.no_handshake);
  no_zero = ground (arith, h.down, h.no_zero);
  no_persistent = ground (arith, h.down, h.no_persistent);
}

initiates-IsQuiet : (p : Peer) (jitter : ℕ) → IsQuiet p → IsQuiet (step p (initiates jitter)).0
unfolding step handshake_initiated mod_peer_timer
initiates-IsQuiet p jitter h = record {
  down = ground (arith, h.down);
  no_retransmit = ground (arith, h.down, h.no_retransmit);
  no_keepalive = ground (arith, h.down, h.no_keepalive);
  no_handshake = ground (arith, h.down, h.no_handshake);
  no_zero = ground (arith, h.down, h.no_zero);
  no_persistent = ground (arith, h.down, h.no_persistent);
}

receives_data-IsQuiet : (p : Peer) → IsQuiet p → IsQuiet (step p receives_data).0
unfolding step data_received mod_peer_timer
receives_data-IsQuiet p h = record {
  down = ground (arith, h.down);
  no_retransmit = ground (arith, h.down, h.no_retransmit);
  no_keepalive = ground (arith, h.down, h.no_keepalive);
  no_handshake = ground (arith, h.down, h.no_handshake);
  no_zero = ground (arith, h.down, h.no_zero);
  no_persistent = ground (arith, h.down, h.no_persistent);
}

sends-IsQuiet : (p : Peer) → IsQuiet p → IsQuiet (step p sends).0
unfolding step packet_sent mod_peer_timer
sends-IsQuiet p h = record {
  down = ground (arith, h.down);
  no_retransmit = ground (arith, h.down, h.no_retransmit);
  no_keepalive = ground (arith, h.down, h.no_keepalive);
  no_handshake = ground (arith, h.down, h.no_handshake);
  no_zero = ground (arith, h.down, h.no_zero);
  no_persistent = ground (arith, h.down, h.no_persistent);
}

receives-IsQuiet : (p : Peer) → IsQuiet p → IsQuiet (step p receives).0
unfolding step packet_received mod_peer_timer
receives-IsQuiet p h = record {
  down = ground (arith, h.down);
  no_retransmit = ground (arith, h.down, h.no_retransmit);
  no_keepalive = ground (arith, h.down, h.no_keepalive);
  no_handshake = ground (arith, h.down, h.no_handshake);
  no_zero = ground (arith, h.down, h.no_zero);
  no_persistent = ground (arith, h.down, h.no_persistent);
}

completes-IsQuiet : (p : Peer) → IsQuiet p → IsQuiet (step p completes).0
unfolding step handshake_complete mod_peer_timer
completes-IsQuiet p h = record {
  down = ground (arith, h.down);
  no_retransmit = ground (arith, h.down, h.no_retransmit);
  no_keepalive = ground (arith, h.down, h.no_keepalive);
  no_handshake = ground (arith, h.down, h.no_handshake);
  no_zero = ground (arith, h.down, h.no_zero);
  no_persistent = ground (arith, h.down, h.no_persistent);
}

derives-IsQuiet : (p : Peer) → IsQuiet p → IsQuiet (step p derives).0
unfolding step session_derived mod_peer_timer
derives-IsQuiet p h = record {
  down = ground (arith, h.down);
  no_retransmit = ground (arith, h.down, h.no_retransmit);
  no_keepalive = ground (arith, h.down, h.no_keepalive);
  no_handshake = ground (arith, h.down, h.no_handshake);
  no_zero = ground (arith, h.down, h.no_zero);
  no_persistent = ground (arith, h.down, h.no_persistent);
}

traverses-IsQuiet : (p : Peer) → IsQuiet p → IsQuiet (step p traverses).0
unfolding step packet_traversal mod_peer_timer
traverses-IsQuiet p h = record {
  down = ground (arith, h.down);
  no_retransmit = ground (arith, h.down, h.no_retransmit);
  no_keepalive = ground (arith, h.down, h.no_keepalive);
  no_handshake = ground (arith, h.down, h.no_handshake);
  no_zero = ground (arith, h.down, h.no_zero);
  no_persistent = ground (arith, h.down, h.no_persistent);
}

stops-IsQuiet : (p : Peer) → IsQuiet p → IsQuiet (step p stops).0
unfolding step timers_stop mod_peer_timer
stops-IsQuiet p h = record {
  down = ground (arith, h.down);
  no_retransmit = ground (arith, h.down, h.no_retransmit);
  no_keepalive = ground (arith, h.down, h.no_keepalive);
  no_handshake = ground (arith, h.down, h.no_handshake);
  no_zero = ground (arith, h.down, h.no_zero);
  no_persistent = ground (arith, h.down, h.no_persistent);
}

initiation_wanted-IsQuiet : (p : Peer) → IsQuiet p → IsQuiet (step p initiation_wanted).0
unfolding step queue_initiation mod_peer_timer
initiation_wanted-IsQuiet p h = record {
  down = ground (arith, h.down);
  no_retransmit = ground (arith, h.down, h.no_retransmit);
  no_keepalive = ground (arith, h.down, h.no_keepalive);
  no_handshake = ground (arith, h.down, h.no_handshake);
  no_zero = ground (arith, h.down, h.no_zero);
  no_persistent = ground (arith, h.down, h.no_persistent);
}

step-IsQuiet : (p : Peer) (e : Event) → IsQuiet p → IsQuiet (step p e).0
step-IsQuiet p retransmit_fires h = retransmit-IsQuiet p h
step-IsQuiet p keepalive_fires h = keepalive-IsQuiet p h
step-IsQuiet p new_handshake_fires h = new_handshake-IsQuiet p h
step-IsQuiet p zero_fires h = zero-IsQuiet p h
step-IsQuiet p persistent_fires h = persistent-IsQuiet p h
step-IsQuiet p (sends_data jitter) h = sends_data-IsQuiet p jitter h
step-IsQuiet p (initiates jitter) h = initiates-IsQuiet p jitter h
step-IsQuiet p receives_data h = receives_data-IsQuiet p h
step-IsQuiet p sends h = sends-IsQuiet p h
step-IsQuiet p receives h = receives-IsQuiet p h
step-IsQuiet p completes h = completes-IsQuiet p h
step-IsQuiet p derives h = derives-IsQuiet p h
step-IsQuiet p traverses h = traverses-IsQuiet p h
step-IsQuiet p stops h = stops-IsQuiet p h
step-IsQuiet p initiation_wanted h = initiation_wanted-IsQuiet p h

run-keeps : (p : Peer) (es : List Event) → IsQuiet p → IsQuiet (run p es)
run-keeps p [] h = h
run-keeps p (e ∷ es) h = run-keeps (step p e).0 es (step-IsQuiet p e h)

-- Once the timers of a peer are stopped while its device is down or the peer is going away, no timer
-- of it is pending after any events, timers that still fire included.
pub run-IsQuiet :
    (p : Peer) (es : List Event) → (p.is_up && p.in_use) ≡ false → IsQuiet (run (timers_stop p) es)
run-IsQuiet p es down = run-keeps (timers_stop p) es (
    unfold timers_stop in
    record {
      down = down;
      no_retransmit = refl;
      no_keepalive = refl;
      no_handshake = refl;
      no_zero = refl;
      no_persistent = refl;
    })
