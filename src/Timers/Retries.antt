-- ===== src/Timers/Retries.antt =====
-- How often a handshake is retried.
use amneziawg_nt.Base.{ℕ, suc, ◌+◌, ◌≤◌, ◌≡◌, true, false, List, [], ◌∷◌, arith}
use amneziawg_nt.Timers.{
  Peer, Effect, purge_staged_packets, clear_endpoint_src, keepalive, clear_keys, queued_initiation,
  max_timer_handshakes, queue_initiation, expired_retransmit_handshake, expired_send_keepalive,
  expired_new_handshake, expired_zero_key_material, expired_persistent_keepalive, data_sent,
  data_received, packet_sent, packet_received, handshake_initiated, handshake_complete,
  session_derived, packet_traversal, timers_init, timers_stop, Event, retransmit_fires,
  keepalive_fires, new_handshake_fires, zero_fires, persistent_fires, sends_data, initiates,
  receives_data, sends, receives, completes, derives, traverses, stops, initiation_wanted, step,
  run,
}

-- The retries among the effects.
abbrev pub retries_in : List Effect → ℕ
retries_in [] = 0
retries_in (queued_initiation true ∷ es) = suc (retries_in es)
retries_in (queued_initiation false ∷ es) = retries_in es
retries_in (purge_staged_packets ∷ es) = retries_in es
retries_in (clear_endpoint_src ∷ es) = retries_in es
retries_in (keepalive ∷ es) = retries_in es
retries_in (clear_keys ∷ es) = retries_in es

abbrev pub retries : Peer → List Event → ℕ
retries p [] = 0
retries p (e ∷ es) = retries_in (step p e).1 + retries (step p e).0 es

-- No handshake completes, and none is wanted anew.
abbrev pub NoneRestarts : List Event → Type 0
NoneRestarts [] = Unit {0}
NoneRestarts (completes ∷ es) = ⊥
NoneRestarts (new_handshake_fires ∷ es) = ⊥
NoneRestarts (initiation_wanted ∷ es) = ⊥
NoneRestarts (retransmit_fires ∷ es) = NoneRestarts es
NoneRestarts (keepalive_fires ∷ es) = NoneRestarts es
NoneRestarts (zero_fires ∷ es) = NoneRestarts es
NoneRestarts (persistent_fires ∷ es) = NoneRestarts es
NoneRestarts (sends_data jitter ∷ es) = NoneRestarts es
NoneRestarts (initiates jitter ∷ es) = NoneRestarts es
NoneRestarts (receives_data ∷ es) = NoneRestarts es
NoneRestarts (sends ∷ es) = NoneRestarts es
NoneRestarts (receives ∷ es) = NoneRestarts es
NoneRestarts (derives ∷ es) = NoneRestarts es
NoneRestarts (traverses ∷ es) = NoneRestarts es
NoneRestarts (stops ∷ es) = NoneRestarts es

-- An event that restarts nothing counts its retry.
abbrev Counted : Peer → Event → Type 0
Counted p e =
    (retries_in (step p e).1 + p.attempts ≡ (step p e).0.attempts)
    × (p.attempts ≤ suc max_timer_handshakes → (step p e).0.attempts ≤ suc max_timer_handshakes)

retransmit-Counted : (p : Peer) → Counted p retransmit_fires
unfolding step expired_retransmit_handshake queue_initiation
retransmit-Counted p = (ground arith, λ h. ground arith)

keepalive-Counted : (p : Peer) → Counted p keepalive_fires
unfolding step expired_send_keepalive
keepalive-Counted p = (ground arith, λ h. ground arith)

zero-Counted : (p : Peer) → Counted p zero_fires
unfolding step expired_zero_key_material
zero-Counted p = (ground arith, λ h. ground arith)

persistent-Counted : (p : Peer) → Counted p persistent_fires
unfolding step expired_persistent_keepalive
persistent-Counted p = (ground arith, λ h. ground arith)

sends_data-Counted : (p : Peer) (jitter : ℕ) → Counted p (sends_data jitter)
unfolding step data_sent
sends_data-Counted p jitter = (ground arith, λ h. ground arith)

initiates-Counted : (p : Peer) (jitter : ℕ) → Counted p (initiates jitter)
unfolding step handshake_initiated
initiates-Counted p jitter = (omega arith, λ h. h)

receives_data-Counted : (p : Peer) → Counted p receives_data
unfolding step data_received
receives_data-Counted p = (ground arith, λ h. ground arith)

sends-Counted : (p : Peer) → Counted p sends
unfolding step packet_sent
sends-Counted p = (omega arith, λ h. h)

receives-Counted : (p : Peer) → Counted p receives
unfolding step packet_received
receives-Counted p = (omega arith, λ h. h)

derives-Counted : (p : Peer) → Counted p derives
unfolding step session_derived
derives-Counted p = (omega arith, λ h. h)

traverses-Counted : (p : Peer) → Counted p traverses
unfolding step packet_traversal
traverses-Counted p = (ground arith, λ h. ground arith)

stops-Counted : (p : Peer) → Counted p stops
unfolding step timers_stop
stops-Counted p = (omega arith, λ h. h)

-- A counted step before a counted rest.
joined :
    (now later before after : ℕ)
    → (now + before ≡ after)
      × (before ≤ suc max_timer_handshakes → after ≤ suc max_timer_handshakes)
    → before ≤ suc max_timer_handshakes
    → (after ≤ suc max_timer_handshakes → later + after ≤ suc max_timer_handshakes)
    → now + later + before ≤ suc max_timer_handshakes
joined now later before after (e, keeps) le rest = omega (arith, rest (keeps le))

run-counted :
    (p : Peer) (es : List Event)
    → NoneRestarts es
    → p.attempts ≤ suc max_timer_handshakes
    → retries p es + p.attempts ≤ suc max_timer_handshakes
run-counted p [] calm le = omega arith
run-counted p (retransmit_fires ∷ es) calm le =
    joined _ _ _ _ (retransmit-Counted p) le
      (λ le'. run-counted (step p retransmit_fires).0 es calm le')
run-counted p (keepalive_fires ∷ es) calm le =
    joined _ _ _ _ (keepalive-Counted p) le
      (λ le'. run-counted (step p keepalive_fires).0 es calm le')
run-counted p (zero_fires ∷ es) calm le =
    joined _ _ _ _ (zero-Counted p) le (λ le'. run-counted (step p zero_fires).0 es calm le')
run-counted p (persistent_fires ∷ es) calm le =
    joined _ _ _ _ (persistent-Counted p) le
      (λ le'. run-counted (step p persistent_fires).0 es calm le')
run-counted p (sends_data jitter ∷ es) calm le =
    joined _ _ _ _ (sends_data-Counted p jitter) le
      (λ le'. run-counted (step p (sends_data jitter)).0 es calm le')
run-counted p (initiates jitter ∷ es) calm le =
    joined _ _ _ _ (initiates-Counted p jitter) le
      (λ le'. run-counted (step p (initiates jitter)).0 es calm le')
run-counted p (receives_data ∷ es) calm le =
    joined _ _ _ _ (receives_data-Counted p) le
      (λ le'. run-counted (step p receives_data).0 es calm le')
run-counted p (sends ∷ es) calm le =
    joined _ _ _ _ (sends-Counted p) le (λ le'. run-counted (step p sends).0 es calm le')
run-counted p (receives ∷ es) calm le =
    joined _ _ _ _ (receives-Counted p) le (λ le'. run-counted (step p receives).0 es calm le')
run-counted p (derives ∷ es) calm le =
    joined _ _ _ _ (derives-Counted p) le (λ le'. run-counted (step p derives).0 es calm le')
run-counted p (traverses ∷ es) calm le =
    joined _ _ _ _ (traverses-Counted p) le (λ le'. run-counted (step p traverses).0 es calm le')
run-counted p (stops ∷ es) calm le =
    joined _ _ _ _ (stops-Counted p) le (λ le'. run-counted (step p stops).0 es calm le')
run-counted p (completes ∷ es) calm le = absurd calm
run-counted p (new_handshake_fires ∷ es) calm le = absurd calm
run-counted p (initiation_wanted ∷ es) calm le = absurd calm

-- The count of attempts stays within the limit and one.
step-attempts :
    (p : Peer) (e : Event)
    → p.attempts ≤ suc max_timer_handshakes
    → (step p e).0.attempts ≤ suc max_timer_handshakes
step-attempts p retransmit_fires le = (retransmit-Counted p).1 le
step-attempts p keepalive_fires le = (keepalive-Counted p).1 le
step-attempts p zero_fires le = (zero-Counted p).1 le
step-attempts p persistent_fires le = (persistent-Counted p).1 le
step-attempts p (sends_data jitter) le = (sends_data-Counted p jitter).1 le
step-attempts p (initiates jitter) le = (initiates-Counted p jitter).1 le
step-attempts p receives_data le = (receives_data-Counted p).1 le
step-attempts p sends le = (sends-Counted p).1 le
step-attempts p receives le = (receives-Counted p).1 le
step-attempts p derives le = (derives-Counted p).1 le
step-attempts p traverses le = (traverses-Counted p).1 le
step-attempts p stops le = (stops-Counted p).1 le
step-attempts p completes le = unfold step handshake_complete in omega arith
step-attempts p new_handshake_fires le =
    unfold step expired_new_handshake queue_initiation in omega arith
step-attempts p initiation_wanted le = unfold step queue_initiation in omega arith

run-attempts :
    (p : Peer) (es : List Event)
    → p.attempts ≤ suc max_timer_handshakes
    → (run p es).attempts ≤ suc max_timer_handshakes
run-attempts p [] le = le
run-attempts p (e ∷ es) le = run-attempts (step p e).0 es (step-attempts p e le)

-- Whatever happened to a peer since its timers were set up: as long as no handshake completes and
-- none is wanted anew, a handshake is retried at most nineteen times.
pub retries-bound :
    (p : Peer) (before es : List Event)
    → NoneRestarts es
    → retries (run (timers_init p) before) es ≤ 19
retries-bound p before es calm = omega (
  arith,
  run-counted (run (timers_init p) before) es calm
      (run-attempts (timers_init p) before (unfold timers_init in omega arith)),
)
