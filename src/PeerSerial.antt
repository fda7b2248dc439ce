-- ===== src/PeerSerial.antt =====
-- driver/queueing.h: the queue of peers that have work, of which each is worked on by one thread at
-- a time; driver/send.c: the threads of the handshake queue.
-- The chain of links from `First` to `BUSY_LINK` is a list; an item's link is null or not (`busy`).
-- The queue's lock makes each of its operations one step. A thread's moments between them are steps
-- of a system with any number of threads.
pub mod Progress
mod Tests
use amneziawg_nt.Base.{
  ℕ, suc, ltb, Bool, true, false, ◌||◌, Option, none, some, List, [], ◌∷◌, ◌++◌, ◌==◌, count,
  if◌then◌else◌,
}

-- `PEER_SERIAL`, and `Next` and `Requeue` of each `PEER_SERIAL_ENTRY`.
pub record Serial : Type 0 where
  pub queue : List ℕ
  pub busy : ℕ → Bool
  pub requeue : ℕ → Bool

abbrev pub set_flag : (ℕ → Bool) → ℕ → Bool → ℕ → Bool
set_flag f i v j = if j == i then v else f j

-- `PeerSerialInit`.
abbrev pub serial_init : Serial
serial_init = record { queue = []; busy = λ i. false; requeue = λ i. false }

-- `PeerSerialEnqueueIfNotBusy`.
unfoldable pub enqueue_if_not_busy : Serial → ℕ → Bool → Bool × Serial
enqueue_if_not_busy s i maybe_requeue =
    if s.busy i
    then (false, if maybe_requeue then record s { requeue = set_flag s.requeue i true } else s)
    else (true, record s { queue = s.queue ++ i ∷ []; busy = set_flag s.busy i true })

-- `PeerSerialMaybeRetire`.
unfoldable pub maybe_retire : Serial → ℕ → Bool → Bool × Serial
maybe_retire s i force_more =
    let s' = record s { requeue = set_flag s.requeue i false } in
    if s.requeue i || force_more
    then (true, record s' { queue = s.queue ++ i ∷ []; busy = set_flag s.busy i true })
    else (false, record s' { busy = set_flag s.busy i false })

abbrev pub dequeue_from : Serial → List ℕ → Option ℕ × Serial
dequeue_from s [] = (none, s)
dequeue_from s (i ∷ rest) = (some i, record s { queue = rest })

-- `PeerSerialDequeue`.
unfoldable pub dequeue : Serial → Option ℕ × Serial
dequeue s = dequeue_from s s.queue

-- `HANDSHAKE_TX_ACTION`.
pub data Action : Type 0 where
  tx_none tx_clear tx_send : Action

-- The handshake queue and the threads on it: each peer's `HandshakeTxAction`; the peers whose action
-- a caller has written and not yet queued; the peers that a worker has dequeued; those whose action
-- it has then taken; and the actions taken, the newest first.
pub record Workers : Type 0 where
  pub serial : Serial
  pub action : ℕ → Action
  pub wanted : List ℕ
  pub dequeued : List ℕ
  pub taken : List ℕ
  pub performed : List (ℕ × Action)

abbrev pub workers_init : Workers
workers_init = record {
  serial = serial_init;
  action = λ i. tx_none;
  wanted = [];
  dequeued = [];
  taken = [];
  performed = [];
}

abbrev pub set_action : (ℕ → Action) → ℕ → Action → ℕ → Action
set_action f i a j = if j == i then a else f j

abbrev pub remove_once : ℕ → List ℕ → List ℕ
remove_once i [] = []
remove_once i (x ∷ xs) = if i == x then xs else x ∷ remove_once i xs

abbrev pub perform : ℕ → Action → List (ℕ × Action) → List (ℕ × Action)
perform i tx_none done = done
perform i a done = (i, a) ∷ done

-- The steps: of `PacketSendQueuedHandshakeInitiation` (or of the timer that clears), which writes the
-- action and then queues the peer; and of `PacketHandshakeTxWorker`, which dequeues a peer, exchanges
-- its action for none, acts, and retires it.
pub data Step : Type 0 where
  ask_clear ask_send : ℕ → Step
  queue_up : ℕ → Step
  take_next : Step
  exchange : ℕ → Step
  retire : ℕ → Step

abbrev pub after_dequeue : Workers → Option ℕ × Serial → Workers
after_dequeue w (none, s) = w
after_dequeue w (some i, s) = record w { serial = s; dequeued = i ∷ w.dequeued }

-- `WriteNoFence16` of the action; one that no worker has taken yet is lost.
abbrev pub write_action : Workers → ℕ → Action → Workers
write_action w i a = record w { action = set_action w.action i a; wanted = i ∷ w.wanted }

-- A step of a thread that is not at that point is none.
unfoldable pub worker_step : Workers → Step → Workers
worker_step w (ask_clear i) = write_action w i tx_clear
worker_step w (ask_send i) = write_action w i tx_send
worker_step w (queue_up i) =
    if ltb 0 (count i w.wanted)
    then record w {
      serial = (enqueue_if_not_busy w.serial i true).1;
      wanted = remove_once i w.wanted;
    }
    else w
worker_step w take_next = after_dequeue w (dequeue w.serial)
worker_step w (exchange i) =
    if ltb 0 (count i w.dequeued)
    then record w {
      action = set_action w.action i tx_none;
      dequeued = remove_once i w.dequeued;
      taken = i ∷ w.taken;
      performed = perform i (w.action i) w.performed;
    }
    else w
worker_step w (retire i) =
    if ltb 0 (count i w.taken)
    then record w { serial = (maybe_retire w.serial i false).1; taken = remove_once i w.taken }
    else w

unfoldable pub worker_run : Workers → List Step → Workers
worker_run w [] = w
worker_run w (e ∷ es) = worker_run (worker_step w e) es
