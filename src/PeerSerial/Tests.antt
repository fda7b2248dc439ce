-- ===== src/PeerSerial/Tests.antt =====
-- Threads that ask for a peer's handshake while a worker is on it.
use amneziawg_nt.Base.{◌+◌, ◌≤◌, List, [], ◌∷◌, ◌≡◌, refl, count}
use amneziawg_nt.PeerSerial.{
  Step, ask_clear, ask_send, queue_up, take_next, exchange, retire, tx_none, tx_clear, tx_send,
  workers_init, worker_run, worker_step, enqueue_if_not_busy, maybe_retire, dequeue,
}
use amneziawg_nt.PeerSerial.Progress.{last_performed, last_asked, run-one-place, run-nothing-lost}

-- The second request comes when the worker has taken the first one's action.
abbrev two_requests : List Step
two_requests =
    ask_send 4
    ∷ queue_up 4
    ∷ take_next
    ∷ exchange 4
    ∷ ask_clear 4
    ∷ queue_up 4
    ∷ retire 4
    ∷ take_next
    ∷ exchange 4
    ∷ retire 4
    ∷ []

both-performed :
    (worker_run workers_init two_requests).performed ≡ (4, tx_clear) ∷ (4, tx_send) ∷ []
unfolding worker_run worker_step enqueue_if_not_busy maybe_retire dequeue
both-performed = refl

run-one-place_example :
    count 4 (worker_run workers_init two_requests).serial.queue
      + count 4 (worker_run workers_init two_requests).dequeued
      + count 4 (worker_run workers_init two_requests).taken
    ≤ 1
run-one-place_example = run-one-place two_requests 4

run-nothing-lost_example :
    last_performed 4 (worker_run workers_init two_requests).performed
    ≡ last_asked 4 tx_none two_requests
unfolding worker_run worker_step enqueue_if_not_busy maybe_retire dequeue
run-nothing-lost_example = run-nothing-lost two_requests 4 refl refl refl refl
