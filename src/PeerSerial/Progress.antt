-- ===== src/PeerSerial/Progress.antt =====
-- driver/queueing.h, driver/send.c: what holds of the handshake queue while its threads run.
use amneziawg_nt.Base.{
  ltb, Bool-cases, inl, inr, sym, ◌∙◌, ==_iff, ap, ℕ, ◌+◌, ◌≤◌, ◌<◌, Bool, true, false, List, [],
  ◌∷◌, ◌++◌, ◌≡◌, refl, arith, ◌==◌, count, if◌then◌else◌,
}
use amneziawg_nt.PeerSerial.{
  Workers, Action, tx_none, tx_clear, tx_send, Step, ask_clear, ask_send, queue_up, take_next,
  exchange, retire, remove_once, workers_init, enqueue_if_not_busy, maybe_retire, dequeue_from,
  dequeue, after_dequeue, perform, write_action, worker_step, worker_run,
}

abbrev pub as_number : Bool → ℕ
as_number true = 1
as_number false = 0

abbrev pub asked : Action → ℕ
asked tx_none = 0
asked _ = 1

-- For a peer: its item is busy while it stands in the queue or with a worker, at one place; a
-- request to queue it again is for a busy item; and an action not yet taken has a thread that will
-- come to it.
pub record Inv (w : Workers) (i : ℕ) : Type 0 where
  pub one_place :
      count i w.serial.queue + count i w.dequeued + count i w.taken ≡ as_number (w.serial.busy i)
  pub requeue_busy : as_number (w.serial.requeue i) ≤ as_number (w.serial.busy i)
  pub cared_for :
      asked (w.action i)
      ≤ count i w.wanted
        + count i w.serial.queue
        + count i w.dequeued
        + as_number (w.serial.requeue i)

count-++ : (i j : ℕ) (xs : List ℕ) → count i (xs ++ j ∷ []) ≡ count i xs + (if i == j then 1 else 0)
count-++ i j [] = ground arith
count-++ i j (x ∷ xs) = ground (arith, count-++ i j xs)

count-remove_once :
    (i j : ℕ) (xs : List ℕ)
    → 0 < count j xs
    → count i (remove_once j xs) + (if i == j then 1 else 0) ≡ count i xs
count-remove_once i j [] h = absurd (omega arith)
count-remove_once i j (x ∷ xs) h = ground (arith, count-remove_once i j xs)

ask-Inv : (w : Workers) (j : ℕ) (a : Action) (i : ℕ) → Inv w i → Inv (write_action w j a) i
ask-Inv w j a i inv = ground arith

queue-up-Inv : (w : Workers) (j i : ℕ) → Inv w i → Inv (worker_step w (queue_up j)) i
unfolding worker_step enqueue_if_not_busy
queue-up-Inv w j i inv = ground (arith, count-++ i j w.serial.queue, count-remove_once i j w.wanted)

exchange-Inv : (w : Workers) (j i : ℕ) → Inv w i → Inv (worker_step w (exchange j)) i
unfolding worker_step
exchange-Inv w j i inv = ground (arith, count-remove_once i j w.dequeued)

retire-Inv : (w : Workers) (j i : ℕ) → Inv w i → Inv w j → Inv (worker_step w (retire j)) i
unfolding worker_step maybe_retire
retire-Inv w j i inv own =
    ground (arith, count-++ i j w.serial.queue, count-remove_once i j w.taken)

dequeue-Inv :
    (w : Workers) (i : ℕ) (q : List ℕ)
    → w.serial.queue ≡ q
    → Inv w i
    → Inv (after_dequeue w (dequeue_from w.serial q)) i
dequeue-Inv w i [] e inv = inv
dequeue-Inv w i (x ∷ q) e inv =
    let size : count i w.serial.queue ≡ count i (x ∷ q) = ap (count i) e in ground (arith, size)

step-Inv : (w : Workers) (e : Step) → ((i : ℕ) → Inv w i) → (i : ℕ) → Inv (worker_step w e) i
unfolding worker_step dequeue
step-Inv w (ask_clear j) inv i = ask-Inv w j tx_clear i (inv i)
step-Inv w (ask_send j) inv i = ask-Inv w j tx_send i (inv i)
step-Inv w (queue_up j) inv i = queue-up-Inv w j i (inv i)
step-Inv w take_next inv i = dequeue-Inv w i w.serial.queue refl (inv i)
step-Inv w (exchange j) inv i = exchange-Inv w j i (inv i)
step-Inv w (retire j) inv i = retire-Inv w j i (inv i) (inv j)

init-Inv : (i : ℕ) → Inv workers_init i
init-Inv i = ground arith

run-Inv : (es : List Step) (w : Workers) → ((i : ℕ) → Inv w i) → (i : ℕ) → Inv (worker_run w es) i
unfolding worker_run
run-Inv [] w inv i = inv i
run-Inv (e ∷ es) w inv i = run-Inv es (worker_step w e) (step-Inv w e inv) i

-- However the threads' steps mix, a peer is at one place at most: once in the queue, or with one
-- worker.
pub run-one-place :
    (es : List Step) (i : ℕ)
    → count i (worker_run workers_init es).serial.queue
        + count i (worker_run workers_init es).dequeued
        + count i (worker_run workers_init es).taken
      ≤ 1
run-one-place es i =
    let inv : Inv (worker_run workers_init es) i = run-Inv es workers_init init-Inv i in
    go ((worker_run workers_init es).serial.busy i) inv.one_place
  where
    go : {n : ℕ} (b : Bool) → n ≡ as_number b → n ≤ 1
    go true e = omega (arith, e)
    go false e = omega (arith, e)

asked-none : (a : Action) → asked a ≤ 0 → a ≡ tx_none
asked-none tx_none h = refl
asked-none tx_clear h = absurd (omega arith)
asked-none tx_send h = absurd (omega arith)

-- The action last performed for a peer, and the one last asked for, after those asked for before.
abbrev pub last_performed : ℕ → List (ℕ × Action) → Action
last_performed i [] = tx_none
last_performed i ((j, a) ∷ done) = if i == j then a else last_performed i done

abbrev pub last_asked : ℕ → Action → List Step → Action
last_asked i a [] = a
last_asked i a (ask_clear j ∷ es) =
    let new = last_asked i tx_clear es in let old = last_asked i a es in if i == j then new else old
last_asked i a (ask_send j ∷ es) =
    let new = last_asked i tx_send es in let old = last_asked i a es in if i == j then new else old
last_asked i a (_ ∷ es) = last_asked i a es

-- The action last asked for is the one still to be taken, or else the one last performed.
abbrev pending_or : Action → Action → Action
pending_or tx_none done = done
pending_or tx_clear done = tx_clear
pending_or tx_send done = tx_send

abbrev latest : Workers → ℕ → Action
latest w i = pending_or (w.action i) (last_performed i w.performed)

perform-latest :
    (i : ℕ) (a : Action) (done : List (ℕ × Action))
    → last_performed i (perform i a done) ≡ pending_or a (last_performed i done)
perform-latest i tx_none done = refl
perform-latest i tx_clear done = ground arith
perform-latest i tx_send done = ground arith

perform-other :
    (i j : ℕ) (a : Action) (done : List (ℕ × Action))
    → (i == j) ≡ false
    → last_performed i (perform j a done) ≡ last_performed i done
perform-other i j tx_none done e = refl
perform-other i j tx_clear done e = rw e refl
perform-other i j tx_send done e = rw e refl

write-latest :
    (w : Workers) (j : ℕ) (a : Action) (i : ℕ)
    → latest (write_action w j a) i
      ≡ (if i == j then pending_or a (last_performed i w.performed) else latest w i)
write-latest w j a i = elim (Bool-cases (i == j)) [ inl e ↦ rw e refl | inr e ↦ rw e refl ]

taken-latest :
    (w : Workers) (j i : ℕ)
    → pending_or
        (if i == j then tx_none else w.action i)
        (last_performed i (perform j (w.action j) w.performed))
      ≡ latest w i
taken-latest w j i = elim (Bool-cases (i == j)) [
  | inl e ↦ rw e (
      ap (λ k. last_performed i (perform k (w.action k) w.performed)) (sym ((==_iff i j).0 e))
      ∙ perform-latest i (w.action i) w.performed)
  | inr e ↦ rw e (ap (pending_or (w.action i)) (perform-other i j (w.action j) w.performed e))
]

dequeue-latest :
    (w : Workers) (i : ℕ) (q : List ℕ)
    → latest (after_dequeue w (dequeue_from w.serial q)) i ≡ latest w i
dequeue-latest w i [] = refl
dequeue-latest w i (x ∷ q) = refl

step-latest :
    (w : Workers) (e : Step) (i : ℕ)
    → latest (worker_step w e) i ≡ last_asked i (latest w i) (e ∷ [])
unfolding worker_step dequeue
step-latest w (ask_clear j) i = write-latest w j tx_clear i
step-latest w (ask_send j) i = write-latest w j tx_send i
step-latest w (queue_up j) i = elim (Bool-cases (ltb 0 (count j w.wanted))) [
  | inl e ↦ rw e refl
  | inr e ↦ rw e refl
]
step-latest w take_next i = dequeue-latest w i w.serial.queue
step-latest w (exchange j) i = elim (Bool-cases (ltb 0 (count j w.dequeued))) [
  | inl e ↦ rw e (taken-latest w j i)
  | inr e ↦ rw e refl
]
step-latest w (retire j) i = elim (Bool-cases (ltb 0 (count j w.taken))) [
  | inl e ↦ rw e refl
  | inr e ↦ rw e refl
]

last-asked-cons :
    (i : ℕ) (a : Action) (e : Step) (es : List Step)
    → last_asked i (last_asked i a (e ∷ [])) es ≡ last_asked i a (e ∷ es)
last-asked-cons i a (ask_clear j) es = elim (Bool-cases (i == j)) [
  | inl e ↦ rw e refl
  | inr e ↦ rw e refl
]
last-asked-cons i a (ask_send j) es = elim (Bool-cases (i == j)) [
  | inl e ↦ rw e refl
  | inr e ↦ rw e refl
]
last-asked-cons i a (queue_up j) es = refl
last-asked-cons i a take_next es = refl
last-asked-cons i a (exchange j) es = refl
last-asked-cons i a (retire j) es = refl

run-latest :
    (es : List Step) (w : Workers) (i : ℕ)
    → latest (worker_run w es) i ≡ last_asked i (latest w i) es
unfolding worker_run
run-latest [] w i = refl
run-latest (e ∷ es) w i =
    run-latest es (worker_step w e) i
    ∙ ap (λ a. last_asked i a es) (step-latest w e i)
    ∙ last-asked-cons i (latest w i) e es

idle-none :
    (es : List Step) (i : ℕ)
    → (worker_run workers_init es).wanted ≡ []
    → (worker_run workers_init es).serial.queue ≡ []
    → (worker_run workers_init es).dequeued ≡ []
    → (worker_run workers_init es).taken ≡ []
    → (worker_run workers_init es).action i ≡ tx_none
idle-none es i ew eq ed et =
    let w : Workers = worker_run workers_init es in
    let inv : Inv w i = run-Inv es workers_init init-Inv i in
    asked-none (w.action i) (
      omega (
        arith,
        inv.one_place,
        inv.requeue_busy,
        inv.cared_for,
        ap (count i) ew,
        ap (count i) eq,
        ap (count i) ed,
        ap (count i) et,
      ))

-- However the threads' steps mix: when no caller has an action still to queue, the queue is empty
-- and no worker has a peer, then the action that a worker last performed for a peer is the one last
-- asked for (none, if none was). An action that another one overwrites before a worker takes it is
-- not performed.
pub run-nothing-lost :
    (es : List Step) (i : ℕ)
    → (worker_run workers_init es).wanted ≡ []
    → (worker_run workers_init es).serial.queue ≡ []
    → (worker_run workers_init es).dequeued ≡ []
    → (worker_run workers_init es).taken ≡ []
    → last_performed i (worker_run workers_init es).performed ≡ last_asked i tx_none es
run-nothing-lost es i ew eq ed et =
    let w : Workers = worker_run workers_init es in
    ap (λ a. pending_or a (last_performed i w.performed)) (sym (idle-none es i ew eq ed et))
    ∙ run-latest es workers_init i
