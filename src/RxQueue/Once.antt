-- ===== src/RxQueue/Once.antt =====
-- driver/receive.c: no data packet is handed up twice.
use amneziawg_nt.Base.{
  ==_iff, ℕ, zero, suc, ◌≤◌, ◌∙◌, ◌==◌, Bool, true, false, ◌&&◌, List, [], ◌∷◌, ◌≡◌, refl, sym, ap,
  Bool-cases, inl, inr, arith, if◌then◌else◌,
}
use amneziawg_nt.Counter.{ReplayCounter, counter_validate}
use amneziawg_nt.Counter.Window.{contains, validate}
use amneziawg_nt.Counter.Refine.{Holds, Agrees, validate-Agrees, fresh-Holds}
use mathlib.Core.Path.{subst}
use amneziawg_nt.AllowedIps.Table.{Table}
use amneziawg_nt.RxQueue.{
  PacketState, crypted, dead, uncrypted, RxPacket, ReceivingKey, Delivered, Receiver, update,
  Verdict, keepalive, dishonest, honest, record_verdict, deliver, consume_packet, consume_data_done,
  is_uncrypted, packet_peer_rx_work, decrypt_at, RxEvent, arrive, decrypt_one, work, rx_step,
  rx_run, rx_init,
}

-- How often a nonce of a keypair was handed up.
abbrev pub times_delivered : ℕ → ℕ → List Delivered → ℕ
times_delivered k n [] = 0
times_delivered k n (d ∷ ds) =
    let rest = times_delivered k n ds in
    if d.packet.keypair == k && d.packet.nonce == n then suc rest else rest

-- Each keypair's counter holds nonces that have all those handed up, each once at most.
IsOnce : ReplayCounter → (ℕ → ℕ) → Type 0
IsOnce c times =
    (seen : List ℕ) × Holds c seen × ((n : ℕ) → times n ≤ (if contains seen n then 1 else 0))

abbrev AllOnce : (ℕ → ReplayCounter) → List Delivered → Type 0
AllOnce counters ds = (k : ℕ) → IsOnce (counters k) (λ n. times_delivered k n ds)

-- An answer of the counter, with one packet more handed up only if it is accepted.
validate-IsOnce :
    (c : ReplayCounter) (times times' : ℕ → ℕ) (nonce : ℕ)
    → IsOnce c times
    → ((n : ℕ)
        → times' n
          ≤ (if (counter_validate c nonce).0 && nonce == n then suc (times n) else times n))
    → IsOnce (counter_validate c nonce).1 times'
unfolding IsOnce Agrees validate contains
validate-IsOnce c times times' nonce (seen, h, once) more =
    let a = validate-Agrees c seen nonce h in
    ((validate seen nonce).1, a.1, (λ n. ground (arith, a.0, once n, more n)))

-- What a verdict leaves of the counters and adds to what is handed up.
verdict-counters :
    (r : Receiver) (p : RxPacket) (v : Verdict) → (record_verdict r p v).counters ≡ r.counters
verdict-counters r p keepalive = refl
verdict-counters r p dishonest = refl
verdict-counters r p (honest len) = refl

verdict-times :
    (r : Receiver) (p : RxPacket) (v : Verdict) (k n : ℕ)
    → times_delivered k n (record_verdict r p v).delivered ≤ (
        if p.keypair == k && p.nonce == n
        then suc (times_delivered k n r.delivered)
        else times_delivered k n r.delivered)
verdict-times r p keepalive k n = ground arith
verdict-times r p dishonest k n = ground arith
verdict-times r p (honest len) k n = ground arith

deliver-counters :
    (table : Table) (peer : ℕ) (r : Receiver) (p : RxPacket) (ok : Bool) (c : ReplayCounter)
    → (deliver table peer r p (ok, c)).counters ≡ update r.counters p.keypair c
deliver-counters table peer r p true c =
    verdict-counters (record r { counters = update r.counters p.keypair c }) p
      (consume_data_done table peer p)
deliver-counters table peer r p false c = refl

deliver-times :
    (table : Table) (peer : ℕ) (r : Receiver) (p : RxPacket) (ok : Bool) (c : ReplayCounter)
    (k n : ℕ)
    → times_delivered k n (deliver table peer r p (ok, c)).delivered ≤ (
        if ok && (p.keypair == k && p.nonce == n)
        then suc (times_delivered k n r.delivered)
        else times_delivered k n r.delivered)
deliver-times table peer r p true c k n =
    verdict-times (record r { counters = update r.counters p.keypair c }) p
      (consume_data_done table peer p) k n
deliver-times table peer r p false c k n = omega arith

IsOnce-le :
    (c c' : ReplayCounter) (times times' : ℕ → ℕ)
    → c' ≡ c
    → ((n : ℕ) → times' n ≤ times n)
    → IsOnce c times
    → IsOnce c' times'
unfolding IsOnce
IsOnce-le c c' times times' e le (seen, h, once) =
    (seen, subst (λ x. Holds x seen) (sym e) h, (λ n. ground (arith, le n, once n)))

deliver-AllOnce :
    (table : Table) (peer : ℕ) (r : Receiver) (p : RxPacket)
    → AllOnce r.counters r.delivered
    → let r' = deliver table peer r p (counter_validate (r.counters p.keypair) p.nonce) in
      AllOnce r'.counters r'.delivered
deliver-AllOnce table peer r p inv k = elim (Bool-cases (p.keypair == k)) [
  | inl e ↦
      subst (λ j. IsOnce (r'.counters j) (λ n. times_delivered j n r'.delivered))
        ((==_iff p.keypair k).0 e) self
  | inr ne ↦
      IsOnce-le (r.counters k) (r'.counters k) _ _
        (ap (λ (f : ℕ → ReplayCounter). f k) counters ∙ ground (arith, ne))
        (λ n. ground (arith, ne, times k n)) (inv k)
]
  where
    answer : Bool × ReplayCounter
    answer = counter_validate (r.counters p.keypair) p.nonce

    r' : Receiver
    r' = deliver table peer r p answer

    counters : r'.counters ≡ update r.counters p.keypair answer.1
    counters = deliver-counters table peer r p answer.0 answer.1

    times :
        (j n : ℕ)
        → times_delivered j n r'.delivered ≤ (
            if answer.0 && (p.keypair == j && p.nonce == n)
            then suc (times_delivered j n r.delivered)
            else times_delivered j n r.delivered)
    times j n = deliver-times table peer r p answer.0 answer.1 j n

    self : IsOnce (r'.counters p.keypair) (λ n. times_delivered p.keypair n r'.delivered)
    self =
        let t : ℕ → ℕ = λ n. times_delivered p.keypair n r'.delivered in
        IsOnce-le answer.1 (r'.counters p.keypair) t t
          (ap (λ (f : ℕ → ReplayCounter). f p.keypair) counters ∙ ground arith) (λ n. omega arith)
          (validate-IsOnce (r.counters p.keypair) (λ n. times_delivered p.keypair n r.delivered) t
            p.nonce (inv p.keypair) (λ n. ground (arith, times p.keypair n)))

consume-packet-AllOnce :
    (table : Table) (peer : ℕ) (r : Receiver) (p : RxPacket) (s : PacketState)
    → AllOnce r.counters r.delivered
    → let r' = consume_packet table peer r p s in AllOnce r'.counters r'.delivered
consume-packet-AllOnce table peer r p crypted inv = deliver-AllOnce table peer r p inv
consume-packet-AllOnce table peer r p dead inv = inv
consume-packet-AllOnce table peer r p uncrypted inv = inv

work-AllOnce :
    (table : Table) (peer : ℕ) (r : Receiver) (budget : ℕ) (ps : List RxPacket)
    → AllOnce r.counters r.delivered
    → let r' = (packet_peer_rx_work table peer r budget ps).1 in AllOnce r'.counters r'.delivered
unfolding packet_peer_rx_work
work-AllOnce table peer r budget [] inv = inv
work-AllOnce table peer r zero (p ∷ ps) inv = inv
work-AllOnce table peer r (suc budget) (p ∷ ps) inv = elim (Bool-cases (is_uncrypted p.state)) [
  | inl e ↦ rw e inv
  | inr e ↦ rw e (
      work-AllOnce table peer (consume_packet table peer r p p.state) budget ps
        (consume-packet-AllOnce table peer r p p.state inv))
]

decrypt-at-AllOnce :
    (r : Receiver) (now : ℕ) (opens : Bool) (place : ℕ) (ps : List RxPacket)
    → AllOnce r.counters r.delivered
    → let r' = decrypt_at r now opens place ps in AllOnce r'.counters r'.delivered
unfolding decrypt_at
decrypt-at-AllOnce r now opens place [] inv = inv
decrypt-at-AllOnce r now opens zero (p ∷ ps) inv = inv
decrypt-at-AllOnce r now opens (suc place) (p ∷ ps) inv =
    decrypt-at-AllOnce r now opens place ps inv

run-AllOnce :
    (table : Table) (peer : ℕ) (r : Receiver) (es : List RxEvent)
    → AllOnce r.counters r.delivered
    → AllOnce (rx_run table peer r es).counters (rx_run table peer r es).delivered
unfolding rx_run rx_step
run-AllOnce table peer r [] inv = inv
run-AllOnce table peer r (arrive p ∷ es) inv =
    run-AllOnce table peer (rx_step table peer r (arrive p)) es inv
run-AllOnce table peer r (decrypt_one now opens place ∷ es) inv =
    run-AllOnce table peer (rx_step table peer r (decrypt_one now opens place)) es
      (decrypt-at-AllOnce r now opens place r.queue inv)
run-AllOnce table peer r (work budget ∷ es) inv =
    run-AllOnce table peer (rx_step table peer r (work budget)) es
      (work-AllOnce table peer r budget r.queue inv)

-- For a peer whose keypairs are new, in every sequence in which packets come, are decrypted and the
-- queue is worked on, with any budgets and answers of the cipher: of the packets with one keypair and
-- one nonce, one at most is handed up.
pub rx-run-once :
    (table : Table) (peer : ℕ) (keys : ℕ → ReceivingKey) (es : List RxEvent) (k n : ℕ)
    → times_delivered k n (rx_run table peer (rx_init keys) es).delivered ≤ 1
unfolding rx_init IsOnce contains
rx-run-once table peer keys es k n =
    let (seen, h, once) =
      run-AllOnce table peer (rx_init keys) es (λ j. ([], fresh-Holds, λ m. omega arith)) k in
    ground (arith, once n)
