-- ===== src/RxQueue/Honest.antt =====
-- driver/receive.c: the data packets that are handed up.
use amneziawg_nt.Base.{
  ℕ, zero, suc, ◌+◌, ◌≤◌, ◌==◌, ==_iff, Bool, true, false, ◌&&◌, Option, none, some, List, [], ◌∷◌,
  ◌≡◌, ap, Bool-cases, inl, inr, arith, leb, ltb,
}
use amneziawg_nt.Counter.{ReplayCounter, counter_validate}
use amneziawg_nt.AllowedIps.Table.{Table, lookup_src, ipv4, ipv6}
use amneziawg_nt.RxQueue.{
  PacketState, crypted, dead, uncrypted, RxPacket, Delivered, Receiver, update, Verdict, keepalive,
  dishonest, honest, record_verdict, deliver, consume_packet, consume_data_done, check_source,
  same_peer, is_uncrypted, packet_peer_rx_work, decrypt_at, RxEvent, arrive, decrypt_one, work,
  rx_step, rx_run,
}

-- It is trimmed to a length that an IP header fits in and that is not longer than what
-- came, and its source is an address of the peer.
abbrev pub IsHonest : Table → ℕ → RxPacket → ℕ → Type 0
IsHonest table peer p len =
    (20 ≤ len) × (len ≤ p.length) × (lookup_src table p.proto p.header ≡ some peer)

abbrev pub AllHonest : Table → ℕ → List Delivered → Type 0
AllHonest table peer [] = Unit {0}
AllHonest table peer (d ∷ ds) = IsHonest table peer d.packet d.trimmed × AllHonest table peer ds

abbrev HonestVerdict : Table → ℕ → RxPacket → Verdict → Type 0
HonestVerdict table peer p keepalive = Unit {0}
HonestVerdict table peer p dishonest = Unit {0}
HonestVerdict table peer p (honest len) = IsHonest table peer p len

same-peer_lem : (o : Option ℕ) (peer : ℕ) → same_peer o peer ≡ true → o ≡ some peer
same-peer_lem none peer e = absurd (ground arith)
same-peer_lem (some p) peer e = ap (λ q. some q) ((==_iff p peer).0 e)

check-source-HonestVerdict :
    (table : Table) (peer : ℕ) (p : RxPacket) (len : ℕ)
    → 20 ≤ len
    → HonestVerdict table peer p (check_source table peer p len)
check-source-HonestVerdict table peer p len h = elim (Bool-cases (ltb p.length len)) [
  | inl e ↦ rw e tt
  | inr e ↦ elim (Bool-cases (same_peer (lookup_src table p.proto p.header) peer)) [
    | inl s ↦ rw (e, s) (h, ground arith, same-peer_lem _ peer s)
    | inr s ↦ rw (e, s) tt
  ]
]

consume-HonestVerdict :
    (table : Table) (peer : ℕ) (p : RxPacket)
    → HonestVerdict table peer p (consume_data_done table peer p)
unfolding consume_data_done
consume-HonestVerdict table peer p = elim (Bool-cases (p.length == 0)) [
  | inl e ↦ rw e tt
  | inr e ↦ elim (Bool-cases (p.proto == ipv4 && leb 20 p.length)) [
    | inl four ↦ elim (Bool-cases (ltb p.ip_length 20)) [
      | inl short ↦ rw (e, four, short) tt
      | inr long ↦
          rw (e, four, long) (check-source-HonestVerdict table peer p p.ip_length (ground arith))
    ]
    | inr four ↦ elim (Bool-cases (p.proto == ipv6 && leb 40 p.length)) [
      | inl six ↦
          rw (e, four, six)
            (check-source-HonestVerdict table peer p (p.ip_length + 40) (omega arith))
      | inr six ↦ rw (e, four, six) tt
    ]
  ]
]

record-AllHonest :
    (table : Table) (peer : ℕ) (r : Receiver) (p : RxPacket) (v : Verdict)
    → HonestVerdict table peer p v
    → AllHonest table peer r.delivered
    → AllHonest table peer (record_verdict r p v).delivered
record-AllHonest table peer r p keepalive h a = a
record-AllHonest table peer r p dishonest h a = a
record-AllHonest table peer r p (honest len) h a = (h, a)

deliver-AllHonest :
    (table : Table) (peer : ℕ) (r : Receiver) (p : RxPacket) (ok : Bool) (c : ReplayCounter)
    → AllHonest table peer r.delivered
    → AllHonest table peer (deliver table peer r p (ok, c)).delivered
deliver-AllHonest table peer r p true c a =
    record-AllHonest table peer (record r { counters = update r.counters p.keypair c }) p
      (consume_data_done table peer p) (consume-HonestVerdict table peer p) a
deliver-AllHonest table peer r p false c a = a

consume-packet-AllHonest :
    (table : Table) (peer : ℕ) (r : Receiver) (p : RxPacket) (s : PacketState)
    → AllHonest table peer r.delivered
    → AllHonest table peer (consume_packet table peer r p s).delivered
consume-packet-AllHonest table peer r p crypted a =
    let answer = counter_validate (r.counters p.keypair) p.nonce in
    deliver-AllHonest table peer r p answer.0 answer.1 a
consume-packet-AllHonest table peer r p dead a = a
consume-packet-AllHonest table peer r p uncrypted a = a

work-AllHonest :
    (table : Table) (peer : ℕ) (r : Receiver) (budget : ℕ) (ps : List RxPacket)
    → AllHonest table peer r.delivered
    → AllHonest table peer (packet_peer_rx_work table peer r budget ps).1.delivered
unfolding packet_peer_rx_work
work-AllHonest table peer r budget [] a = a
work-AllHonest table peer r zero (p ∷ ps) a = a
work-AllHonest table peer r (suc budget) (p ∷ ps) a = elim (Bool-cases (is_uncrypted p.state)) [
  | inl e ↦ rw e a
  | inr e ↦ rw e (
      work-AllHonest table peer (consume_packet table peer r p p.state) budget ps
        (consume-packet-AllHonest table peer r p p.state a))
]

decrypt-at-AllHonest :
    (table : Table) (peer : ℕ) (r : Receiver) (now : ℕ) (opens : Bool) (place : ℕ)
    (ps : List RxPacket)
    → AllHonest table peer r.delivered
    → AllHonest table peer (decrypt_at r now opens place ps).delivered
unfolding decrypt_at
decrypt-at-AllHonest table peer r now opens place [] a = a
decrypt-at-AllHonest table peer r now opens zero (p ∷ ps) a = a
decrypt-at-AllHonest table peer r now opens (suc place) (p ∷ ps) a =
    decrypt-at-AllHonest table peer r now opens place ps a

-- In every sequence in which packets come, are decrypted and the queue is worked on: each packet handed
-- up has a source address that the table gives to the peer, and is trimmed to a length of at least 20
-- bytes that is not longer than what was decrypted; if it was so for those handed up before.
pub rx-run-AllHonest :
    (table : Table) (peer : ℕ) (r : Receiver) (es : List RxEvent)
    → AllHonest table peer r.delivered
    → AllHonest table peer (rx_run table peer r es).delivered
unfolding rx_run rx_step
rx-run-AllHonest table peer r [] a = a
rx-run-AllHonest table peer r (arrive p ∷ es) a =
    rx-run-AllHonest table peer (rx_step table peer r (arrive p)) es a
rx-run-AllHonest table peer r (decrypt_one now opens place ∷ es) a =
    rx-run-AllHonest table peer (rx_step table peer r (decrypt_one now opens place)) es
      (decrypt-at-AllHonest table peer r now opens place r.queue a)
rx-run-AllHonest table peer r (work budget ∷ es) a =
    rx-run-AllHonest table peer (rx_step table peer r (work budget)) es
      (work-AllHonest table peer r budget r.queue a)
