-- ===== src/RxQueue/Tests.antt =====
-- Data packets that come twice, lie about their length or their source, and the theorems on them.
use amneziawg_nt.Base.{ℕ, ◌≤◌, true, some, List, [], ◌∷◌}
use amneziawg_nt.AllowedIps.Table.{Table, insert4, run, init, ipv4}
use amneziawg_nt.RxQueue.{
  RxPacket, uncrypted, ReceivingKey, Receiver, RxEvent, arrive, decrypt_one, work, rx_run, rx_init,
}
use amneziawg_nt.RxQueue.Once.{times_delivered, rx-run-once}
use amneziawg_nt.RxQueue.Honest.{AllHonest, rx-run-AllHonest}

-- 10.0.0.0/8 is peer 5's.
abbrev routes : Table
routes = run init (insert4 true true (10 ∷ 0 ∷ 0 ∷ 0 ∷ []) 8 (some 5) ∷ [])

abbrev rx_keys : ℕ → ReceivingKey
rx_keys k = record { is_valid = true; birthdate = 0 }

abbrev ping : ℕ → List ℕ → RxPacket
ping len source = record {
  state = uncrypted;
  keypair = 1;
  nonce = 0;
  length = len;
  proto = ipv4;
  ip_length = 60;
  header = record { source = source; destination = 10 ∷ 0 ∷ 0 ∷ 9 ∷ [] };
}

-- One packet and its copy.
abbrev replayed : List RxEvent
replayed =
    arrive (ping 64 (10 ∷ 0 ∷ 0 ∷ 1 ∷ []))
    ∷ arrive (ping 64 (10 ∷ 0 ∷ 0 ∷ 1 ∷ []))
    ∷ decrypt_one 100 true 0
    ∷ decrypt_one 100 true 1
    ∷ work 8
    ∷ []

rx-run-once_example : times_delivered 1 0 (rx_run routes 5 (rx_init rx_keys) replayed).delivered ≤ 1
rx-run-once_example = rx-run-once routes 5 rx_keys replayed 1 0

abbrev empty_receiver : Receiver
unfolding rx_init
empty_receiver = rx_init rx_keys

rx-run-AllHonest_example : AllHonest routes 5 (rx_run routes 5 empty_receiver replayed).delivered
unfolding rx_init
rx-run-AllHonest_example = rx-run-AllHonest routes 5 empty_receiver replayed tt
