-- ===== src/Staging/Tests.antt =====
-- Packets that wait for a key, and the theorems on them.
use amneziawg_nt.Base.{map, ◌+◌, ◌%◌, ◌≤◌, ◌<◌, true, some, List, [], ◌∷◌, ◌≡◌, ◌⊎◌, refl, arith}
use amneziawg_nt.Cookies.{birthdate_has_expired}
use amneziawg_nt.Staging.{
  Staging, StagingEvent, stage, steal, send_stolen, requeue, staging_run, staging_step,
  stage_packet, discard_excess, steal_staged_packets, send_stolen_packets, requeue_packet,
  packet_id, calculate_padding, assign, assign_buffers,
}
use amneziawg_nt.Staging.Nonces.{IsCounted, run-IsCounted}
use amneziawg_nt.Staging.Packets.{whereabouts, count_staged, run-packets}
use amneziawg_nt.Staging.Padding.{calculate_padding_bounds}

abbrev fresh_key : Staging
fresh_key = record {
  queue = [];
  stolen = [];
  returning = [];
  discarded = [];
  key = some (record { is_valid = true; birthdate = 0; counter = 0; initiator = true });
  sent = [];
  nonces = [];
  asked = 0;
}

-- Two packets go, the third comes after the key is too old and is put back behind the fourth.
abbrev traffic : List StagingEvent
traffic =
    stage (record { id = 7; buffers = 2 })
    ∷ stage (record { id = 8; buffers = 1 })
    ∷ steal
    ∷ send_stolen 0 100
    ∷ stage (record { id = 9; buffers = 1 })
    ∷ steal
    ∷ send_stolen 0 2000000000
    ∷ stage (record { id = 10; buffers = 1 })
    ∷ requeue 0
    ∷ []

sent_traffic :
    ((staging_run fresh_key traffic).nonces ≡ 0 ∷ 1 ∷ 2 ∷ [])
    × ((staging_run fresh_key traffic).sent ≡ 7 ∷ 8 ∷ [])
    × (map packet_id (staging_run fresh_key traffic).queue ≡ 10 ∷ 9 ∷ [])
    × ((staging_run fresh_key traffic).asked ≡ 1)
unfolding staging_run staging_step stage_packet discard_excess steal_staged_packets
    send_stolen_packets requeue_packet birthdate_has_expired assign assign_buffers
sent_traffic = (refl, refl, refl, refl)

run-IsCounted_example :
    IsCounted (staging_run fresh_key traffic).nonces (staging_run fresh_key traffic).key
run-IsCounted_example =
    run-IsCounted traffic fresh_key (omega arith, (λ h. omega arith), omega arith)

run-packets_example :
    whereabouts 9 (staging_run fresh_key traffic) ≡ whereabouts 9 fresh_key + count_staged 9 traffic
run-packets_example = run-packets traffic fresh_key 9

calculate_padding_bounds_example :
    (calculate_padding 1410 1420 < 16)
    × (1410 + calculate_padding 1410 1420 ≤ 1420)
    × (((1410 + calculate_padding 1410 1420) % 16 ≡ 0)
        ⊎ (1410 + calculate_padding 1410 1420 ≡ 1420))
calculate_padding_bounds_example =
    calculate_padding_bounds 1410 1420 (omega arith) (omega arith) (omega arith)
