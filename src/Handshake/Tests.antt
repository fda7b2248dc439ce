-- ===== src/Handshake/Tests.antt =====
-- Handshakes of two devices, with stand-ins for the primitives, and the theorems on them.
use amneziawg_nt.Handshake.Peering.{init-Peered}
use amneziawg_nt.Base.{
  ◌≤◌, ℕ, ◌+◌, ◌*◌, ◌/◌, ◌<◌, true, Option, none, some, List, [], ◌∷◌, ◌≡◌, refl, ap, ◌∙◌, sym,
  arith, if◌then◌else◌, ◌==◌, get_or, set, replicate,
}
use amneziawg_nt.Handshake.{Bytes, Crypto, Laws, generate_public, clamp}
use amneziawg_nt.Handshake.Initiation.{
  Initiation, Fresh, create_initiation, check_initiation, consume_initiation, accept,
}
use amneziawg_nt.Handshake.Response.{Response, create_response, consume_response}
use amneziawg_nt.Handshake.Session.{new_session}
use amneziawg_nt.Handshake.Agreement.{
  Peered, Paired, Agreed, create-initiation_accepted, create-response-Agreed,
}
use amneziawg_nt.Handshake.Device.{
  Device, Event, passed, accepted, check_first, copy_first, respond, begin, run,
}
use amneziawg_nt.Handshake.Replay.{run-Spaced, Spaced}
use amneziawg_nt.Handshake.Sessions.{run-session-bound, sessions, handshakes, ready}
use amneziawg_nt.Handshake.Change.{at}
use amneziawg_nt.Keypairs.{no_keypairs}
use native.Mathlib.Nat.{mul_left_comm}
use amneziawg_nt.Handshake.{
  ◌>>=◌, ◌>>◌, message_ephemeral, mix_hash, mix_key, mix_dh, mix_psk, message_encrypt,
  message_decrypt, mix_precomputed_dh,
}
use amneziawg_nt.Handshake.{handshake_init}
use amneziawg_nt.Handshake.Initiation.{read_timestamp, is_replay, is_flood, later_of}
use amneziawg_nt.Handshake.Session.{begin_session}
use amneziawg_nt.Handshake.Device.{
  step, checked_initiation, took_initiation, wrote_response, begun_session, write_handshake,
}
use amneziawg_nt.Handshake.Peer.{
  put_handshake, zeros, no_symmetric, zeroed, consumed_initiation, no_symmetric, zeros, zeroed,
  Identity, Handshake, Peers, set_static_private_key, init_handshake,
}

abbrev sum : Bytes → ℕ
sum [] = 0
sum (b ∷ bs) = b + sum bs

-- The exchange multiplies; a text is sealed by a sum in front of it.
abbrev exponent : Bytes → ℕ
exponent a = get_or a 0 0 / 8 + 1

abbrev toy_exchange : Bytes → Bytes → Option Bytes
toy_exchange a [] = none
toy_exchange a (x ∷ p) = if x == 0 then none else some (exponent a * x ∷ [])

abbrev toy_decrypt : Bytes → Bytes → Bytes → Option Bytes
toy_decrypt key ad [] = none
toy_decrypt key ad (tag ∷ text) = if tag == sum key + sum ad then some text else none

abbrev toy : Crypto
toy = record {
  curve25519 = toy_exchange;
  blake2s = λ bytes. sum bytes ∷ [];
  hmac = λ bytes key. (sum bytes + 3 * sum key) ∷ [];
  encrypt = λ key ad text. (sum key + sum ad) ∷ text;
  decrypt = toy_decrypt;
}

get_or-set_high : (bs : Bytes) (v : ℕ) → get_or (set bs 31 v) 0 0 ≡ get_or bs 0 0
get_or-set_high [] v = refl
get_or-set_high (b ∷ bs) v = refl

exponent-clamp : (a : Bytes) → exponent (clamp a) ≡ exponent a
unfolding clamp
exponent-clamp [] = refl
exponent-clamp (b ∷ bs) = omega arith

toy-exchange_at : (a : Bytes) (x : ℕ) → 0 < x → toy_exchange a (x ∷ []) ≡ some (exponent a * x ∷ [])
toy-exchange_at a x h = ground arith

toy_agree :
    (a b pub_a pub_b : Bytes)
    → generate_public toy a ≡ some pub_a
    → generate_public toy b ≡ some pub_b
    → toy_exchange a pub_b ≡ toy_exchange b pub_a
toy_agree a b pub_a pub_b ea eb =
    let pa : pub_a ≡ exponent a * 9 ∷ [] = cc in
    let pb : pub_b ≡ exponent b * 9 ∷ [] = cc in
    ap (toy_exchange a) pb
    ∙ toy-exchange_at a (exponent b * 9) (omega arith)
    ∙ ap (λ n. some (n ∷ [])) (mul_left_comm (exponent a) (exponent b) 9)
    ∙ sym (toy-exchange_at b (exponent a * 9) (omega arith))
    ∙ ap (toy_exchange b) (sym pa)

toy_clamped : (a p : Bytes) → toy_exchange (clamp a) p ≡ toy_exchange a p
toy_clamped a [] = refl
toy_clamped a (x ∷ p) = rw (exponent-clamp a) refl

toy-Laws : Laws toy
toy-Laws = record {
  agree = toy_agree;
  clamped = toy_clamped;
  decrypt-encrypt = λ key ad text. ground arith;
}

-- Two devices that know each other.
abbrev secret_a : Bytes
secret_a = 80 ∷ replicate 31 7

abbrev secret_b : Bytes
secret_b = 48 ∷ replicate 31 9

abbrev device_a : Identity
device_a = record { static_public = 99 ∷ []; static_private = secret_a; has_identity = true }

abbrev device_b : Identity
device_b = record { static_public = 63 ∷ []; static_private = secret_b; has_identity = true }

abbrev idle : Bytes → Handshake
idle remote = record {
  state = zeroed;
  last_initiation_consumption = 0;
  ephemeral_private = zeros 32;
  remote_static = remote;
  remote_ephemeral = zeros 32;
  precomputed_static_static = 693 ∷ [];
  preshared_key = 5 ∷ [];
  mixed = no_symmetric;
  latest_timestamp = zeros 12;
  remote_index = 0;
}

abbrev peers_b : Peers
peers_b = record { find = λ key. some 0; handshake = λ id. idle (99 ∷ []) }

abbrev fresh_a : Fresh
fresh_a = record { secret = 16 ∷ []; timestamp = 64 ∷ replicate 11 1; index = 5 }

abbrev fresh_b : Fresh
fresh_b = record { secret = 24 ∷ []; timestamp = []; index = 8 }

abbrev message_of : {A : Type 0} → A → Option A → A
message_of d (some m) = m
message_of d none = d

abbrev no_initiation : Initiation
no_initiation = record {
  sender_index = 0;
  unencrypted_ephemeral = [];
  encrypted_static = [];
  encrypted_timestamp = [];
}

abbrev no_response : Response
no_response = record {
  sender_index = 0;
  receiver_index = 0;
  unencrypted_ephemeral = [];
  encrypted_nothing = [];
}

abbrev sent_a : Option Initiation × Handshake
sent_a = create_initiation toy (1 ∷ []) (2 ∷ []) device_a (idle (63 ∷ [])) fresh_a

abbrev initiation_a : Initiation
initiation_a = message_of no_initiation sent_a.0

devices-Peered : Peered toy toy-Laws device_a device_b (idle (63 ∷ [])) (idle (99 ∷ []))
unfolding clamp
devices-Peered = record {
  first = record { present = refl; owned = refl };
  second = record { present = refl; owned = refl };
  to_second = refl;
  to_first = refl;
  precomputed = refl;
  preshared = refl;
}

create-initiation_accepted_example :
    (hb' : Handshake) × (consume_initiation toy
        (1 ∷ [])
        (2 ∷ [])
        device_b
        peers_b
        initiation_a
        300000
        300000
      ≡ some (0, hb'))
    × Paired toy toy-Laws device_a sent_a.1 hb' 5
unfolding create_initiation is_replay is_flood ◌>>=◌ message_ephemeral ◌>>◌ mix_hash mix_key mix_dh
    message_encrypt mix_precomputed_dh
create-initiation_accepted_example =
    create-initiation_accepted toy toy-Laws (1 ∷ []) (2 ∷ []) device_a device_b (idle (63 ∷ []))
      sent_a.1 peers_b 0 fresh_a initiation_a 300000 300000 devices-Peered refl refl refl refl

-- The second device's handshake once it has taken the first message.
abbrev taken_b : Handshake
taken_b = record (idle (99 ∷ [])) {
  remote_ephemeral = initiation_a.unencrypted_ephemeral;
  latest_timestamp = fresh_a.timestamp;
  mixed = sent_a.1.mixed;
  remote_index = 5;
  last_initiation_consumption = 300000;
  state = consumed_initiation;
}

abbrev sent_b : Option Response × Handshake
sent_b = create_response toy taken_b fresh_b

abbrev response_b : Response
response_b = message_of no_response sent_b.0

messages-Paired : Paired toy toy-Laws device_a sent_a.1 taken_b 5
unfolding create_initiation is_replay is_flood ◌>>=◌ message_ephemeral ◌>>◌ mix_hash mix_key mix_dh
    message_encrypt mix_precomputed_dh
messages-Paired = record {
  waits = refl;
  took = refl;
  mixed = refl;
  ephemeral = refl;
  static_key = refl;
  preshared = refl;
  remote = refl;
}

create-response-Agreed_example :
    (ha' : Handshake) × (consume_response toy device_a response_b sent_a.1 sent_a.1 ≡ some ha')
    × (response_b.receiver_index ≡ 5)
    × ((new_session toy ha' 1 400000).remote_index ≡ 8)
    × ((new_session toy sent_b.1 2 400001).remote_index ≡ 5)
    × Agreed toy toy-Laws (new_session toy ha' 1 400000) (new_session toy sent_b.1 2 400001)
unfolding create_initiation is_replay is_flood ◌>>=◌ message_ephemeral ◌>>◌ mix_hash mix_key mix_dh
    message_encrypt mix_precomputed_dh create_response mix_psk
create-response-Agreed_example =
    create-response-Agreed toy toy-Laws device_a sent_a.1 taken_b sent_b.1 5 fresh_b response_b 1 2
      400000 400001 refl messages-Paired refl

-- The second device as a whole, and a day of calls.
abbrev whole_b : Device
whole_b = record {
  identity = device_b;
  peers = peers_b;
  indices = λ i. none;
  slots = λ j. no_keypairs;
  waiting = [];
}

abbrev calls : List Event
calls =
    check_first initiation_a 300000
    ∷ copy_first 0 300001
    ∷ respond 0 fresh_b
    ∷ begin 0 true true true 7 300010
    ∷ check_first initiation_a 900000
    ∷ copy_first 0 900001
    ∷ begin 0 true true true 8 900010
    ∷ []

-- The second copy of the message is refused, and the second session too.
run-calls :
    (sessions 0 (run toy (1 ∷ []) (2 ∷ []) whole_b calls) ≡ 1)
    × (handshakes 0 (run toy (1 ∷ []) (2 ∷ []) whole_b calls) ≡ 1)
unfolding run step create_initiation is_replay is_flood ◌>>=◌ message_ephemeral ◌>>◌ mix_hash
    mix_key mix_dh message_encrypt mix_precomputed_dh mix_psk create_response consume_response
    check_initiation message_decrypt begin_session accept later_of checked_initiation
    took_initiation wrote_response begun_session write_handshake put_handshake handshake_init
    read_timestamp
run-calls = (refl, refl)

-- Two copies of the message whose checks both come before either is copied are both accepted.
abbrev two_copies : List Event
two_copies =
    check_first initiation_a 300000
    ∷ check_first initiation_a 300001
    ∷ copy_first 0 300002
    ∷ copy_first 0 300003
    ∷ []

both-accepted :
    run toy (1 ∷ []) (2 ∷ []) whole_b two_copies
    ≡ passed 0 fresh_a.timestamp 300000
      ∷ passed 0 fresh_a.timestamp 300001
      ∷ accepted 0 fresh_a.timestamp 300002
      ∷ accepted 0 fresh_a.timestamp 300003
      ∷ []
unfolding run step create_initiation is_replay is_flood ◌>>=◌ message_ephemeral ◌>>◌ mix_hash
    mix_key mix_dh message_encrypt mix_precomputed_dh check_initiation message_decrypt accept
    later_of checked_initiation took_initiation write_handshake put_handshake handshake_init
    read_timestamp
both-accepted = refl

run-Spaced_example : Spaced (run toy (1 ∷ []) (2 ∷ []) whole_b calls)
run-Spaced_example =
    run-Spaced toy (1 ∷ []) (2 ∷ []) calls whole_b (omega arith, (omega arith, tt))
      (λ j. omega arith)

run-session-bound_example :
    sessions 0 (run toy (1 ∷ []) (2 ∷ []) whole_b calls)
    ≤ handshakes 0 (run toy (1 ∷ []) (2 ∷ []) whole_b calls) + ready (at whole_b 0)
run-session-bound_example = run-session-bound toy (1 ∷ []) (2 ∷ []) calls whole_b 0

init-Peered_example :
    Peered toy toy-Laws
      (set_static_private_key toy secret_a)
      (set_static_private_key toy secret_b)
      (init_handshake toy (set_static_private_key toy secret_a) (63 ∷ []) (some (5 ∷ [])))
      (init_handshake toy (set_static_private_key toy secret_b) (99 ∷ []) (some (5 ∷ [])))
init-Peered_example =
    init-Peered toy toy-Laws secret_a secret_b (99 ∷ []) (63 ∷ []) (some (5 ∷ [])) refl refl
