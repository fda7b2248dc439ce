-- ===== src/Obfuscation/Tests.antt =====
-- Runs of the obfuscation, and instances of its theorems.
use amneziawg_nt.Base.{
  ℕ, ◌≡◌, ◌≤◌, refl, true, false, Option, none, some, List, [], ◌∷◌, ◌++◌, length, replicate, arith,
}
use amneziawg_nt.Obfuscation.{JunkPackets, PrefixSizes, IsValidSizes, max_junk_count}
use amneziawg_nt.Obfuscation.Config.{
  Request, Call, run, initial, set_interface, invalid_parameter, success, refused_junk,
  refused_sizes, validate_prefix_sizes, merge_prefix_sizes, set_peers,
}
use amneziawg_nt.Obfuscation.Config.Valid.{IsValid, run-IsValid}
use amneziawg_nt.Obfuscation.Datagram.{response, framed, align_up, prepare, handshake, message_type}
use amneziawg_nt.Obfuscation.Datagram.RoundTrip.{prepare-framed}
use amneziawg_nt.Obfuscation.Junk.{
  AllIn, send_junk_packets, send_each, packet_length, send_junk_packets_bounds,
}

abbrev prefixed : Option ℕ → Request
prefixed initiation_prefix = record {
  listen_port = none;
  replace_peers = false;
  private_key = none;
  junk_count = none;
  junk_min_size = none;
  junk_max_size = none;
  size_initiation = initiation_prefix;
  size_response = none;
  size_cookie = none;
  size_data = none;
}

-- A prefix that makes the sum wrap is refused.
wrap_refused :
    set_interface initial (prefixed (some 65500)) success success []
    ≡ (invalid_parameter, initial, [])
unfolding set_interface refused_junk refused_sizes validate_prefix_sizes merge_prefix_sizes
    set_peers
wrap_refused = refl

-- A request that is taken, then one that is refused.
abbrev calls : List Call
calls =
    record {
      request = prefixed (some 20);
      port_status = success;
      key_status = success;
      peers = success ∷ [];
    }
    ∷ record {
      request = prefixed (some 65500);
      port_status = success;
      key_status = success;
      peers = [];
    }
    ∷ []

run-IsValid_example : IsValid (run initial calls)
run-IsValid_example = run-IsValid calls

-- A response of 92 bytes behind a prefix of three.
abbrev sizes : PrefixSizes
sizes = record { initiation = 148; response = 95; cookie = 64; data_prefix = 0 }

abbrev message : List ℕ
message = 2 ∷ replicate 91 0

sizes-IsValidSizes : IsValidSizes sizes
sizes-IsValidSizes = record {
  initiation_fits = omega arith;
  response_fits = omega arith;
  cookie_fits = omega arith;
  data_fits = omega arith;
  initiation_response = omega arith;
  initiation_cookie = omega arith;
  response_cookie = omega arith;
}

prepare-framed_example :
    prepare sizes (record {
      total = length (framed sizes response (7 ∷ 8 ∷ 9 ∷ []) message (replicate 96 5));
      offset = 1;
      bytes = (0 ∷ []) ++ (framed sizes response (7 ∷ 8 ∷ 9 ∷ []) message (replicate 96 5) ++ []);
      mapped = true;
    })
    ≡ handshake message
unfolding align_up message_type
prepare-framed_example =
    prepare-framed sizes response (7 ∷ 8 ∷ 9 ∷ []) message (replicate 96 5) (0 ∷ []) []
      sizes-IsValidSizes refl refl refl refl

abbrev junk : JunkPackets
junk = record { count = 2; min_size = 40; max_size = 70 }

junk_lengths :
    send_junk_packets junk true true ((0, true) ∷ (65535, true) ∷ (3, true) ∷ []) ≡ 40 ∷ 70 ∷ []
unfolding send_junk_packets send_each packet_length
junk_lengths = refl

send_junk_packets_bounds_example :
    let lengths = send_junk_packets junk true true ((0, true) ∷ (65535, true) ∷ []) in
    AllIn 40 70 lengths × (length lengths ≤ 2) × (length lengths ≤ max_junk_count)
send_junk_packets_bounds_example =
    send_junk_packets_bounds junk true true ((0, true) ∷ (65535, true) ∷ [])
      (record { count_fits = omega arith; in_order = omega arith }) (omega arith)
      (omega arith, (omega arith, tt))
