-- ===== src/Obfuscation/Config.antt =====
-- driver/ioctl.c: how a request changes the obfuscation of a device.
-- `SetListenPort`, `SetPrivateKey` and `SetPeer` are the statuses they return, as arguments, and show as effects.
pub mod Valid
use amneziawg_nt.Base.{
  ℕ, ◌+◌, ◌%◌, ◌^◌, Bool, true, false, ◌||◌, Option, none, some, List, [], ◌∷◌, ◌++◌, ltb, ◌==◌,
  if◌then◌else◌,
}
use amneziawg_nt.Obfuscation.{
  JunkPackets, PrefixSizes, initiation_size, response_size, cookie_size, max_junk_count,
  max_prefix_size_data,
}

pub record Config : Type 0 where
  pub junk : JunkPackets
  pub sizes : PrefixSizes

-- `AWG_IOCTL_INTERFACE`: a field with its flag is an option.
pub record Request : Type 0 where
  pub listen_port : Option ℕ
  pub replace_peers : Bool
  pub private_key : Option (List ℕ)
  pub junk_count : Option ℕ
  pub junk_min_size : Option ℕ
  pub junk_max_size : Option ℕ
  pub size_initiation : Option ℕ
  pub size_response : Option ℕ
  pub size_cookie : Option ℕ
  pub size_data : Option ℕ

abbrev pub flagged : Option ℕ → Bool
flagged none = false
flagged (some x) = true

abbrev pub given_or : Option ℕ → ℕ → ℕ
given_or none d = d
given_or (some x) d = x

-- A prefix and the message's size, as a `USHORT`.
abbrev pub total_or : Option ℕ → ℕ → ℕ → ℕ
total_or none size d = d
total_or (some prefix) size d = (prefix + size) % 2 ^ 16

-- `AWG_IOCTL_INTERFACE_HAS_JUNK` and `AWG_IOCTL_INTERFACE_HAS_SIZES`.
abbrev pub has_junk : Request → Bool
has_junk r = flagged r.junk_count || flagged r.junk_min_size || flagged r.junk_max_size

abbrev pub has_sizes : Request → Bool
has_sizes r =
    flagged r.size_initiation
    || flagged r.size_response
    || flagged r.size_cookie
    || flagged r.size_data

unfoldable pub merge_junk_packets : JunkPackets → Request → JunkPackets
merge_junk_packets j r = record {
  count = given_or r.junk_count j.count;
  min_size = given_or r.junk_min_size j.min_size;
  max_size = given_or r.junk_max_size j.max_size;
}

unfoldable pub merge_prefix_sizes : PrefixSizes → Request → PrefixSizes
merge_prefix_sizes s r = record {
  initiation = total_or r.size_initiation initiation_size s.initiation;
  response = total_or r.size_response response_size s.response;
  cookie = total_or r.size_cookie cookie_size s.cookie;
  data_prefix = given_or r.size_data s.data_prefix;
}

unfoldable pub validate_junk_packets : JunkPackets → Bool
validate_junk_packets j =
    if ltb max_junk_count j.count then false else if ltb j.max_size j.min_size then false else true

unfoldable pub validate_prefix_sizes : PrefixSizes → Bool
validate_prefix_sizes s =
    if ltb s.initiation initiation_size
    then false
    else if ltb s.response response_size
    then false
    else if ltb s.cookie cookie_size
    then false
    else if ltb max_prefix_size_data s.data_prefix
    then false
    else if s.initiation == s.response || s.initiation == s.cookie || s.response == s.cookie
    then false
    else true

-- What a request does besides: the calls made, in order.
pub data Effect : Type 0 where
  set_listen_port : ℕ → Effect
  remove_all_peers : Effect
  set_private_key : List ℕ → Effect
  set_peer : Effect

pub data Status : Type 0 where
  success invalid_parameter other_failure : Status

-- The loop over the request's peers, by what `SetPeer` returns, up to the first that fails.
unfoldable pub set_peers : List Status → Status × List Effect
set_peers [] = (success, [])
set_peers (success ∷ results) = let (s, es) = set_peers results in (s, set_peer ∷ es)
set_peers (invalid_parameter ∷ results) = (invalid_parameter, set_peer ∷ [])
set_peers (other_failure ∷ results) = (other_failure, set_peer ∷ [])

abbrev pub port_effects : Option ℕ → List Effect
port_effects none = []
port_effects (some port) = set_listen_port port ∷ []

abbrev pub replace_effects : Bool → List Effect
replace_effects true = remove_all_peers ∷ []
replace_effects false = []

abbrev pub key_effects : Option (List ℕ) → List Effect
key_effects none = []
key_effects (some key) = set_private_key key ∷ []

-- The status of a call that is made if its argument is given.
abbrev pub status_of : {A : Type 0} → Option A → Status → Status
status_of none status = success
status_of (some x) status = status

abbrev pub is_success : Status → Bool
is_success success = true
is_success invalid_parameter = false
is_success other_failure = false

-- The device's obfuscation with what the request gives.
unfoldable pub applied : Config → Request → Config
applied c r = record {
  junk = if has_junk r then merge_junk_packets c.junk r else c.junk;
  sizes = if has_sizes r then merge_prefix_sizes c.sizes r else c.sizes;
}

-- Whether what the request gives is refused.
unfoldable pub refused_junk : Config → Request → Bool
refused_junk c r =
    if has_junk r
    then if validate_junk_packets (merge_junk_packets c.junk r) then false else true
    else false

unfoldable pub refused_sizes : Config → Request → Bool
refused_sizes c r =
    if has_sizes r
    then if validate_prefix_sizes (merge_prefix_sizes c.sizes r) then false else true
    else false

-- `SetInterface` once the buffer's size is checked.
unfoldable pub set_interface :
    Config → Request → Status → Status → List Status → Status × Config × List Effect
set_interface c r port_status key_status peers =
    let port = port_effects r.listen_port in
    let before = port ++ replace_effects r.replace_peers ++ key_effects r.private_key in
    let (s, es) = set_peers peers in
    if refused_junk c r
    then (invalid_parameter, c, [])
    else if refused_sizes c r
    then (invalid_parameter, c, [])
    else if is_success (status_of r.listen_port port_status)
    then if is_success (status_of r.private_key key_status)
      then (s, applied c r, before ++ es)
      else (key_status, c, before)
    else (port_status, c, port)

-- The obfuscation of a new device.
abbrev pub initial : Config
initial = record {
  junk = record { count = 0; min_size = 0; max_size = 0 };
  sizes = record {
    initiation = initiation_size;
    response = response_size;
    cookie = cookie_size;
    data_prefix = 0;
  };
}

-- A request with the results of its calls.
pub record Call : Type 0 where
  pub request : Request
  pub port_status : Status
  pub key_status : Status
  pub peers : List Status

abbrev pub run : Config → List Call → Config
run c [] = c
run c (x ∷ xs) = run (set_interface c x.request x.port_status x.key_status x.peers).1 xs
