-- ===== src/Obfuscation.antt =====
-- The junk packets and random prefixes around the protocol's messages: driver/junk.h, driver/sizes.h.
-- A `USHORT` is a number below `2 ^ 16`; flags are Booleans.
pub mod Config
pub mod Datagram
pub mod Junk
mod Tests
use amneziawg_nt.Base.{ℕ, ◌+◌, ◌*◌, ◌≤◌, ◌<◌, ◌≢◌}

-- The sizes of the messages.
abbrev pub initiation_size : ℕ
initiation_size = 4 + 4 + 32 + (32 + 16) + (12 + 16) + 2 * 16

abbrev pub response_size : ℕ
response_size = 4 + 4 + 4 + 32 + 16 + 2 * 16

abbrev pub cookie_size : ℕ
cookie_size = 4 + 4 + 24 + (16 + 16)

abbrev pub data_header_size : ℕ
data_header_size = 4 + 4 + 8

abbrev pub minimum_length : ℕ
minimum_length = 16 + data_header_size

abbrev pub max_junk_count : ℕ
max_junk_count = 128

abbrev pub max_prefix_size_data : ℕ
max_prefix_size_data = 4096

-- `JUNK_PACKETS`.
pub record JunkPackets : Type 0 where
  pub count : ℕ
  pub min_size : ℕ
  pub max_size : ℕ

-- `MESSAGE_PREFIX_SIZES`: the total sizes of the handshake messages, and the prefix of data.
pub record PrefixSizes : Type 0 where
  pub initiation : ℕ
  pub response : ℕ
  pub cookie : ℕ
  pub data_prefix : ℕ

-- What the receiving side relies on.
pub record IsValidSizes (s : PrefixSizes) : Type 0 where
  pub initiation_fits : initiation_size ≤ s.initiation
  pub response_fits : response_size ≤ s.response
  pub cookie_fits : cookie_size ≤ s.cookie
  pub data_fits : s.data_prefix ≤ max_prefix_size_data
  pub initiation_response : s.initiation ≢ s.response
  pub initiation_cookie : s.initiation ≢ s.cookie
  pub response_cookie : s.response ≢ s.cookie

pub record IsValidJunk (j : JunkPackets) : Type 0 where
  pub count_fits : j.count ≤ max_junk_count
  pub in_order : j.min_size ≤ j.max_size
