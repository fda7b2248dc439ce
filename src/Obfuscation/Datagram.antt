-- ===== src/Obfuscation/Datagram.antt =====
-- driver/send.c and driver/receive.c: how a handshake message is laid out behind its random prefix, and
-- how a received datagram is told apart. An allocation is a buffer of any bytes, and the random
-- generator's bytes are an argument. The first memory descriptor's bytes are a list.
pub mod RoundTrip
pub mod Lists
use amneziawg_nt.Base.{
  ℕ, ◌+◌, ◌-◌, ◌*◌, ◌/◌, Bool, true, false, List, [], ◌∷◌, ◌++◌, length, take, drop, get_or, ltb,
  leb, ◌==◌, if◌then◌else◌,
}
use amneziawg_nt.Obfuscation.{
  PrefixSizes, initiation_size, response_size, cookie_size, data_header_size, minimum_length,
}

-- The handshake messages, `MESSAGE_TYPE`.
pub data Kind : Type 0 where
  initiation response cookie : Kind

abbrev pub size_of : Kind → ℕ
size_of initiation = initiation_size
size_of response = response_size
size_of cookie = cookie_size

abbrev pub type_of : Kind → ℕ
type_of initiation = 1
type_of response = 2
type_of cookie = 3

abbrev pub data_type : ℕ
data_type = 4

abbrev pub total_of : PrefixSizes → Kind → ℕ
total_of s initiation = s.initiation
total_of s response = s.response
total_of s cookie = s.cookie

-- The bytes of a buffer with some replaced.
unfoldable pub write : ℕ → List ℕ → List ℕ → List ℕ
write offset bytes buffer = take offset buffer ++ bytes ++ drop (offset + length bytes) buffer

-- `ALIGN_UP_BY_T` for the four bytes of the messages' alignment.
unfoldable pub align_up : ℕ → ℕ
align_up n = (n + 3) / 4 * 4

-- `PacketSendHandshakeInitiation`, `PacketSendHandshakeResponse` and `PacketSendHandshakeCookie`: the
-- bytes handed to the socket.
unfoldable pub framed : PrefixSizes → Kind → List ℕ → List ℕ → List ℕ → List ℕ
framed s kind random message buffer =
    let packet_size = total_of s kind in
    let prefix_size = packet_size - size_of kind in
    let buffer_size = align_up packet_size in
    let message_offset = buffer_size - size_of kind in
    let payload_offset = message_offset - prefix_size in
    take packet_size
      (drop payload_offset (write message_offset message (write payload_offset random buffer)))

-- `WSK_BUF`: the datagram's length, its offset in the first descriptor, and that descriptor's bytes.
pub record Datagram : Type 0 where
  pub total : ℕ
  pub offset : ℕ
  pub bytes : List ℕ
  pub mapped : Bool

-- What is put into the packet: a handshake message, or a data header with the new offset and length.
pub data Prepared : Type 0 where
  rejected : Prepared
  handshake : List ℕ → Prepared
  transport : List ℕ → ℕ → ℕ → Prepared

-- `MESSAGE_HEADER`: the type, little-endian.
unfoldable pub message_type : List ℕ → ℕ
message_type bs =
    get_or bs 0 0 + 256 * get_or bs 1 0 + 65536 * get_or bs 2 0 + 16777216 * get_or bs 3 0

-- A data message behind its prefix.
abbrev pub data_at : PrefixSizes → Datagram → List ℕ → Prepared
data_at s d at =
    if message_type at == data_type
    then transport (take data_header_size at) (d.offset + s.data_prefix) (d.total - s.data_prefix)
    else rejected

-- The label `tryData` of `PrepareNetBufferListHeader`.
unfoldable pub try_data : PrefixSizes → Datagram → List ℕ → Prepared
try_data s d src =
    if leb (s.data_prefix + minimum_length) d.total
    then if ltb (length src) (s.data_prefix + data_header_size)
      then rejected
      else data_at s d (drop s.data_prefix src)
    else rejected

-- A handshake message behind its prefix.
abbrev pub handshake_at : PrefixSizes → Kind → Datagram → List ℕ → List ℕ → Prepared
handshake_at s kind d src message =
    if message_type message == type_of kind
    then handshake (take (size_of kind) message)
    else try_data s d src

-- The branch of a handshake message.
unfoldable pub try_handshake : PrefixSizes → Kind → Datagram → List ℕ → Prepared
try_handshake s kind d src =
    if ltb (length src) (total_of s kind)
    then rejected
    else handshake_at s kind d src (drop (total_of s kind - size_of kind) src)

-- `PrepareNetBufferListHeader`.
unfoldable pub prepare : PrefixSizes → Datagram → Prepared
prepare s d =
    let src = drop d.offset d.bytes in
    if ltb d.total 4
    then rejected
    else if ltb (length d.bytes) d.offset
    then rejected
    else if ltb (length d.bytes - d.offset) 4
    then rejected
    else if d.mapped
    then if d.total == s.initiation
      then try_handshake s initiation d src
      else if d.total == s.response
      then try_handshake s response d src
      else if d.total == s.cookie
      then try_handshake s cookie d src
      else try_data s d src
    else rejected
