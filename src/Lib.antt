-- ===== src/Lib.antt =====
-- AmneziaWG for the NT kernel: the protocol code of the driver, under driver/.
--
-- The driver is a network adapter that sends each packet to the peer its address belongs to, under
-- a session key, and takes in what the peers send. A configuration call sets the peers, their
-- prefixes and the obfuscation; a received datagram is told apart by its length, a handshake is
-- limited per source under load and answered, a data message is decrypted with a session's keypair,
-- checked against the keypair's replay counter, and its source address against the prefixes.
--
-- The files, with what they model:
-- - Counter (driver/receive.c, `CounterValidate`; driver/noise.h, `NOISE_REPLAY_COUNTER`): the
--   replay counter's bitmap, against a window that remembers every nonce.
-- - AllowedIps (driver/allowedips.c, driver/allowedips.h, driver/arithmetic.h): the two compressed
--   tries. `place` is `Add` after its checks, `remove_at` and `unlink` are `NodePlacement` and
--   `RemoveNode`, `find_node` is `FindNode`. The trie is generic in its keys (`KeyOps`, with the
--   laws of `Laws.KeyLaws`); Key has the 32-bit and 128-bit keys of the code, which satisfy the
--   laws; Table has the table's entry points and the lookups of a packet.
-- - Ratelimiter (driver/ratelimiter.c): token buckets in two hash tables; the keyed hash is a
--   parameter.
-- - Obfuscation (driver/ioctl.c, driver/junk.h, driver/sizes.h, driver/send.c, driver/receive.c):
--   Config is the part of `SetInterface` that sets the obfuscation, Datagram the random prefix of
--   the handshake messages and `PrepareNetBufferListHeader`, Junk is `SendJunkPackets`.
-- - Handshake (driver/noise.c, driver/noise.h): the key agreement. The file itself has `Kdf`, the mix
--   functions and the message functions over the primitives of driver/crypto.c, which are a
--   parameter (`Crypto`, with what is relied on in `Laws`); Initiation and Response have the two
--   messages on both sides, Session has `NoiseHandshakeBeginSession`, Peer the device's key and
--   `NOISE_HANDSHAKE`; Device puts the calls together for one device with many peers.
-- - Cookies (driver/cookie.c): the MACs of a handshake message and the cookies under load; the keyed
--   hash and the cipher are a parameter, the rate limiter's answer an argument.
-- - HandshakeRx (driver/receive.c): the handshake queue under load; what Cookies and Handshake do with a
--   message is named by an action.
-- - RxQueue (driver/receive.c): a peer's data packets from their decryption to the network stack, with
--   Counter's replay window and AllowedIps' lookup of the source.
-- - PeerLookup (driver/peerlookup.c, with the lists of driver/containers.h): the table of indices,
--   where each moment at which a thread changes it is a step, and the table of public keys.
-- - PeerSerial (driver/queueing.h, driver/send.c): the queue of peers with work, and the threads of
--   the handshake queue (`PacketHandshakeTxWorker` and its callers) step by step.
-- - SendLimit (driver/send.c): the time at which a handshake message was last sent.
-- - Staging (driver/send.c, driver/device.c): the packets that wait for a key, from
--   `SendNetBufferLists` on, their nonces, `KeepKeyFresh`, padding.
-- - Keypairs (driver/noise.c): the three slots of a peer's session keypairs.
-- - Timers (driver/timers.c, driver/timers.h): a peer's five timers.
-- - Base: what the modules share.
--
-- What a thread does under a lock is one step. Where a call takes a lock twice, or none, and another
-- thread can come between, its moments are steps of their own, in any order, in PeerLookup,
-- PeerSerial, Cookies, Staging, RxQueue, Ratelimiter and Handshake.Device; elsewhere a call is one
-- step. Numbers are unbounded, and the wrap of a machine integer is written out where the code's
-- value can reach it. Loops over lists are structural; the loop that clears the counter's words runs
-- on its own count of rounds. No definition needs fuel.
--
-- Not modelled: the cryptographic primitives, the rings and workers of data packets, the socket,
-- the adapter's glue, memory reclamation, and the programs that configure the driver.
pub mod Base
pub mod AllowedIps
pub mod Cookies
pub mod Counter
pub mod Handshake
pub mod HandshakeRx
pub mod Keypairs
pub mod Obfuscation
pub mod PeerLookup
pub mod PeerSerial
pub mod Ratelimiter
pub mod RxQueue
pub mod SendLimit
pub mod Staging
pub mod Timers
