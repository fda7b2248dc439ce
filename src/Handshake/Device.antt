-- ===== src/Handshake/Device.antt =====
-- driver/noise.c: one device that runs handshakes with many peers.
-- `driver/receive.c` and `driver/send.c` call these handlers from many threads. A handler that holds the
-- lock of the peer's handshake is one step, and so are the two halves of `NoiseHandshakeConsumeResponse`,
-- of which the second tests that the state is the one that the first saw. The check of
-- `NoiseHandshakeConsumeInitiation` under the shared lock and its copy under the exclusive lock are two
-- steps, between which other calls may come. `indices` is the part of the index table that names
-- handshakes.
use amneziawg_nt.Base.{ℕ, zero, suc, Bool, Option, none, some, List, [], ◌∷◌, ◌==◌, if◌then◌else◌}
use amneziawg_nt.Handshake.{Bytes, Crypto}
use amneziawg_nt.Handshake.Peer.{Identity, Handshake, Peers, put_handshake, zero_handshake}
use amneziawg_nt.Handshake.Initiation.{
  Initiation, Fresh, Checked, create_initiation, check_initiation, copy_initiation,
}
use amneziawg_nt.Handshake.Response.{Response, create_response, consume_response}
use amneziawg_nt.Handshake.Session.{Session, Begun, begin_session}
use amneziawg_nt.Keypairs.{Keypairs}

pub record Device : Type 0 where
  pub identity : Identity
  pub peers : Peers
  pub indices : ℕ → Option ℕ
  pub slots : ℕ → Keypairs
  -- The initiations whose check has passed and whose copy is to come, by call.
  pub waiting : List Checked

-- Calls, each with what it reads from outside: fresh values, interrupt times, and whether memory is
-- left, the peer is in use and its handshake is in the index table.
pub data Event : Type 0 where
  initiate : ℕ → Fresh → Event
  check_first : Initiation → ℕ → Event
  copy_first : ℕ → ℕ → Event
  respond : ℕ → Fresh → Event
  got_response : Response → Event
  begin : ℕ → Bool → Bool → Bool → ℕ → ℕ → Event
  clear : ℕ → Event

-- What a call shows: a peer's initiation with its timestamp that passes its check at a time, or that is
-- copied at a time; a response sent or accepted, a session begun.
pub data Outcome : Type 0 where
  quiet : Outcome
  passed accepted : ℕ → Bytes → ℕ → Outcome
  completed : ℕ → Outcome
  opened : ℕ → Session → Outcome

-- `IndexHashtableRemove` and `IndexHashtableInsert` of a peer's handshake.
abbrev drop_id : ℕ → Option ℕ → Option ℕ
drop_id id none = none
drop_id id (some other) = if other == id then none else some other

unfoldable pub remove_index : (ℕ → Option ℕ) → ℕ → ℕ → Option ℕ
remove_index t id i = drop_id id (t i)

unfoldable pub insert_index : (ℕ → Option ℕ) → ℕ → ℕ → ℕ → Option ℕ
unfolding remove_index
insert_index t id index i = if i == index then some id else remove_index t id i

unfoldable pub write_handshake : Device → ℕ → Handshake → Device
write_handshake d id h = record d { peers = put_handshake d.peers id h }

unfoldable pub wrote_initiation :
    Device → ℕ → Fresh → Option Initiation × Handshake → Device × Outcome
wrote_initiation d id new (some m, h) =
    (record (write_handshake d id h) { indices = insert_index d.indices id new.index }, quiet)
wrote_initiation d id new (none, h) = (write_handshake d id h, quiet)

unfoldable pub checked_initiation : Device → ℕ → Option Checked → Device × Outcome
checked_initiation d checked none = (d, quiet)
checked_initiation d checked (some k) =
    (record d { waiting = k ∷ d.waiting }, passed k.id k.timestamp checked)

-- The initiation of the call at a place, and the others.
abbrev pub pick_checked : ℕ → List Checked → Option Checked × List Checked
pick_checked i [] = (none, [])
pick_checked zero (k ∷ ks) = (some k, ks)
pick_checked (suc i) (k ∷ ks) = let (x, xs) = pick_checked i ks in (x, k ∷ xs)

unfoldable pub took_initiation : Device → ℕ → Option Checked → Device × Outcome
took_initiation d now none = (d, quiet)
took_initiation d now (some k) = (
  write_handshake d k.id (copy_initiation (d.peers.handshake k.id) k now),
  accepted k.id k.timestamp now,
)

unfoldable pub wrote_response : Device → ℕ → Fresh → Option Response × Handshake → Device × Outcome
wrote_response d id new (some m, h) = (
  record (write_handshake d id h) { indices = insert_index d.indices id new.index },
  completed id,
)
wrote_response d id new (none, h) = (write_handshake d id h, quiet)

unfoldable pub took_response : Device → ℕ → Option Handshake → Device × Outcome
took_response d id none = (d, quiet)
took_response d id (some h) = (write_handshake d id h, completed id)

-- `IndexHashtableReplace` gives the handshake's index to the keypair.
unfoldable pub begun_session : Device → ℕ → Begun → Option Session → Device × Outcome
begun_session d id b none = (write_handshake d id b.handshake, quiet)
begun_session d id b (some s) = (
  record (write_handshake d id b.handshake) {
    indices = remove_index d.indices id;
    slots = λ other. if other == id then b.keypairs else d.slots other;
  },
  opened id s,
)

-- `IndexHashtableLookup` of the receiver's index.
unfoldable pub found_response : Crypto → Device → Response → Option ℕ → Device × Outcome
unfolding took_response
found_response c d m none = (d, quiet)
found_response c d m (some id) =
    took_response d id
      (consume_response c d.identity m (d.peers.handshake id) (d.peers.handshake id))

module _ (c : Crypto) (handshake_name identifier_name : Bytes) where
  unfoldable pub step : Device → Event → Device × Outcome
  step d (initiate id new) =
      wrote_initiation d id new
        (create_initiation c handshake_name identifier_name d.identity (d.peers.handshake id) new)
  step d (check_first m checked) =
      checked_initiation d checked
        (check_initiation c handshake_name identifier_name d.identity d.peers m checked)
  step d (copy_first i now) =
      took_initiation (record d { waiting = (pick_checked i d.waiting).1 }) now
        (pick_checked i d.waiting).0
  step d (respond id new) = wrote_response d id new (create_response c (d.peers.handshake id) new)
  step d (got_response m) = found_response c d m (d.indices m.receiver_index)
  step d (begin id memory in_use indexed number now) =
      let b =
        begin_session c (d.peers.handshake id) (d.slots id) memory in_use indexed number now in
      begun_session d id b b.session
  step d (clear id) = (
    record (write_handshake d id (zero_handshake (d.peers.handshake id))) {
      indices = remove_index d.indices id;
    },
    quiet,
  )

  -- The outcomes of a sequence of calls, in order.
  unfoldable pub run : Device → List Event → List Outcome
  run d [] = []
  run d (e ∷ es) = let (d', o) = step d e in o ∷ run d' es
