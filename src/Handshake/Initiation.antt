-- ===== src/Handshake/Initiation.antt =====
-- driver/noise.c: the first message, `NoiseHandshakeCreateInitiation` and
-- `NoiseHandshakeConsumeInitiation`.
-- The random secret, the timestamp, the interrupt times and the new index are arguments. The
-- interrupt time stays below 2^63 - 200000, so the signed sum does not overflow.
use amneziawg_nt.Base.{
  ℕ, ◌+◌, ◌-◌, ◌%◌, ◌^◌, Bool, not, ◌||◌, Option, none, some, ltb, leb, if◌then◌else◌,
}
use amneziawg_nt.Handshake.{
  Bytes, Crypto, Symmetric, Mixer, ◌>>=◌, pure, lift, generate_public, mix_dh, mix_precomputed_dh,
  message_encrypt, message_decrypt, message_ephemeral, handshake_init,
}
use amneziawg_nt.Handshake.Peer.{
  Identity, Handshake, Peers, created_initiation, consumed_initiation, bytes_lt,
}

-- `MESSAGE_HANDSHAKE_INITIATION`, less its type and its MACs.
pub record Initiation : Type 0 where
  pub sender_index : ℕ
  pub unencrypted_ephemeral : Bytes
  pub encrypted_static : Bytes
  pub encrypted_timestamp : Bytes

-- What a device gives to a new message: `Curve25519GenerateSecret`, `Tai64nNow` and
-- `IndexHashtableInsert`.
pub record Fresh : Type 0 where
  pub secret : Bytes
  pub timestamp : Bytes
  pub index : ℕ

-- What a receiver has read before it knows the peer, and then.
pub record Opened : Type 0 where
  pub ephemeral : Bytes
  pub sender : Bytes

-- `SYS_TIME_UNITS_PER_SEC / INITIATIONS_PER_SECOND`.
abbrev pub initiation_units : ℕ
initiation_units = 200000

unfoldable pub is_replay : Handshake → Bytes → Bool
is_replay h timestamp = not (bytes_lt h.latest_timestamp timestamp)

unfoldable pub is_flood : Handshake → ℕ → Bool
is_flood h now = ltb now (h.last_initiation_consumption + initiation_units)

-- `(INT64)(Last - Now) < 0` on `UINT64`s.
unfoldable pub later_of : ℕ → ℕ → ℕ
later_of last now = if leb (2 ^ 63) ((last + 2 ^ 64 - now) % 2 ^ 64) then now else last

-- What is copied to the peer.
unfoldable pub accept : Handshake → Opened → Bytes → Symmetric → ℕ → ℕ → Handshake
unfolding later_of
accept h o timestamp s sender_index now = record h {
  remote_ephemeral = o.ephemeral;
  latest_timestamp =
      if bytes_lt h.latest_timestamp timestamp then timestamp else h.latest_timestamp;
  mixed = s;
  remote_index = sender_index;
  last_initiation_consumption = later_of h.last_initiation_consumption now;
  state = consumed_initiation;
}

-- An initiation whose check has passed, with what its call then copies to the peer.
pub record Checked : Type 0 where
  pub id : ℕ
  pub opened : Opened
  pub timestamp : Bytes
  pub mixed : Symmetric
  pub sender_index : ℕ

-- The check under the shared lock, of the handshake as it is then.
abbrev pub admit :
    ℕ → Handshake → Initiation → Opened → ℕ → Option Bytes × Symmetric → Option Checked
admit id h m o checked (none, s) = none
admit id h m o checked (some timestamp, s) =
    if is_replay h timestamp || is_flood h checked
    then none
    else some (record {
      id = id;
      opened = o;
      timestamp = timestamp;
      mixed = s;
      sender_index = m.sender_index;
    })

-- The copy under the exclusive lock, to the handshake as it is then.
abbrev pub copy_initiation : Handshake → Checked → ℕ → Handshake
copy_initiation h k now = accept h k.opened k.timestamp k.mixed k.sender_index now

abbrev pub copied : Peers → ℕ → Option Checked → Option (ℕ × Handshake)
copied p now none = none
copied p now (some k) = some (k.id, copy_initiation (p.handshake k.id) k now)

-- The state is set when the message is complete; a failure keeps what was mixed.
abbrev pub finish_initiation :
    Handshake → Option Initiation × Symmetric → Option Initiation × Handshake
finish_initiation h (some m, s) = (some m, record h { mixed = s; state = created_initiation })
finish_initiation h (none, s) = (none, record h { mixed = s })

module _ (c : Crypto) where
  -- The text of an initiation, from the handshake's symmetric state.
  unfoldable pub write_initiation : Identity → Handshake → Fresh → Mixer Initiation
  write_initiation i h new = do
    public_key ← lift (generate_public c new.secret)
    ephemeral ← message_ephemeral c public_key
    key ← mix_dh c new.secret h.remote_static
    encrypted_static ← message_encrypt c i.static_public key
    key' ← mix_precomputed_dh c h.precomputed_static_static
    encrypted_timestamp ← message_encrypt c new.timestamp key'
    pure record {
      sender_index = new.index;
      unencrypted_ephemeral = ephemeral;
      encrypted_static = encrypted_static;
      encrypted_timestamp = encrypted_timestamp;
    }

  -- Up to the lookup of the peer.
  unfoldable pub open_initiation : Identity → Initiation → Mixer Opened
  open_initiation i m = do
    ephemeral ← message_ephemeral c m.unencrypted_ephemeral
    key ← mix_dh c i.static_private ephemeral
    sender ← message_decrypt c m.encrypted_static key
    pure (record { ephemeral = ephemeral; sender = sender })

  -- From the lookup on.
  unfoldable pub read_timestamp : Handshake → Initiation → Mixer Bytes
  read_timestamp h m = do
    key ← mix_precomputed_dh c h.precomputed_static_static
    message_decrypt c m.encrypted_timestamp key

  abbrev pub with_peer : Peers → Initiation → ℕ → Opened → Symmetric → Option ℕ → Option Checked
  with_peer p m checked o s none = none
  with_peer p m checked o s (some id) =
      admit id (p.handshake id) m o checked (read_timestamp (p.handshake id) m s)

  abbrev pub look_up : Peers → Initiation → ℕ → Option Opened × Symmetric → Option Checked
  look_up p m checked (none, s) = none
  look_up p m checked (some o, s) = with_peer p m checked o s (p.find o.sender)

  -- The names of the protocol, `HandshakeName` and `IdentifierName`.
  module _ (handshake_name identifier_name : Bytes) where
    unfoldable pub create_initiation : Identity → Handshake → Fresh → Option Initiation × Handshake
    unfolding write_initiation
    create_initiation i h new =
        if i.has_identity
        then finish_initiation (record h { ephemeral_private = new.secret })
            (write_initiation i h new
              (handshake_init c handshake_name identifier_name h.remote_static))
        else (none, h)

    -- `NoiseHandshakeConsumeInitiation` up to the end of its check.
    unfoldable pub check_initiation : Identity → Peers → Initiation → ℕ → Option Checked
    unfolding open_initiation
    check_initiation i p m checked =
        if i.has_identity
        then look_up p m checked
            (open_initiation i m (handshake_init c handshake_name identifier_name i.static_public))
        else none

    -- The whole call, when no other call comes between its check and its copy: the peer and its
    -- handshake afterwards, where the message is accepted; else nothing changes.
    unfoldable pub consume_initiation :
        Identity → Peers → Initiation → ℕ → ℕ → Option (ℕ × Handshake)
    unfolding check_initiation
    consume_initiation i p m checked now = copied p now (check_initiation i p m checked)
