-- ===== src/Handshake/Response.antt =====
-- driver/noise.c: the second message, `NoiseHandshakeCreateResponse` and
-- `NoiseHandshakeConsumeResponse`.
-- The state is read twice: under the shared lock, and again under the exclusive one. What another
-- thread did in between is an argument, the handshake as it is then.
use amneziawg_nt.Base.{◌&&◌, ℕ, Bool, true, false, Option, none, some, [], if◌then◌else◌}
use amneziawg_nt.Handshake.{
  Bytes, Crypto, Symmetric, Mixer, ◌>>=◌, ◌>>◌, pure, lift, generate_public, mix_dh, mix_psk,
  message_encrypt, message_decrypt, message_ephemeral,
}
use amneziawg_nt.Handshake.Peer.{
  Identity, State, Handshake, zeroed, created_initiation, consumed_initiation, created_response,
  consumed_response,
}
use amneziawg_nt.Handshake.Initiation.{Fresh}

-- `MESSAGE_HANDSHAKE_RESPONSE`, less its type and its MACs.
pub record Response : Type 0 where
  pub sender_index : ℕ
  pub receiver_index : ℕ
  pub unencrypted_ephemeral : Bytes
  pub encrypted_nothing : Bytes

unfoldable pub is_state : State → State → Bool
is_state zeroed zeroed = true
is_state created_initiation created_initiation = true
is_state consumed_initiation consumed_initiation = true
is_state created_response created_response = true
is_state consumed_response consumed_response = true
is_state _ _ = false

abbrev pub finish_response : Handshake → Option Response × Symmetric → Option Response × Handshake
finish_response h (some m, s) = (some m, record h { mixed = s; state = created_response })
finish_response h (none, s) = (none, record h { mixed = s })

-- The copy to the peer, under the second lock.
abbrev pub commit_response :
    State → Response → Option Bytes × Symmetric → Handshake → Option Handshake
commit_response seen m (none, s) h = none
commit_response seen m (some ephemeral, s) h =
    if is_state h.state seen
    then some (record h {
      remote_ephemeral = ephemeral;
      mixed = s;
      remote_index = m.sender_index;
      state = consumed_response;
    })
    else none

module _ (c : Crypto) where
  unfoldable pub write_response : Handshake → Fresh → Mixer Response
  write_response h new = do
    public_key ← lift (generate_public c new.secret)
    ephemeral ← message_ephemeral c public_key
    mix_dh c new.secret h.remote_ephemeral
    mix_dh c new.secret h.remote_static
    key ← mix_psk c h.preshared_key
    encrypted_nothing ← message_encrypt c [] key
    pure record {
      sender_index = new.index;
      receiver_index = h.remote_index;
      unencrypted_ephemeral = ephemeral;
      encrypted_nothing = encrypted_nothing;
    }

  unfoldable pub create_response : Handshake → Fresh → Option Response × Handshake
  unfolding write_response is_state
  create_response h new =
      if is_state h.state consumed_initiation
      then finish_response (record h { ephemeral_private = new.secret })
          (write_response h new h.mixed)
      else (none, h)

  -- The remote's ephemeral key, with the symmetric state after the message.
  unfoldable pub read_response : Identity → Handshake → Response → Mixer Bytes
  read_response i h m = do
    ephemeral ← message_ephemeral c m.unencrypted_ephemeral
    mix_dh c h.ephemeral_private ephemeral
    mix_dh c i.static_private ephemeral
    key ← mix_psk c h.preshared_key
    message_decrypt c m.encrypted_nothing key
    pure ephemeral

  -- From the handshake that the receiver index names, as it is at the first and the second lock.
  unfoldable pub consume_response : Identity → Response → Handshake → Handshake → Option Handshake
  unfolding read_response
  consume_response i m h later =
      if i.has_identity && is_state h.state created_initiation
      then commit_response h.state m (read_response i h m h.mixed) later
      else none
