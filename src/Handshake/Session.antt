-- ===== src/Handshake/Session.antt =====
-- driver/noise.c: `NoiseHandshakeBeginSession`, which turns a finished handshake into a keypair.
use amneziawg_nt.Base.{ℕ, Bool, true, false, Option, none, some, [], if◌then◌else◌}
use amneziawg_nt.Handshake.{Bytes, Crypto, kdf}
use amneziawg_nt.Handshake.Peer.{
  State, Handshake, created_response, consumed_response, zero_handshake,
}
use amneziawg_nt.Handshake.Response.{is_state}
use amneziawg_nt.Keypairs
use amneziawg_nt.Keypairs.{Keypair, Keypairs}

-- `NOISE_SYMMETRIC_KEY`.
pub record SymmetricKey : Type 0 where
  pub key : Bytes
  pub birthdate : ℕ
  pub is_valid : Bool

-- `NOISE_KEYPAIR` with its keys.
pub record Session : Type 0 where
  pub internal_id : ℕ
  pub i_am_the_initiator : Bool
  pub remote_index : ℕ
  pub sending : SymmetricKey
  pub receiving : SymmetricKey

-- What the session slots look at.
abbrev pub keypair_of : Session → Keypair
keypair_of s = record {
  id = s.internal_id;
  initiator = s.i_am_the_initiator;
  sending = s.sending.is_valid;
}

-- What a call leaves: `Ret`, the handshake, the slots and the keypair that was added to them.
pub record Begun : Type 0 where
  pub begun : Bool
  pub handshake : Handshake
  pub keypairs : Keypairs
  pub session : Option Session

abbrev pub new_key : Bytes → ℕ → SymmetricKey
new_key bytes now = record { key = bytes; birthdate = now; is_valid = true }

abbrev pub is_finished : State → Bool
is_finished created_response = true
is_finished consumed_response = true
is_finished _ = false

abbrev pub with_session : Handshake → Keypairs → Bool → Bool → Session → Begun
with_session h slots in_use indexed s =
    if in_use
    then record {
      begun = indexed;
      handshake = zero_handshake h;
      keypairs = Keypairs.add_new_keypair slots (keypair_of s);
      session = some s;
    }
    else record { begun = false; handshake = zero_handshake h; keypairs = slots; session = none }

module _ (c : Crypto) where
  -- `DeriveKeys` into the two keys, the initiator's sending key first.
  unfoldable pub new_session : Handshake → ℕ → ℕ → Session
  unfolding is_state kdf
  new_session h id now =
      let k = kdf c [] h.mixed.chaining_key in
      let initiator = is_state h.state consumed_response in
      let first = new_key k.first now in
      let second = new_key k.second now in
      record {
        internal_id = id;
        i_am_the_initiator = initiator;
        remote_index = h.remote_index;
        sending = if initiator then first else second;
        receiving = if initiator then second else first;
      }

  -- Whether memory is left, whether the peer is still in use, and whether its entry is in the index
  -- table; the number of the new keypair and the interrupt time.
  unfoldable pub begin_session : Handshake → Keypairs → Bool → Bool → Bool → ℕ → ℕ → Begun
  unfolding new_session zero_handshake
  begin_session h slots memory in_use indexed id now =
      if is_finished h.state
      then if memory
        then with_session h slots in_use indexed (new_session h id now)
        else record { begun = false; handshake = h; keypairs = slots; session = none }
      else record { begun = false; handshake = h; keypairs = slots; session = none }
