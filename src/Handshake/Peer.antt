-- ===== src/Handshake/Peer.antt =====
-- driver/noise.c: the device's own key, and a peer's handshake.
use amneziawg_nt.Base.{
  ℕ, Bool, true, false, Option, none, some, [], ◌∷◌, replicate, ltb, ◌==◌, if◌then◌else◌,
}
use amneziawg_nt.Handshake.{Bytes, Crypto, Symmetric, generate_public, clamp}

-- `NOISE_STATIC_IDENTITY`.
pub record Identity : Type 0 where
  pub static_public : Bytes
  pub static_private : Bytes
  pub has_identity : Bool

-- `NOISE_HANDSHAKE_STATE`.
pub data State : Type 0 where
  zeroed created_initiation consumed_initiation created_response consumed_response : State

-- `NOISE_HANDSHAKE`; `mixed` is `ChainingKey` and `Hash`.
pub record Handshake : Type 0 where
  pub state : State
  pub last_initiation_consumption : ℕ
  pub ephemeral_private : Bytes
  pub remote_static : Bytes
  pub remote_ephemeral : Bytes
  pub precomputed_static_static : Bytes
  pub preshared_key : Bytes
  pub mixed : Symmetric
  pub latest_timestamp : Bytes
  pub remote_index : ℕ

abbrev pub zeros : ℕ → Bytes
zeros n = replicate n 0

abbrev pub no_symmetric : Symmetric
no_symmetric = record { chaining_key = zeros 32; hash = zeros 32 }

-- `HandshakeZero`.
unfoldable pub zero_handshake : Handshake → Handshake
zero_handshake h = record h {
  ephemeral_private = zeros 32;
  remote_ephemeral = zeros 32;
  mixed = no_symmetric;
  remote_index = 0;
  state = zeroed;
}

-- `memcmp(a, b) < 0`, on arrays of one length.
abbrev pub bytes_lt : Bytes → Bytes → Bool
bytes_lt [] [] = false
bytes_lt [] (y ∷ ys) = true
bytes_lt (x ∷ xs) [] = false
bytes_lt (x ∷ xs) (y ∷ ys) = if x == y then bytes_lt xs ys else ltb x y

-- An exchange that fails leaves 32 zero bytes.
abbrev pub or_zeros : Option Bytes → Bytes
or_zeros (some secret) = secret
or_zeros none = zeros 32

abbrev pub is_some : Option Bytes → Bool
is_some (some secret) = true
is_some none = false

module _ (c : Crypto) where
  -- `NoiseSetStaticIdentityPrivateKey`: the public key is made from the key as it is given.
  unfoldable pub set_static_private_key : Bytes → Identity
  set_static_private_key private_key =
      let public_key = generate_public c private_key in
      record {
        static_public = or_zeros public_key;
        static_private = clamp private_key;
        has_identity = is_some public_key;
      }

  -- `NoisePrecomputeStaticStatic`.
  unfoldable pub precompute_static_static : Identity → Handshake → Handshake
  precompute_static_static i h = record h {
    precomputed_static_static =
        if i.has_identity
        then or_zeros (c.curve25519 i.static_private h.remote_static)
        else zeros 32;
  }

  -- `NoiseHandshakeInit`.
  unfoldable pub init_handshake : Identity → Bytes → Option Bytes → Handshake
  unfolding precompute_static_static
  init_handshake i public_key preshared_key = precompute_static_static i record {
    state = zeroed;
    last_initiation_consumption = 0;
    ephemeral_private = zeros 32;
    remote_static = public_key;
    remote_ephemeral = zeros 32;
    precomputed_static_static = zeros 32;
    preshared_key = or_zeros preshared_key;
    mixed = no_symmetric;
    latest_timestamp = zeros 12;
    remote_index = 0;
  }

-- `NoiseStaticIdentityClear`.
unfoldable pub clear_identity : Identity → Identity
clear_identity i = record {
  static_public = zeros 32;
  static_private = zeros 32;
  has_identity = false;
}

-- The device's peers: `PubkeyHashtableLookup`, and each peer's handshake by the peer's number.
pub record Peers : Type 0 where
  pub find : Bytes → Option ℕ
  pub handshake : ℕ → Handshake

-- The peers where one handshake has been written.
unfoldable pub put_handshake : Peers → ℕ → Handshake → Peers
put_handshake p id h = record p {
  handshake = λ other. if other == id then h else p.handshake other;
}
