-- ===== src/Handshake.antt =====
-- driver/noise.c: the handshake that agrees on session keys.
-- A byte array is a list of bytes. The primitives of driver/crypto.c are a parameter. `Kdf`, the mix
-- functions and the message functions work on a chaining key and a hash, which stay written when a
-- later step fails.
pub mod Peer
pub mod Initiation
pub mod Response
pub mod Session
mod Steps
mod Messages
pub mod Agreement
pub mod Peering
pub mod Device
mod Kept
mod Change
pub mod Replay
pub mod Sessions
mod Tests
use amneziawg_nt.Base.{
  ℕ, Bool, true, false, ◌&&◌, Option, none, some, List, [], ◌∷◌, ◌++◌, ◌-◌, ◌+◌, ◌%◌, get_or, set,
  replicate, ◌==◌, if◌then◌else◌, ◌≡◌, refl, ap, ◌∙◌,
}

abbrev pub Bytes : Type 0
Bytes = List ℕ

-- `Curve25519` (which fails on a zero result), `Blake2s`, `Blake2s256Hmac` (of data under a key), and
-- `ChaCha20Poly1305Encrypt` and its inverse with the nonce 0, of a key, associated data and a text.
pub record Crypto : Type 0 where
  pub curve25519 : Bytes → Bytes → Option Bytes
  pub blake2s : Bytes → Bytes
  pub hmac : Bytes → Bytes → Bytes
  pub encrypt : Bytes → Bytes → Bytes → Bytes
  pub decrypt : Bytes → Bytes → Bytes → Option Bytes

-- `CryptoIsZero32`.
abbrev pub is_zero : Bytes → Bool
is_zero [] = true
is_zero (b ∷ bs) = b == 0 && is_zero bs

-- `Curve25519GeneratePublic`.
abbrev pub generate_public : Crypto → Bytes → Option Bytes
generate_public c secret = c.curve25519 secret (9 ∷ replicate 31 0)

-- `Curve25519ClampSecret`.
unfoldable pub clamp : Bytes → Bytes
clamp secret =
    let low = get_or secret 0 0 in
    let high = get_or secret 31 0 in set (set secret 0 (low - low % 8)) 31 (high % 64 + 64)

-- What the primitives promise: both sides of an exchange compute one secret, which does not depend
-- on the clamped bits, and a text encrypted is decrypted.
pub record Laws (c : Crypto) : Type 0 where
  pub agree :
      (a b pub_a pub_b : Bytes)
      → generate_public c a ≡ some pub_a
      → generate_public c b ≡ some pub_b
      → c.curve25519 a pub_b ≡ c.curve25519 b pub_a
  pub clamped : (a p : Bytes) → c.curve25519 (clamp a) p ≡ c.curve25519 a p
  pub decrypt-encrypt : (key ad text : Bytes) → c.decrypt key ad (c.encrypt key ad text) ≡ some text

-- `ChainingKey` and `Hash`.
pub record Symmetric : Type 0 where
  pub chaining_key : Bytes
  pub hash : Bytes

-- A step on them that can fail.
abbrev pub Mixer : Type 0 → Type 0
Mixer A = Symmetric → Option A × Symmetric

abbrev and_then : {A B : Type 0} → (A → Mixer B) → Option A × Symmetric → Option B × Symmetric
and_then f (some a, s) = f a s
and_then f (none, s) = (none, s)

infixl 5 ◌>>=◌ ◌>>◌
unfoldable pub ◌>>=◌ : {A B : Type 0} → Mixer A → (A → Mixer B) → Mixer B
◌>>=◌ m f s = and_then f (m s)

unfoldable pub ◌>>◌ : {A B : Type 0} → Mixer A → Mixer B → Mixer B
m >> k = m >>= λ _. k

abbrev pub pure : {A : Type 0} → A → Mixer A
pure a s = (some a, s)

-- The step that fails with what it is given.
abbrev pub lift : {A : Type 0} → Option A → Mixer A
lift o s = (o, s)

-- A chain that succeeds is a step that succeeds and the rest of it.
pub >>=-elim :
    {A B : Type 0} {P : Type 0} (m : Mixer A) (f : A → Mixer B) (s t : Symmetric) (b : B)
    → (m >>= f) s ≡ (some b, t)
    → ((a : A) (s' : Symmetric) → m s ≡ (some a, s') → f a s' ≡ (some b, t) → P)
    → P
unfolding ◌>>=◌
>>=-elim {A} {B} {P} m f s t b h next = go (m s) refl h
  where
    go : (r : Option A × Symmetric) → m s ≡ r → and_then f r ≡ (some b, t) → P
    go (some a, s') e h = next a s' e h
    go (none, s') e h = cc

-- What a chain gives, by what its first step and the rest of it give.
pub >>=-step :
    {A B : Type 0} (m : Mixer A) (f : A → Mixer B) (s s' : Symmetric) (a : A)
    (r : Option B × Symmetric)
    → m s ≡ (some a, s')
    → f a s' ≡ r
    → (m >>= f) s ≡ r
unfolding ◌>>=◌
>>=-step m f s s' a r e h = ap (and_then f) e ∙ h

-- The three keys of `Kdf`, of which a call takes those it has a destination for.
pub record Keys : Type 0 where
  pub first : Bytes
  pub second : Bytes
  pub third : Bytes

module _ (c : Crypto) where
  open c use {curve25519, blake2s, hmac, encrypt, decrypt}

  unfoldable pub kdf : Bytes → Bytes → Keys
  kdf data_bytes chaining_key =
      let secret = hmac data_bytes chaining_key in
      let first = hmac (1 ∷ []) secret in
      let second = hmac (first ++ 2 ∷ []) secret in
      record { first = first; second = second; third = hmac (second ++ 3 ∷ []) secret }

  unfoldable pub mix_hash : Bytes → Mixer Bytes
  mix_hash src s = (some src, record s { hash = blake2s (s.hash ++ src) })

  -- The first two keys: the next chaining key and a message key.
  unfoldable pub mix_key : Bytes → Mixer Bytes
  unfolding kdf
  mix_key secret s =
      let k = kdf secret s.chaining_key in (some k.second, record s { chaining_key = k.first })

  unfoldable pub mix_dh : Bytes → Bytes → Mixer Bytes
  mix_dh secret_key public_key = lift (curve25519 secret_key public_key) >>= mix_key

  unfoldable pub mix_precomputed_dh : Bytes → Mixer Bytes
  mix_precomputed_dh precomputed s =
      if is_zero precomputed then (none, s) else mix_key precomputed s

  unfoldable pub mix_psk : Bytes → Mixer Bytes
  unfolding kdf
  mix_psk psk s =
      let k = kdf psk s.chaining_key in
      (some k.third, record { chaining_key = k.first; hash = blake2s (s.hash ++ k.second) })

  unfoldable pub message_encrypt : Bytes → Bytes → Mixer Bytes
  message_encrypt text key s = mix_hash (encrypt key s.hash text) s

  unfoldable pub message_decrypt : Bytes → Bytes → Mixer Bytes
  message_decrypt cipher key s =
      (lift (decrypt key s.hash cipher) >>= λ text. mix_hash cipher >> pure text) s

  unfoldable pub message_ephemeral : Bytes → Mixer Bytes
  message_ephemeral ephemeral = mix_hash ephemeral >> mix_key ephemeral >> pure ephemeral

  -- `NoiseDriverEntry` and `HandshakeInit`, from the two names.
  unfoldable pub handshake_init : Bytes → Bytes → Bytes → Symmetric
  handshake_init handshake_name identifier_name remote_static =
      let chaining_key = blake2s handshake_name in
      record {
        chaining_key = chaining_key;
        hash = blake2s (blake2s (chaining_key ++ identifier_name) ++ remote_static);
      }
