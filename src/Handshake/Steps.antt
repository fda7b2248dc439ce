-- ===== src/Handshake/Steps.antt =====
-- driver/noise.c: what the steps of a message do to the symmetric state of its two ends.
use amneziawg_nt.Base.{Option, some, ◌≡◌, refl, sym, ap, ◌∙◌}
use amneziawg_nt.Handshake.{
  Bytes, Crypto, Laws, Symmetric, ◌>>=◌, ◌>>◌, >>=-step, pure, lift, generate_public, mix_hash,
  mix_key, mix_dh, mix_precomputed_dh, mix_psk, message_encrypt, message_decrypt, message_ephemeral,
}
use amneziawg_nt.Handshake.Peer.{Identity, Handshake}
use amneziawg_nt.Handshake.Initiation.{Initiation, open_initiation, read_timestamp}
use amneziawg_nt.Handshake.Response.{Response, read_response}

module _ (c : Crypto) where
  pub open-initiation_at :
      (b : Identity) (m : Initiation) (s s2 s3 s4 : Symmetric) (q key sender : Bytes)
      → message_ephemeral c m.unencrypted_ephemeral s ≡ (some q, s2)
      → mix_dh c b.static_private q s2 ≡ (some key, s3)
      → message_decrypt c m.encrypted_static key s3 ≡ (some sender, s4)
      → open_initiation c b m s ≡ (some (record { ephemeral = q; sender = sender }), s4)
  unfolding open_initiation
  open-initiation_at b m s s2 s3 s4 q key sender e1 e2 e3 =
      >>=-step _ _ s s2 q _ e1 (>>=-step _ _ s2 s3 key _ e2 (>>=-step _ _ s3 s4 sender _ e3 refl))

  pub read-timestamp_at :
      (h : Handshake) (m : Initiation) (s s' : Symmetric) (key : Bytes)
      (r : Option Bytes × Symmetric)
      → mix_precomputed_dh c h.precomputed_static_static s ≡ (some key, s')
      → message_decrypt c m.encrypted_timestamp key s' ≡ r
      → read_timestamp c h m s ≡ r
  unfolding read_timestamp
  read-timestamp_at h m s s' key r e1 e2 = >>=-step _ _ s s' key r e1 e2

  pub read-response_at :
      (i : Identity) (h : Handshake) (m : Response) (s s1 s2 s3 s4 s5 : Symmetric)
      (q k1 k2 key nothing : Bytes)
      → message_ephemeral c m.unencrypted_ephemeral s ≡ (some q, s1)
      → mix_dh c h.ephemeral_private q s1 ≡ (some k1, s2)
      → mix_dh c i.static_private q s2 ≡ (some k2, s3)
      → mix_psk c h.preshared_key s3 ≡ (some key, s4)
      → message_decrypt c m.encrypted_nothing key s4 ≡ (some nothing, s5)
      → read_response c i h m s ≡ (some q, s5)
  unfolding read_response ◌>>◌
  read-response_at i h m s s1 s2 s3 s4 s5 q k1 k2 key nothing e1 e2 e3 e4 e5 =
      >>=-step _ _ s s1 q _ e1 (
        >>=-step _ _ s1 s2 k1 _ e2 (
          >>=-step _ _ s2 s3 k2 _ e3
            (>>=-step _ _ s3 s4 key _ e4 (>>=-step _ _ s4 s5 nothing _ e5 refl))))

  pub ephemeral_same :
      (p q : Bytes) (s t : Symmetric) → message_ephemeral c p s ≡ (some q, t) → p ≡ q
  unfolding message_ephemeral mix_hash mix_key ◌>>◌ ◌>>=◌
  ephemeral_same p e s t h = cc

module _ (c : Crypto) (laws : Laws c) where
  open laws use {agree, decrypt-encrypt}

  -- The two ends of an exchange mix the same secret.
  pub mix_dh_agree :
      (a b pub_a pub_b : Bytes) (s : Symmetric)
      → generate_public c a ≡ some pub_a
      → generate_public c b ≡ some pub_b
      → mix_dh c a pub_b s ≡ mix_dh c b pub_a s
  unfolding mix_dh
  mix_dh_agree a b pub_a pub_b s ea eb =
      ap (λ o. (lift o >>= mix_key c) s) (agree a b pub_a pub_b ea eb)

  -- A receiver with the sender's key and hash reads what was encrypted.
  pub message_decrypt-encrypt :
      (text key cipher : Bytes) (s t : Symmetric)
      → message_encrypt c text key s ≡ (some cipher, t)
      → message_decrypt c cipher key s ≡ (some text, t)
  unfolding message_encrypt message_decrypt mix_hash ◌>>◌ ◌>>=◌
  message_decrypt-encrypt text key cipher s t e =
      >>=-step (lift (c.decrypt key s.hash cipher)) (λ x. mix_hash c cipher >> pure x) s s text
        (some text, t) read rest
    where
      at : c.encrypt key s.hash text ≡ cipher
      at = cc

      read : lift (c.decrypt key s.hash cipher) s ≡ (some text, s)
      read =
          ap (λ o. (o, s))
            (ap (λ x. c.decrypt key s.hash x) (sym at) ∙ decrypt-encrypt key s.hash text)

      rest : (mix_hash c cipher >> pure text) s ≡ (some text, t)
      rest = >>=-step (mix_hash c cipher) (λ _. pure text) s t cipher (some text, t) (cc) refl
