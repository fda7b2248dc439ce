-- ===== src/Cookies/Exchange.antt =====
-- driver/cookie.c: a peer that is asked for a cookie gets through.
use mathlib.Core.Path.{subst}
use amneziawg_nt.Base.{
  sym, ◌∙◌, ap, ℕ, ◌-◌, Bool, true, false, some, ◌∷◌, [], ◌++◌, ◌≡◌, refl, arith, if◌then◌else◌,
}
use amneziawg_nt.Handshake.{Bytes}
use amneziawg_nt.Cookies.{
  open_cookie, store_cookie, address_bytes, compute_mac1, compute_mac2, address_bytes, compute_mac2,
  store_cookie, compute_mac1, Primitives, Deciphers, Checker, Cookie, Packet, Address, MacState,
  valid_mac_but_no_cookie, valid_mac_with_cookie_but_ratelimited, valid_mac_with_cookie,
  CookieMessage, secret_max_age, secret_latency, birthdate_has_expired, equal_memory16,
  precompute_device_keys, precompute_peer_keys, refresh_secret, make_cookie, validate_packet,
  add_mac_to_packet, create_message, consume_message,
}

equal_memory16_self : (xs : Bytes) → equal_memory16 xs xs ≡ true
equal_memory16_self [] = refl
equal_memory16_self (x ∷ xs) = ground (arith, equal_memory16_self xs)

-- What an exchange starts from: a peer's cookie and a device's checker, the device's public key, two
-- messages, the peer's source and index, five times, and the device's fresh values.
pub record Start : Type 0 where
  pub cookie : Cookie
  pub checker : Checker
  pub public_key : Bytes
  pub body : Bytes
  pub body' : Bytes
  pub source : Address
  pub index : ℕ
  pub sent_at : ℕ
  pub asked_at : ℕ
  pub taken_at : ℕ
  pub resent_at : ℕ
  pub checked_at : ℕ
  pub nonce : Bytes
  pub secret : Bytes
  pub secret' : Bytes

module _ (c : Primitives) where
  abbrev pub checker_of : Start → Checker
  checker_of x = precompute_device_keys c (some x.public_key) x.checker

  -- The first message, the device's reply, what the peer makes of it, and the second message.
  abbrev pub first : Start → Packet × Cookie
  first x = add_mac_to_packet c x.body (precompute_peer_keys c x.public_key x.cookie) x.sent_at

  abbrev pub reply : Start → CookieMessage × Checker
  reply x = create_message c (first x).0 x.source x.index (checker_of x) x.nonce x.secret x.asked_at

  abbrev pub taken : Start → Bool × Cookie
  taken x = consume_message c (reply x).0 (first x).1 x.taken_at

  abbrev pub second : Start → Packet × Cookie
  second x = add_mac_to_packet c x.body' (taken x).1 x.resent_at

answer :
    (r : Checker) (allowed : Bool)
    → (◌≡◌ {A = MacState}
        (if◌then◌else◌ {A = MacState × Checker} allowed
          (valid_mac_with_cookie, r)
          (valid_mac_with_cookie_but_ratelimited, r)).0
        (if allowed then valid_mac_with_cookie else valid_mac_with_cookie_but_ratelimited))
answer r true = refl
answer r false = refl

-- A new secret leaves the keys.
refresh_keys :
    (r : Checker) (ns : Bytes) (now : ℕ)
    → ((refresh_secret r ns now).cookie_encryption_key ≡ r.cookie_encryption_key)
      × ((refresh_secret r ns now).message_mac1_key ≡ r.message_mac1_key)
unfolding refresh_secret
refresh_keys r ns now = ground arith

module _ (c : Primitives) (o : Deciphers c) where
  -- The peer's cookie after the reply.
  abbrev kept : Start → Cookie
  kept x = record (first c x).1 {
    cookie = (make_cookie c x.source (checker_of c x) x.secret x.asked_at).0;
    birthdate = x.taken_at;
    is_valid = true;
    have_sent_mac1 = false;
  }

  -- A device takes a message whose MACs are made with its key and with the source's present cookie.
  admitted :
      (r : Checker) (k : Cookie) (body : Bytes) (src : Address) (allowed : Bool) (ns : Bytes)
      (t4 t5 : ℕ)
      → k.mac1_key ≡ r.message_mac1_key
      → k.is_valid ≡ true
      → k.cookie ≡ c.keyed r.secret (address_bytes src)
      → birthdate_has_expired k.birthdate (secret_max_age - secret_latency) t4 ≡ false
      → birthdate_has_expired r.secret_birthdate secret_max_age t5 ≡ false
      → (validate_packet c r (add_mac_to_packet c body k t4).0 src true allowed ns t5).0
        ≡ (if allowed then valid_mac_with_cookie else valid_mac_with_cookie_but_ratelimited)
  unfolding add_mac_to_packet validate_packet make_cookie refresh_secret compute_mac1 compute_mac2
  admitted r k body src allowed ns t4 t5 em ev ec fresh young =
      rw (em, ev, ec, fresh, young, equal_memory16_self (c.keyed r.message_mac1_key body))
        (rw
          (equal_memory16_self (
            c.keyed (c.keyed r.secret (address_bytes src))
              (body ++ c.keyed r.message_mac1_key body)))
          (answer r allowed))

  consumed : (x : Start) → taken c x ≡ (true, kept x)
  unfolding precompute_peer_keys precompute_device_keys add_mac_to_packet create_message
      consume_message open_cookie make_cookie
  consumed x =
      let k : Cookie = (first c x).1 in
      let cookie : Bytes = (make_cookie c x.source (checker_of c x) x.secret x.asked_at).0 in
      ap
        (λ key. store_cookie k x.taken_at (
          c.decrypt k.cookie_decryption_key x.nonce k.last_mac1_sent
            (c.encrypt key x.nonce k.last_mac1_sent cookie)))
        (refresh_keys (checker_of c x) x.secret x.asked_at).0
      ∙ ap (store_cookie (first c x).1 x.taken_at)
          (o.decrypt-encrypt _ _ _ (make_cookie c x.source (checker_of c x) x.secret x.asked_at).0)

  -- With a cipher that decrypts what it encrypts, for a peer and a device that have their keys from
  -- the device's public key: the peer's message is authentic, the peer takes the cookie it is sent,
  -- and its next message from the equal_memory16 source passes the check of its cookie, if the cookie is less
  -- than 115 seconds old and the device's secret less than 120 seconds.
  pub cookie_exchange :
      (x : Start) (allowed : Bool)
      → birthdate_has_expired x.taken_at (secret_max_age - secret_latency) x.resent_at ≡ false
      → birthdate_has_expired (reply c x).1.secret_birthdate secret_max_age x.checked_at ≡ false
      → ((validate_packet c
            (checker_of c x)
            (first c x).0
            x.source
            false
            allowed
            x.secret
            x.asked_at).0
          ≡ valid_mac_but_no_cookie)
        × ((taken c x).0 ≡ true)
        × ((validate_packet c
              (reply c x).1
              (second c x).0
              x.source
              true
              allowed
              x.secret'
              x.checked_at).0
            ≡ (if allowed then valid_mac_with_cookie else valid_mac_with_cookie_but_ratelimited))
  unfolding precompute_peer_keys precompute_device_keys add_mac_to_packet create_message
      validate_packet make_cookie
  cookie_exchange x allowed fresh young = (
    rw (equal_memory16_self (c.keyed _ x.body)) refl,
    ap (λ r. r.0) (consumed x),
    subst
        (λ k.
          (validate_packet c (reply c x).1 (add_mac_to_packet c x.body' k.1 x.resent_at).0 x.source
            true allowed x.secret' x.checked_at).0
          ≡ (if allowed then valid_mac_with_cookie else valid_mac_with_cookie_but_ratelimited))
        (sym (consumed x))
        (admitted (reply c x).1 (kept x) x.body' x.source allowed x.secret' x.resent_at x.checked_at
          (sym (refresh_keys (checker_of c x) x.secret x.asked_at).1) refl refl fresh young),
  )
