-- ===== src/Cookies.antt =====
-- driver/cookie.c: the two MACs of a handshake message, and the cookies a device under load hands out.
-- A message is its body and its `MESSAGE_MACS`, which stand at its end. The interrupt time, a new
-- secret and a new nonce are arguments. Times stay below 2^63 - 120 seconds, so the signed sum of
-- `BirthdateHasExpired` does not overflow.
pub mod Exchange
pub mod Consumed
mod Tests
use amneziawg_nt.Base.{
  ℕ, zero, suc, ◌+◌, ◌*◌, ◌-◌, Bool, true, false, not, ◌&&◌, ◌≡◌, Option, none, some, List, [], ◌∷◌,
  ◌++◌, replicate, leb, ◌==◌, if◌then◌else◌,
}
use amneziawg_nt.Handshake.{Bytes}

-- `Blake2s` with a key and 16 bytes out, `Blake2s` without a key, and `XChaCha20Poly1305Encrypt` and
-- its inverse, of a key, a nonce, the associated data and a text.
pub record Primitives : Type 0 where
  pub keyed : Bytes → Bytes → Bytes
  pub hash : Bytes → Bytes
  pub encrypt : Bytes → Bytes → Bytes → Bytes → Bytes
  pub decrypt : Bytes → Bytes → Bytes → Bytes → Option Bytes

-- What the code relies on: a text encrypted is decrypted.
pub record Deciphers (c : Primitives) : Type 0 where
  pub decrypt-encrypt :
      (key nonce ad text : Bytes) → c.decrypt key nonce ad (c.encrypt key nonce ad text) ≡ some text

-- `COOKIE_CHECKER`, of a device.
pub record Checker : Type 0 where
  pub secret : Bytes
  pub cookie_encryption_key : Bytes
  pub message_mac1_key : Bytes
  pub secret_birthdate : ℕ

-- `COOKIE`, of a peer.
pub record Cookie : Type 0 where
  pub birthdate : ℕ
  pub is_valid : Bool
  pub cookie : Bytes
  pub have_sent_mac1 : Bool
  pub last_mac1_sent : Bytes
  pub cookie_decryption_key : Bytes
  pub mac1_key : Bytes

-- `COOKIE_MAC_STATE`.
pub data MacState : Type 0 where
  invalid_mac valid_mac_but_no_cookie valid_mac_with_cookie_but_ratelimited : MacState
  valid_mac_with_cookie : MacState

-- A handshake message with its MACs.
pub record Packet : Type 0 where
  pub body : Bytes
  pub mac1 : Bytes
  pub mac2 : Bytes

-- `SOCKADDR`: the bytes of an address and of a port.
pub data Address : Type 0 where
  inet inet6 : Bytes → Bytes → Address
  other_family : Address

-- `MESSAGE_HANDSHAKE_COOKIE`.
pub record CookieMessage : Type 0 where
  pub receiver_index : ℕ
  pub nonce : Bytes
  pub encrypted_cookie : Bytes

-- `COOKIE_SECRET_MAX_AGE` and `COOKIE_SECRET_LATENCY`, in seconds.
abbrev pub secret_max_age : ℕ
secret_max_age = 120

abbrev pub secret_latency : ℕ
secret_latency = 5

-- `BirthdateHasExpired`.
unfoldable pub birthdate_has_expired : ℕ → ℕ → ℕ → Bool
birthdate_has_expired birthdate seconds now = leb (birthdate + seconds * 10000000) now

-- `CryptoEqualMemory16`.
abbrev pub equal_memory16 : Bytes → Bytes → Bool
equal_memory16 [] [] = true
equal_memory16 [] (y ∷ ys) = false
equal_memory16 (x ∷ xs) [] = false
equal_memory16 (x ∷ xs) (y ∷ ys) = x == y && equal_memory16 xs ys

abbrev pub cookie_zeros : ℕ → Bytes
cookie_zeros n = replicate n 0

-- "mac1----" and "cookie--".
abbrev pub mac1_key_label : Bytes
mac1_key_label = 109 ∷ 97 ∷ 99 ∷ 49 ∷ 45 ∷ 45 ∷ 45 ∷ 45 ∷ []

abbrev pub cookie_key_label : Bytes
cookie_key_label = 99 ∷ 111 ∷ 111 ∷ 107 ∷ 105 ∷ 101 ∷ 45 ∷ 45 ∷ []

-- What `MakeCookie` hashes of an address.
abbrev pub address_bytes : Address → Bytes
address_bytes (inet addr port) = addr ++ port
address_bytes (inet6 addr port) = addr ++ port
address_bytes other_family = []

-- `CookieCheckerInit`; the keys are computed later.
unfoldable pub checker_init : Bytes → ℕ → Checker
checker_init secret now = record {
  secret = secret;
  cookie_encryption_key = cookie_zeros 32;
  message_mac1_key = cookie_zeros 32;
  secret_birthdate = now;
}

-- `CookieInit`.
unfoldable pub cookie_init : Cookie
cookie_init = record {
  birthdate = 0;
  is_valid = false;
  cookie = cookie_zeros 16;
  have_sent_mac1 = false;
  last_mac1_sent = cookie_zeros 16;
  cookie_decryption_key = cookie_zeros 32;
  mac1_key = cookie_zeros 32;
}

-- The secret that `MakeCookie` uses: a new one once the old one is too old.
unfoldable pub refresh_secret : Checker → Bytes → ℕ → Checker
refresh_secret k new_secret now =
    if birthdate_has_expired k.secret_birthdate secret_max_age now
    then record k { secret = new_secret; secret_birthdate = now }
    else k

abbrev pub store_cookie : Cookie → ℕ → Option Bytes → Bool × Cookie
store_cookie k now none = (false, k)
store_cookie k now (some cookie) =
    (true, record k { cookie = cookie; birthdate = now; is_valid = true; have_sent_mac1 = false })

module _ (c : Primitives) where
  unfoldable pub precompute_key : Bytes → Bytes → Bytes
  precompute_key public_key label = c.hash (label ++ public_key)

  -- `CookieCheckerPrecomputeDeviceKeys`, from the device's public key if it has one.
  unfoldable pub precompute_device_keys : Option Bytes → Checker → Checker
  unfolding precompute_key
  precompute_device_keys (some public_key) k = record k {
    cookie_encryption_key = precompute_key public_key cookie_key_label;
    message_mac1_key = precompute_key public_key mac1_key_label;
  }
  precompute_device_keys none k = record k {
    cookie_encryption_key = cookie_zeros 32;
    message_mac1_key = cookie_zeros 32;
  }

  -- `CookieCheckerPrecomputePeerKeys`.
  unfoldable pub precompute_peer_keys : Bytes → Cookie → Cookie
  unfolding precompute_key
  precompute_peer_keys remote_static k = record k {
    cookie_decryption_key = precompute_key remote_static cookie_key_label;
    mac1_key = precompute_key remote_static mac1_key_label;
  }

  unfoldable pub compute_mac1 : Bytes → Bytes → Bytes
  compute_mac1 body key = c.keyed key body

  unfoldable pub compute_mac2 : Bytes → Bytes → Bytes → Bytes
  compute_mac2 body mac1 cookie = c.keyed cookie (body ++ mac1)

  unfoldable pub make_cookie : Address → Checker → Bytes → ℕ → Bytes × Checker
  unfolding refresh_secret
  make_cookie src k new_secret now =
      let k' = refresh_secret k new_secret now in (c.keyed k'.secret (address_bytes src), k')

  -- After the first MAC, with the cookie; `allowed` is what `RatelimiterAllow` answers.
  abbrev pub check_cookie : Packet → Bool → Bytes × Checker → MacState × Checker
  check_cookie p allowed (cookie, k) =
      if equal_memory16 (compute_mac2 p.body p.mac1 cookie) p.mac2
      then if allowed
        then (valid_mac_with_cookie, k)
        else (valid_mac_with_cookie_but_ratelimited, k)
      else (valid_mac_but_no_cookie, k)

  unfoldable pub validate_packet :
      Checker → Packet → Address → Bool → Bool → Bytes → ℕ → MacState × Checker
  unfolding make_cookie compute_mac1 compute_mac2
  validate_packet k p src check allowed new_secret now =
      if equal_memory16 (compute_mac1 p.body k.message_mac1_key) p.mac1
      then if check
        then check_cookie p allowed (make_cookie src k new_secret now)
        else (valid_mac_but_no_cookie, k)
      else (invalid_mac, k)

  -- `CookieAddMacToPacket`; the time is read once for the cookie's age.
  unfoldable pub add_mac_to_packet : Bytes → Cookie → ℕ → Packet × Cookie
  unfolding compute_mac1 compute_mac2
  add_mac_to_packet body k now =
      let mac1 = compute_mac1 body k.mac1_key in
      let mac2 =
        if k.is_valid
          && not (birthdate_has_expired k.birthdate (secret_max_age - secret_latency) now)
        then compute_mac2 body mac1 k.cookie
        else cookie_zeros 16 in
      (
        record { body = body; mac1 = mac1; mac2 = mac2 },
        record k { last_mac1_sent = mac1; have_sent_mac1 = true },
      )

  -- `CookieMessageCreate`, for a packet, its source and its sender's index.
  unfoldable pub create_message :
      Packet → Address → ℕ → Checker → Bytes → Bytes → ℕ → CookieMessage × Checker
  unfolding make_cookie
  create_message p src index k new_nonce new_secret now =
      let (cookie, k') = make_cookie src k new_secret now in
      (
        record {
          receiver_index = index;
          nonce = new_nonce;
          encrypted_cookie = c.encrypt k'.cookie_encryption_key new_nonce p.mac1 cookie;
        },
        k',
      )

  -- `CookieMessageConsume`, for the peer that the receiver index names: what it does under the shared
  -- lock,
  unfoldable pub open_cookie : CookieMessage → Cookie → Option Bytes
  open_cookie m k =
      if k.have_sent_mac1
      then c.decrypt k.cookie_decryption_key m.nonce k.last_mac1_sent m.encrypted_cookie
      else none

  -- and with `store_cookie` under the exclusive lock, in a call that no other runs into; whether the
  -- cookie is taken.
  unfoldable pub consume_message : CookieMessage → Cookie → ℕ → Bool × Cookie
  unfolding open_cookie
  consume_message m k now = store_cookie k now (open_cookie m k)

-- A peer's cookie, and what the threads hold: cookies opened and not yet stored, by call; the first MACs
-- of all messages sent, and all cookie messages received.
pub record CookieThreads : Type 0 where
  pub state : Cookie
  pub opened : List Bytes
  pub macs_sent : List Bytes
  pub received : List CookieMessage

-- A handshake message is sent; a call of `CookieMessageConsume` reads and decrypts; a call stores.
pub data CookieEvent : Type 0 where
  send_mac : Bytes → ℕ → CookieEvent
  open_reply : CookieMessage → CookieEvent
  store_reply : ℕ → ℕ → CookieEvent

abbrev pub hold_cookie : Option Bytes → List Bytes → List Bytes
hold_cookie none held = held
hold_cookie (some cookie) held = cookie ∷ held

-- What the call at a place holds, and the others.
abbrev pub pick_cookie : ℕ → List Bytes → Option Bytes × List Bytes
pick_cookie i [] = (none, [])
pick_cookie zero (b ∷ bs) = (some b, bs)
pick_cookie (suc i) (b ∷ bs) = let (x, xs) = pick_cookie i bs in (x, b ∷ xs)

module _ (c : Primitives) where
  unfoldable pub cookie_step : CookieThreads → CookieEvent → CookieThreads
  cookie_step s (send_mac body now) = record s {
    state = (add_mac_to_packet c body s.state now).1;
    macs_sent = (add_mac_to_packet c body s.state now).0.mac1 ∷ s.macs_sent;
  }
  cookie_step s (open_reply m) = record s {
    opened = hold_cookie (open_cookie c m s.state) s.opened;
    received = m ∷ s.received;
  }
  cookie_step s (store_reply i now) = record s {
    state = (store_cookie s.state now (pick_cookie i s.opened).0).1;
    opened = (pick_cookie i s.opened).1;
  }

  unfoldable pub cookie_run : CookieThreads → List CookieEvent → CookieThreads
  cookie_run s [] = s
  cookie_run s (e ∷ es) = cookie_run (cookie_step s e) es
