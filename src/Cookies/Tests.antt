-- ===== src/Cookies/Tests.antt =====
-- Cookies with stand-ins for the primitives, and the theorems on them.
use amneziawg_nt.Base.{
  ℕ, ◌+◌, true, false, Option, none, some, List, [], ◌∷◌, ◌≡◌, refl, arith, if◌then◌else◌, ◌==◌,
  replicate,
}
use amneziawg_nt.Handshake.{Bytes}
use amneziawg_nt.Cookies.{
  Primitives, Deciphers, Cookie, inet, cookie_init, checker_init, valid_mac_but_no_cookie,
  valid_mac_with_cookie, validate_packet, birthdate_has_expired, create_message, make_cookie,
  refresh_secret, precompute_device_keys,
}
use amneziawg_nt.Cookies.Exchange.{Start, checker_of, first, reply, taken, second, cookie_exchange}
use amneziawg_nt.Cookies.Consumed.{IsGenuine, threads_init, cookie-run-IsGenuine}
use amneziawg_nt.Cookies.{
  CookieEvent, send_mac, open_reply, store_reply, cookie_run, cookie_step, open_cookie,
  precompute_peer_keys, add_mac_to_packet,
}

abbrev total : Bytes → ℕ
total [] = 0
total (b ∷ bs) = b + total bs

abbrev open_toy : Bytes → Bytes → Bytes → Bytes → Option Bytes
open_toy key nonce ad [] = none
open_toy key nonce ad (tag ∷ text) =
    if tag == total key + total nonce + total ad then some text else none

abbrev toy : Primitives
toy = record {
  keyed = λ key bytes. (total key + total bytes) ∷ replicate 15 0;
  hash = λ bytes. total bytes ∷ replicate 31 0;
  encrypt = λ key nonce ad text. (total key + total nonce + total ad) ∷ text;
  decrypt = open_toy;
}

toy-Deciphers : Deciphers toy
toy-Deciphers = record { decrypt-encrypt = λ key nonce ad text. ground arith }

abbrev start : Start
start = record {
  cookie = cookie_init;
  checker = checker_init (7 ∷ []) 0;
  public_key = 3 ∷ [];
  body = 1 ∷ 2 ∷ [];
  body' = 4 ∷ [];
  source = inet (10 ∷ []) (20 ∷ []);
  index = 5;
  sent_at = 100;
  asked_at = 200;
  taken_at = 300;
  resent_at = 400;
  checked_at = 500;
  nonce = 9 ∷ [];
  secret = [];
  secret' = [];
}

cookie_exchange_example :
    ((validate_packet toy
        (checker_of toy start)
        (first toy start).0
        (inet (10 ∷ []) (20 ∷ []))
        false
        true
        []
        200).0
      ≡ valid_mac_but_no_cookie)
    × ((taken toy start).0 ≡ true)
    × ((validate_packet toy
          (reply toy start).1
          (second toy start).0
          (inet (10 ∷ []) (20 ∷ []))
          true
          true
          []
          500).0
        ≡ valid_mac_with_cookie)
unfolding birthdate_has_expired create_message make_cookie refresh_secret checker_init
    precompute_device_keys
cookie_exchange_example = cookie_exchange toy toy-Deciphers start true refl refl

abbrev new_cookie : Cookie
unfolding precompute_peer_keys cookie_init
new_cookie = precompute_peer_keys toy start.public_key cookie_init

-- Two threads open one reply before either of them stores it.
abbrev replies : List CookieEvent
replies =
    send_mac start.body start.sent_at
    ∷ open_reply (reply toy start).0
    ∷ open_reply (reply toy start).0
    ∷ store_reply 0 301
    ∷ store_reply 0 302
    ∷ []

cookie-run-IsGenuine_example :
    IsGenuine toy new_cookie.cookie_decryption_key
      (cookie_run toy (threads_init toy new_cookie) replies).macs_sent
      (cookie_run toy (threads_init toy new_cookie) replies).received
      (cookie_run toy (threads_init toy new_cookie) replies).state.cookie
unfolding cookie_run cookie_step add_mac_to_packet open_cookie create_message make_cookie
    refresh_secret checker_init precompute_device_keys precompute_peer_keys cookie_init
    birthdate_has_expired
cookie-run-IsGenuine_example = cookie-run-IsGenuine toy replies new_cookie refl refl refl
