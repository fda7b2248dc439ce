-- ===== src/HandshakeRx/Tests.antt =====
-- Handshake messages under load, and the theorem on them.
use amneziawg_nt.Base.{Bool, true, false, List, [], ◌∷◌, ◌≡◌, refl, arith}
use amneziawg_nt.Cookies.{
  MacState, valid_mac_but_no_cookie, valid_mac_with_cookie, birthdate_has_expired,
}
use amneziawg_nt.HandshakeRx.{
  RxMessage, initiation, response, reply_with_cookie, take_initiation, take_response,
  handshake_rx_worker, receive_handshake_packet, under_load, decide,
}
use amneziawg_nt.HandshakeRx.Load.{expected_actions, worker-actions}

abbrev no_cookie : Bool → MacState
no_cookie check = valid_mac_but_no_cookie

abbrev with_cookie : Bool → MacState
with_cookie true = valid_mac_with_cookie
with_cookie false = valid_mac_but_no_cookie

-- A long queue, then a short one, within the second and after it.
abbrev flood : List RxMessage
flood =
    record { kind = initiation; queue_len = 3; time = 100; mac_state = no_cookie }
    ∷ record { kind = initiation; queue_len = 600; time = 200; mac_state = no_cookie }
    ∷ record { kind = initiation; queue_len = 10; time = 5000; mac_state = no_cookie }
    ∷ record { kind = initiation; queue_len = 10; time = 6000; mac_state = with_cookie }
    ∷ record { kind = response; queue_len = 10; time = 10000200; mac_state = no_cookie }
    ∷ []

burst_actions :
    handshake_rx_worker 0 flood
    ≡ take_initiation ∷ reply_with_cookie ∷ reply_with_cookie ∷ take_initiation ∷ take_response ∷ []
unfolding handshake_rx_worker receive_handshake_packet under_load decide birthdate_has_expired
burst_actions = refl

worker-actions_example : handshake_rx_worker 0 flood ≡ expected_actions [] flood
worker-actions_example = worker-actions 1 flood (
  omega arith,
  omega arith,
  (
    omega arith,
    omega arith,
    (omega arith, omega arith, (omega arith, omega arith, (omega arith, omega arith, omega arith))),
  ),
)
