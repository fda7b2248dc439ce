-- ===== src/Obfuscation/Config/Valid.antt =====
-- The obfuscation of a device stays valid, and a refused request does nothing.
use amneziawg_nt.Base.{
  ℕ, ◌+◌, ◌^◌, ◌<◌, ◌≡◌, refl, ap, Bool, true, false, ◌||◌, Option, none, some, List, [], ◌∷◌, ◌++◌,
  suc, replicate, if◌then◌else◌, arith, Bool-cases, ◌⊎◌, inl, inr,
}
use amneziawg_nt.Obfuscation.{JunkPackets, PrefixSizes, IsValidSizes, IsValidJunk}
use amneziawg_nt.Obfuscation.Config.{
  Config, Request, Call, Status, Effect, invalid_parameter, success, other_failure, set_peer,
  status_of, is_success, port_effects, replace_effects, key_effects, has_junk, has_sizes,
  merge_junk_packets, merge_prefix_sizes, validate_junk_packets, validate_prefix_sizes, applied,
  refused_junk, refused_sizes, set_interface, initial, run, set_peers,
}

validate-IsValidSizes : (s : PrefixSizes) → validate_prefix_sizes s ≡ true → IsValidSizes s
unfolding validate_prefix_sizes
validate-IsValidSizes s e = record {
  initiation_fits = ground arith;
  response_fits = ground arith;
  cookie_fits = ground arith;
  data_fits = ground arith;
  initiation_response = ground arith;
  initiation_cookie = ground arith;
  response_cookie = ground arith;
}

validate-IsValidJunk : (j : JunkPackets) → validate_junk_packets j ≡ true → IsValidJunk j
unfolding validate_junk_packets
validate-IsValidJunk j e = record { count_fits = ground arith; in_order = ground arith }

abbrev pub IsValid : Config → Type 0
IsValid c = IsValidJunk c.junk × IsValidSizes c.sizes

applied-IsValid :
    (c : Config) (r : Request)
    → refused_junk c r ≡ false
    → refused_sizes c r ≡ false
    → IsValid c
    → IsValid (applied c r)
unfolding applied refused_junk refused_sizes
applied-IsValid c r e e' h = (junk_part (has_junk r) e, sizes_part (has_sizes r) e')
  where
    junk_part :
        (has : Bool)
        → (if has
            then if validate_junk_packets (merge_junk_packets c.junk r) then false else true
            else false)
          ≡ false
        → IsValidJunk (if has then merge_junk_packets c.junk r else c.junk)
    junk_part true e = validate-IsValidJunk (merge_junk_packets c.junk r) (ground arith)
    junk_part false e = h.0

    sizes_part :
        (has : Bool)
        → (if has
            then if validate_prefix_sizes (merge_prefix_sizes c.sizes r) then false else true
            else false)
          ≡ false
        → IsValidSizes (if has then merge_prefix_sizes c.sizes r else c.sizes)
    sizes_part true e = validate-IsValidSizes (merge_prefix_sizes c.sizes r) (ground arith)
    sizes_part false e = h.1

-- What is refused would not be valid.
refused-IsValid :
    (c : Config) (r : Request)
    → (refused_junk c r || refused_sizes c r) ≡ true
    → ¬ IsValid (applied c r)
unfolding applied refused_junk refused_sizes validate_junk_packets validate_prefix_sizes
refused-IsValid c r e (j, s) = ground (arith, e, j, s)

-- The first status of a failure, and how many peers are set or tried.
abbrev pub first_failure : List Status → Status
first_failure [] = success
first_failure (success ∷ results) = first_failure results
first_failure (invalid_parameter ∷ results) = invalid_parameter
first_failure (other_failure ∷ results) = other_failure

abbrev pub attempted : List Status → ℕ
attempted [] = 0
attempted (success ∷ results) = suc (attempted results)
attempted (invalid_parameter ∷ results) = 1
attempted (other_failure ∷ results) = 1

set_peers_lem :
    (results : List Status)
    → ((set_peers results).0 ≡ first_failure results)
      × ((set_peers results).1 ≡ replicate (attempted results) set_peer)
unfolding set_peers
set_peers_lem [] = (refl, refl)
set_peers_lem (success ∷ results) =
    let (s, es) = set_peers_lem results in (s, ap (λ l. set_peer ∷ l) es)
set_peers_lem (invalid_parameter ∷ results) = (refl, refl)
set_peers_lem (other_failure ∷ results) = (refl, refl)

-- A call whose obfuscation would not be valid, or whose port or key fails, leaves the obfuscation as it
-- is; any other takes over what it gives and goes on to the peers.
abbrev pub Outcome :
    Config → Request → Status → Status → List Status → Status × Config × List Effect → Type 0
Outcome c r port_status key_status peers (s, c', es) =
    ((¬ IsValid (applied c r)) × (s ≡ invalid_parameter) × (c' ≡ c) × (es ≡ []))
    ⊎ ((is_success (status_of r.listen_port port_status) ≡ false)
        × (s ≡ port_status)
        × (c' ≡ c)
        × (es ≡ port_effects r.listen_port))
    ⊎ ((is_success (status_of r.listen_port port_status) ≡ true)
        × (is_success (status_of r.private_key key_status) ≡ false)
        × (s ≡ key_status)
        × (c' ≡ c)
        × (es
            ≡ port_effects r.listen_port
              ++ replace_effects r.replace_peers
              ++ key_effects r.private_key))
    ⊎ IsValid (applied c r)
      × (is_success (status_of r.listen_port port_status) ≡ true)
      × (is_success (status_of r.private_key key_status) ≡ true)
      × (s ≡ first_failure peers)
      × (c' ≡ applied c r)
      × (es
          ≡ (port_effects r.listen_port
              ++ replace_effects r.replace_peers
              ++ key_effects r.private_key)
            ++ replicate (attempted peers) set_peer)

set_interface-Outcome :
    (c : Config) (r : Request) (port_status key_status : Status) (peers : List Status)
    → IsValid c
    → Outcome c r port_status key_status peers (set_interface c r port_status key_status peers)
unfolding set_interface
set_interface-Outcome c r port_status key_status peers h = elim (Bool-cases (refused_junk c r)) [
  | inl bad ↦ rw bad (inl (refused-IsValid c r (ground arith), refl, refl, refl))
  | inr good ↦ elim (Bool-cases (refused_sizes c r)) [
    | inl bad ↦ rw (good, bad) (inl (refused-IsValid c r (ground arith), refl, refl, refl))
    | inr good' ↦ elim (Bool-cases (is_success (status_of r.listen_port port_status))) [
      | inr bad ↦ rw (good, good', bad) (inr (inl (refl, refl, refl, refl)))
      | inl ok ↦ elim (Bool-cases (is_success (status_of r.private_key key_status))) [
        | inr bad ↦ rw (good, good', ok, bad) (inr (inr (inl (refl, refl, refl, refl, refl))))
        | inl ok' ↦
            let (s, es) = set_peers_lem peers in
            let before : List Effect =
              port_effects r.listen_port
              ++ replace_effects r.replace_peers
              ++ key_effects r.private_key in
            rw (good, good', ok, ok')
              (inr (
                inr (
                  inr (
                    applied-IsValid c r good good' h,
                    refl,
                    refl,
                    s,
                    refl,
                    ap (λ l. before ++ l) es,
                  ))))
      ]
    ]
  ]
]

set_interface-IsValid :
    (c : Config) (x : Call)
    → IsValid c
    → IsValid (set_interface c x.request x.port_status x.key_status x.peers).1
set_interface-IsValid c x h =
    elim (set_interface-Outcome c x.request x.port_status x.key_status x.peers h) [
      | inl (bad, s, same, es) ↦ rw same h
      | inr (inl (bad, s, same, es)) ↦ rw same h
      | inr (inr (inl (ok, bad, s, same, es))) ↦ rw same h
      | inr (inr (inr (v, ok, ok', s, new, es))) ↦ rw new v
    ]

run-keeps : (c : Config) (xs : List Call) → IsValid c → IsValid (run c xs)
run-keeps c [] h = h
run-keeps c (x ∷ xs) h =
    run-keeps (set_interface c x.request x.port_status x.key_status x.peers).1 xs
      (set_interface-IsValid c x h)

-- After any requests to a new device, refused and failed ones included: at most 128 junk packets, of
-- a least size no larger than the greatest; each handshake total holds its message, no two totals are
-- equal, and the prefix of data is at most 4096.
pub run-IsValid : (xs : List Call) → IsValid (run initial xs)
run-IsValid xs = run-keeps initial xs (
  record { count_fits = omega arith; in_order = omega arith },
  record {
    initiation_fits = omega arith;
    response_fits = omega arith;
    cookie_fits = omega arith;
    data_fits = omega arith;
    initiation_response = omega arith;
    initiation_cookie = omega arith;
    response_cookie = omega arith;
  },
)

-- A total that is given is the prefix and the message, without a wrap.
abbrev pub IsExact : Option ℕ → ℕ → ℕ → Type 0
IsExact none size total = Unit {0}
IsExact (some prefix) size total = total ≡ prefix + size

abbrev pub IsUshort : Option ℕ → Type 0
IsUshort none = Unit {0}
IsUshort (some x) = x < 2 ^ 16
