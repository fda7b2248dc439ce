-- ===== src/Keypairs.antt =====
-- driver/noise.c: the three slots for a peer's session keys.
-- A slot's pointer is the keypair itself, by its number. The spin lock makes each call one step, so
-- the second look under the lock sees what the first one saw; the slots' references that are given
-- up, which free a keypair when no other is left, are a list.
pub mod Balance
pub mod Confirmed
mod Tests
use amneziawg_nt.Base.{ℕ, Bool, true, false, Option, none, some, List, [], ◌∷◌, ◌==◌, if◌then◌else◌}

-- `NOISE_KEYPAIR`: `InternalId`, `IAmTheInitiator` and `Sending.IsValid`.
pub record Keypair : Type 0 where
  pub id : ℕ
  pub initiator : Bool
  pub sending : Bool

-- `NOISE_KEYPAIRS`, and the references given up by `NoiseKeypairPut`.
pub record Keypairs : Type 0 where
  pub current : Option Keypair
  pub previous : Option Keypair
  pub next : Option Keypair
  pub released : List ℕ

-- `NoiseKeypairPut`.
unfoldable pub put : Option Keypair → List ℕ → List ℕ
put none released = released
put (some k) released = k.id ∷ released

-- `NoiseKeypairsClear`.
unfoldable pub clear : Keypairs → Keypairs
clear s = record {
  current = none;
  previous = none;
  next = none;
  released = put s.current (put s.previous (put s.next s.released));
}

-- `AddNewKeypair` for the initiator, by whether there is a next keypair.
abbrev pub add_initiated : Keypairs → Keypair → Option Keypair → Keypairs
add_initiated s new (some next) = record {
  current = some new;
  previous = some next;
  next = none;
  released = put s.previous (put s.current s.released);
}
add_initiated s new none = record {
  current = some new;
  previous = s.current;
  next = none;
  released = put s.previous s.released;
}

unfoldable pub add_new_keypair : Keypairs → Keypair → Keypairs
add_new_keypair s new = if new.initiator then add_initiated s new s.next else record {
  current = s.current;
  previous = none;
  next = some new;
  released = put s.previous (put s.next s.released);
}

-- Whether a slot holds the keypair of a number.
unfoldable pub is_in : ℕ → Option Keypair → Bool
is_in id none = false
is_in id (some k) = k.id == id

-- `NoiseReceivedWithKeypair`.
unfoldable pub received_with_keypair : Keypairs → ℕ → Bool × Keypairs
received_with_keypair s id =
    if is_in id s.next
    then (
      true,
      record {
        current = s.next;
        previous = s.current;
        next = none;
        released = put s.previous s.released;
      },
    )
    else (false, s)

abbrev pub stop_sending : Option Keypair → Option Keypair
stop_sending none = none
stop_sending (some k) = some (record { id = k.id; initiator = k.initiator; sending = false })

-- `NoiseExpireCurrentPeerKeypairs`, the part on the keypairs.
unfoldable pub expire_current : Keypairs → Keypairs
expire_current s = record {
  current = stop_sending s.current;
  previous = s.previous;
  next = stop_sending s.next;
  released = s.released;
}

abbrev pub no_keypairs : Keypairs
no_keypairs = record { current = none; previous = none; next = none; released = [] }

pub data Event : Type 0 where
  add : Keypair → Event
  received : ℕ → Event
  cleared expired : Event

abbrev pub step : Keypairs → Event → Keypairs
step s (add k) = add_new_keypair s k
step s (received id) = (received_with_keypair s id).1
step s cleared = clear s
step s expired = expire_current s

abbrev pub run : Keypairs → List Event → Keypairs
run s [] = s
run s (e ∷ es) = run (step s e) es
