-- ===== src/Obfuscation/Junk.antt =====
-- driver/send.c, `SendJunkPackets`: the lengths of the junk packets.
-- The random draws and the results of the generator for each packet's bytes are arguments.
use native.Mathlib.Nat.{mul-le-mul_right}
use amneziawg_nt.Base.{
  ℕ, zero, suc, ◌+◌, ◌-◌, ◌*◌, ◌/◌, ◌%◌, ◌^◌, ◌≤◌, ◌<◌, Bool, true, false, ◌&&◌, List, [], ◌∷◌,
  length, take, ◌==◌, if◌then◌else◌, arith, not,
}
use amneziawg_nt.Obfuscation.{JunkPackets, IsValidJunk, max_junk_count}

-- A draw of 16 bits, mapped into the range.
unfoldable pub packet_length : JunkPackets → ℕ → ℕ
packet_length j draw =
    (j.min_size + draw * (j.max_size - j.min_size + 1) % 2 ^ 32 / 2 ^ 16 % 2 ^ 16) % 2 ^ 16

-- The loop: it stops at the first packet that the generator fails for; an empty packet needs none.
unfoldable pub send_each : JunkPackets → List (ℕ × Bool) → List ℕ
send_each j [] = []
send_each j ((draw, generated) ∷ draws) =
    let rest = send_each j draws in
    if not (packet_length j draw == 0) && not generated then [] else packet_length j draw ∷ rest

-- The lengths of the packets sent; `allocated` and `drawn` are the results of the buffer's allocation
-- and of the draw of the lengths.
unfoldable pub send_junk_packets : JunkPackets → Bool → Bool → List (ℕ × Bool) → List ℕ
send_junk_packets j allocated drawn draws =
    if j.count == 0
    then []
    else if not allocated && not (j.max_size == 0)
    then []
    else if drawn
    then send_each j (take j.count draws)
    else []

abbrev pub AllIn : ℕ → ℕ → List ℕ → Type 0
AllIn low high [] = Unit {0}
AllIn low high (x ∷ xs) = (low ≤ x) × (x ≤ high) × AllIn low high xs

-- The draws are `USHORT`s.
abbrev pub AreUshorts : List (ℕ × Bool) → Type 0
AreUshorts [] = Unit {0}
AreUshorts ((draw, generated) ∷ draws) = (draw < 2 ^ 16) × AreUshorts draws

-- A product of a draw and a range, scaled down, stays in the range and does not wrap.
scaled-lt :
    (low draw range : ℕ)
    → draw < 65536
    → low + range ≤ 65536
    → 0 < range
    → (low + draw * range % 2 ^ 32 / 2 ^ 16 % 2 ^ 16) % 2 ^ 16 < low + range
scaled-lt low draw range lt le pos =
    let few : draw * range ≤ 65535 * range = mul-le-mul_right range (omega arith) in omega arith

-- The sum does not wrap.
scaled-le :
    (low draw range : ℕ)
    → draw < 65536
    → low + range ≤ 65536
    → 0 < range
    → low ≤ (low + draw * range % 2 ^ 32 / 2 ^ 16 % 2 ^ 16) % 2 ^ 16
scaled-le low draw range lt le pos =
    let few : draw * range ≤ 65535 * range = mul-le-mul_right range (omega arith) in omega arith

packet_length_bounds :
    (j : JunkPackets) (draw : ℕ)
    → j.min_size ≤ j.max_size
    → j.max_size < 2 ^ 16
    → draw < 2 ^ 16
    → (j.min_size ≤ packet_length j draw) × (packet_length j draw ≤ j.max_size)
unfolding packet_length
packet_length_bounds j draw order fits lt = (
  scaled-le j.min_size draw (j.max_size - j.min_size + 1) (omega arith) (omega arith) (omega arith),
  omega (
    arith,
    scaled-lt j.min_size draw (j.max_size - j.min_size + 1) (omega arith) (omega arith)
        (omega arith),
  ),
)

send_step :
    (j : JunkPackets) (first : ℕ) (rest : List ℕ) (n : ℕ) (stop : Bool)
    → (j.min_size ≤ first) × (first ≤ j.max_size)
    → AllIn j.min_size j.max_size rest × (length rest ≤ n)
    → let lengths : List ℕ = if stop then [] else first ∷ rest in
      AllIn j.min_size j.max_size lengths × (length lengths ≤ suc n)
send_step j first rest n true fits h = (tt, omega arith)
send_step j first rest n false fits h = ((fits.0, fits.1, h.0), omega (arith, h.1))

send_each_bounds :
    (j : JunkPackets) (draws : List (ℕ × Bool))
    → j.min_size ≤ j.max_size
    → j.max_size < 2 ^ 16
    → AreUshorts draws
    → AllIn j.min_size j.max_size (send_each j draws) × (length (send_each j draws) ≤ length draws)
unfolding send_each
send_each_bounds j [] order fits draws_fit = (tt, omega arith)
send_each_bounds j ((draw, generated) ∷ draws) order fits (lt, draws_fit) =
    send_step j (packet_length j draw) (send_each j draws) (length draws)
      (not (packet_length j draw == 0) && not generated) (packet_length_bounds j draw order fits lt)
      (send_each_bounds j draws order fits draws_fit)

take-AreUshorts : (n : ℕ) (draws : List (ℕ × Bool)) → AreUshorts draws → AreUshorts (take n draws)
take-AreUshorts zero draws h = tt
take-AreUshorts (suc n) [] h = tt
take-AreUshorts (suc n) ((draw, generated) ∷ draws) h = (h.0, take-AreUshorts n draws h.1)

length-take_le : {A : Type 0} (n : ℕ) (xs : List A) → length (take n xs) ≤ n
length-take_le zero xs = omega arith
length-take_le (suc n) [] = omega arith
length-take_le (suc n) (x ∷ xs) = omega (arith, length-take_le n xs)

-- With valid junk settings in `USHORT`s, and whatever the allocation and the generators return: no
-- more packets are sent than the count, at most 128, and the length of each lies between the least
-- and the greatest size, so inside the allocated buffer.
pub send_junk_packets_bounds :
    (j : JunkPackets) (allocated drawn : Bool) (draws : List (ℕ × Bool))
    → IsValidJunk j
    → j.max_size < 2 ^ 16
    → AreUshorts draws
    → AllIn j.min_size j.max_size (send_junk_packets j allocated drawn draws)
      × (length (send_junk_packets j allocated drawn draws) ≤ j.count)
      × (length (send_junk_packets j allocated drawn draws) ≤ max_junk_count)
unfolding send_junk_packets
send_junk_packets_bounds j allocated drawn draws h fits draws_fit =
    bounded (j.count == 0) (not allocated && not (j.max_size == 0)) drawn
  where
    sent :
        AllIn j.min_size j.max_size (send_each j (take j.count draws))
        × (length (send_each j (take j.count draws)) ≤ length (take j.count draws))
    sent =
        send_each_bounds j (take j.count draws) h.in_order fits
          (take-AreUshorts j.count draws draws_fit)

    bounded :
        (none_wanted no_buffer drawn : Bool)
        → let lengths : List ℕ =
            if none_wanted
            then []
            else if no_buffer
            then []
            else if drawn
            then send_each j (take j.count draws)
            else [] in
          AllIn j.min_size j.max_size lengths
          × (length lengths ≤ j.count)
          × (length lengths ≤ max_junk_count)
    bounded true no_buffer drawn = (tt, omega arith, omega arith)
    bounded false true drawn = (tt, omega arith, omega arith)
    bounded false false true =
        let few = length-take_le j.count draws in
        (sent.0, omega (arith, sent.1), omega (arith, sent.1, h.count_fits))
    bounded false false false = (tt, omega arith, omega arith)
