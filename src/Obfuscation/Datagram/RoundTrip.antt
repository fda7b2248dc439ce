-- ===== src/Obfuscation/Datagram/RoundTrip.antt =====
-- A handshake message that one side sends is the message that the other side takes out.
use amneziawg_nt.Base.{
  ℕ, ◌+◌, ◌-◌, ◌*◌, ◌/◌, ◌≤◌, ◌≡◌, refl, ap, ◌∙◌, true, false, List, [], ◌∷◌, ◌++◌, length, take,
  drop, ltb, ◌==◌, arith,
}
use amneziawg_nt.Obfuscation.{PrefixSizes, IsValidSizes}
use amneziawg_nt.Obfuscation.Datagram.{
  Kind, initiation, response, cookie, size_of, type_of, total_of, write, align_up, framed, Datagram,
  handshake, message_type, try_handshake, prepare,
}
use amneziawg_nt.Obfuscation.Datagram.Lists.{
  append_assoc, take-append, drop-append, length-take, length-append,
}

size_of-le : (s : PrefixSizes) (kind : Kind) → IsValidSizes s → size_of kind ≤ total_of s kind
size_of-le s initiation h = h.initiation_fits
size_of-le s response h = h.response_fits
size_of-le s cookie h = h.cookie_fits

few : (a b : ℕ) → b ≤ a → ltb a b ≡ false
few a b le = ground arith

equal : (a b : ℕ) → a ≡ b → (a == b) ≡ true
equal a b e = ground arith

regroup : (a b c d : List ℕ) → ((a ++ b) ++ c) ++ d ≡ a ++ ((b ++ c) ++ d)
regroup a b c d = rw (append_assoc a b c, append_assoc a (b ++ c) d) refl

-- Two writes, the second right behind the first.
write-write :
    (n m : ℕ) (first second buffer : List ℕ)
    → n ≤ length buffer
    → n + length first ≡ m
    → drop n (write m second (write n first buffer))
      ≡ (first ++ second) ++ drop (m + length second) (write n first buffer)
unfolding write
write-write n m first second buffer le e =
    rw (take-append m (take n buffer ++ first) (drop (n + length first) buffer) first_length) (
      ap (drop n) (regroup (take n buffer) first second _)
      ∙ drop-append n (take n buffer) ((first ++ second) ++ _) (length-take n buffer le))
  where
    first_length : length (take n buffer ++ first) ≡ m
    first_length = omega (arith, length-append (take n buffer) first, length-take n buffer le)

framed_lem :
    (s : PrefixSizes) (kind : Kind) (random message buffer : List ℕ)
    → IsValidSizes s
    → length buffer ≡ align_up (total_of s kind)
    → length message ≡ size_of kind
    → length random ≡ total_of s kind - size_of kind
    → framed s kind random message buffer ≡ random ++ message
unfolding framed align_up
framed_lem s kind random message buffer h eb em er =
    let le : size_of kind ≤ total_of s kind = size_of-le s kind h in
    let m = (total_of s kind + 3) / 4 * 4 - size_of kind in
    let n = m - (total_of s kind - size_of kind) in
    rw (write-write n m random message buffer (omega (arith, eb)) (omega arith)) (
      take-append (total_of s kind) (random ++ message) _
        (omega (arith, length-append random message)))

prepare_kind :
    (s : PrefixSizes) (kind : Kind) (d : Datagram)
    → IsValidSizes s
    → d.total ≡ total_of s kind
    → d.mapped ≡ true
    → d.offset + d.total ≤ length d.bytes
    → prepare s d ≡ try_handshake s kind d (drop d.offset d.bytes)
unfolding prepare
prepare_kind s initiation d h e m le = ground (arith, h.initiation_fits)
prepare_kind s response d h e m le = ground (arith, h.response_fits, h.initiation_response)
prepare_kind s cookie d h e m le =
    ground (arith, h.cookie_fits, h.initiation_cookie, h.response_cookie)

try_handshake_lem :
    (s : PrefixSizes) (kind : Kind) (d : Datagram) (random message rest : List ℕ)
    → IsValidSizes s
    → length message ≡ size_of kind
    → length random ≡ total_of s kind - size_of kind
    → message_type (message ++ rest) ≡ type_of kind
    → try_handshake s kind d ((random ++ message) ++ rest) ≡ handshake message
unfolding try_handshake
try_handshake_lem s kind d random message rest h em er et =
    let le : size_of kind ≤ total_of s kind = size_of-le s kind h in
    rw
      (
        fits le,
        append_assoc random message rest,
        drop-append (total_of s kind - size_of kind) random (message ++ rest) er,
        same,
      )
      (ap handshake (take-append (size_of kind) message rest em))
  where
    fits :
        size_of kind ≤ total_of s kind
        → ltb (length ((random ++ message) ++ rest)) (total_of s kind) ≡ false
    fits le =
        few (length ((random ++ message) ++ rest)) (total_of s kind)
          (omega (arith, length-append (random ++ message) rest, length-append random message))

    same : (message_type (message ++ rest) == type_of kind) ≡ true
    same = equal (message_type (message ++ rest)) (type_of kind) et

message_type-append :
    (message rest : List ℕ)
    → 4 ≤ length message
    → message_type (message ++ rest) ≡ message_type message
unfolding message_type
message_type-append [] rest le = absurd (omega arith)
message_type-append (a ∷ []) rest le = absurd (omega arith)
message_type-append (a ∷ b ∷ []) rest le = absurd (omega arith)
message_type-append (a ∷ b ∷ c ∷ []) rest le = absurd (omega arith)
message_type-append (a ∷ b ∷ c ∷ d ∷ message) rest le = refl

four-le : (kind : Kind) → 4 ≤ size_of kind
four-le initiation = omega arith
four-le response = omega arith
four-le cookie = omega arith

-- A handshake message of any kind, sent behind a random prefix of the length that the sender's sizes
-- give, and received in one descriptor, at any offset and with any bytes behind it, by a device of
-- the same sizes: it is taken out as the message that was sent. The sizes are valid, the message has
-- its kind's size and type, and the sender's buffer has the size that is allocated.
pub prepare-framed :
    (s : PrefixSizes) (kind : Kind) (random message buffer lead rest : List ℕ)
    → IsValidSizes s
    → length buffer ≡ align_up (total_of s kind)
    → length message ≡ size_of kind
    → length random ≡ total_of s kind - size_of kind
    → message_type message ≡ type_of kind
    → prepare s (record {
      total = length (framed s kind random message buffer);
      offset = length lead;
      bytes = lead ++ (framed s kind random message buffer ++ rest);
      mapped = true;
    })
      ≡ handshake message
prepare-framed s kind random message buffer lead rest h eb em er et =
    let le : size_of kind ≤ total_of s kind = size_of-le s kind h in
    rw
      (
        framed_lem s kind random message buffer h eb em er,
        prepare_kind s kind
            (record {
              total = length (random ++ message);
              offset = length lead;
              bytes = lead ++ ((random ++ message) ++ rest);
              mapped = true;
            })
            h (omega (arith, length-append random message)) refl
            (omega (
              arith,
              length-append lead ((random ++ message) ++ rest),
              length-append (random ++ message) rest,
            )),
        drop-append (length lead) lead ((random ++ message) ++ rest) refl,
      )
      (try_handshake_lem s kind _ random message rest h em er
        (message_type-append message rest (omega (arith, four-le kind)) ∙ et))
