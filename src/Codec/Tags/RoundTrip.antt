-- ===== src/Codec/Tags/RoundTrip.antt =====
-- What the encoders of main/bacnet_codec.c write, its decoders read back.
use esp32_p4_bacnet_switches.Base.{
  ℕ, zero, suc, ◌+◌, ◌*◌, ◌/◌, ◌%◌, ◌^◌, ◌≤◌, ◌<◌, ◌≡◌, refl, true, false, List, ◌∷◌, ◌++◌, some,
  arith, length, length-append, as_u32, bit_or,
}
use esp32_p4_bacnet_switches.Base.Bits.{
  bit_or_byte, bit_or_instance, bit_and_instance, bit_or_half, bit_or_top, bit_and_class,
  bit_and_low_three,
}
use esp32_p4_bacnet_switches.Codec.Writer.{
  Writer, encode_context_unsigned, encode_context_object_id, object_identifier, unsigned_length,
}
use esp32_p4_bacnet_switches.Codec.Writer.Laws.{
  Writes-nil, context_unsigned_octets, context_object_id_octets, be_octets, unsigned_length_bounds,
  Writes-context_unsigned, Writes-context_object_id,
}
use esp32_p4_bacnet_switches.Codec.Tags.{
  decode_tag, decode_octets, decode_context_unsigned, read_be32, ObjectId,
  decode_context_object_id_tag, decode_context_object_id,
}

-- A one-octet context tag over a value of at most four octets.
decode_short_tag :
    (tag len : ℕ) (rest : List ℕ)
    → tag < 15
    → len ≤ 4
    → len ≤ length rest
    → decode_tag ((tag * 16 + 8 + len) ∷ rest)
      ≡ some (record { tag = tag; context = true; size = len; header_length = 1 })
unfolding decode_tag
decode_short_tag tag len rest h k fit =
    ground (arith, bit_and_class (tag * 16 + 8 + len), bit_and_low_three (tag * 16 + 8 + len))

-- One round of the loop.
join_octet : (acc b : ℕ) → acc < 16777216 → b < 256 → bit_or (as_u32 (acc * 256)) b ≡ acc * 256 + b
join_octet acc b h k = ground (arith, bit_or_byte acc b)

octets_one :
    (x v : ℕ) (rest : List ℕ) → v < 256 → decode_octets (x ∷ be_octets v 1 ++ rest) 1 1 0 ≡ v
unfolding decode_octets
octets_one x v rest h = ground (arith, join_octet 0 (v / 1 % 256))

octets_two :
    (x v : ℕ) (rest : List ℕ) → v < 256 ^ 2 → decode_octets (x ∷ be_octets v 2 ++ rest) 1 2 0 ≡ v
unfolding decode_octets
octets_two x v rest h =
    ground (arith, join_octet 0 (v / 256 % 256), join_octet (v / 256 % 256) (v / 1 % 256))

octets_three :
    (x v : ℕ) (rest : List ℕ) → v < 256 ^ 3 → decode_octets (x ∷ be_octets v 3 ++ rest) 1 3 0 ≡ v
unfolding decode_octets
octets_three x v rest h = ground (
  arith,
  join_octet 0 (v / 65536 % 256),
  join_octet (v / 65536 % 256) (v / 256 % 256),
  join_octet (v / 65536 % 256 * 256 + v / 256 % 256) (v / 1 % 256),
)

octets_four :
    (x v : ℕ) (rest : List ℕ) → v < 256 ^ 4 → decode_octets (x ∷ be_octets v 4 ++ rest) 1 4 0 ≡ v
unfolding decode_octets
octets_four x v rest h = ground (
  arith,
  join_octet 0 (v / 16777216 % 256),
  join_octet (v / 16777216 % 256) (v / 65536 % 256),
  join_octet (v / 16777216 % 256 * 256 + v / 65536 % 256) (v / 256 % 256),
  join_octet ((v / 16777216 % 256 * 256 + v / 65536 % 256) * 256 + v / 256 % 256) (v / 1 % 256),
)

octets_lem :
    (n x v : ℕ) (rest : List ℕ)
    → 1 ≤ n
    → n ≤ 4
    → v < 256 ^ n
    → decode_octets (x ∷ be_octets v n ++ rest) 1 n 0 ≡ v
octets_lem zero x v rest lo hi h = absurd (omega arith)
octets_lem (suc zero) x v rest lo hi h = octets_one x v rest h
octets_lem (suc (suc zero)) x v rest lo hi h = octets_two x v rest h
octets_lem (suc (suc (suc zero))) x v rest lo hi h = octets_three x v rest h
octets_lem (suc (suc (suc (suc zero)))) x v rest lo hi h = octets_four x v rest h
octets_lem (suc (suc (suc (suc (suc n))))) x v rest lo hi h = absurd (omega arith)

pub length-be_octets : (v n : ℕ) → length (be_octets v n) ≡ n
length-be_octets v zero = refl
length-be_octets v (suc n) = omega (arith, length-be_octets v n)

-- The octets of a context-tagged unsigned value decode to that value, whatever follows them.
pub decode-context_unsigned_octets :
    (tag v : ℕ) (rest : List ℕ)
    → tag < 15
    → v < 2 ^ 32
    → decode_context_unsigned (context_unsigned_octets tag v ++ rest) tag
      ≡ some (v, 1 + unsigned_length v)
unfolding decode_context_unsigned
decode-context_unsigned_octets tag v rest h k =
    let n = unsigned_length v in
    let (lo, hi, small) = unsigned_length_bounds v in
    let fit : n ≤ length (be_octets v n ++ rest) =
      rw (length-append, length-be_octets) (omega arith) in
    rw (decode_short_tag tag n (be_octets v n ++ rest) h hi fit)
      (ground (arith, octets_lem n (tag * 16 + 8 + n) v rest lo hi (small k)))

read_be32_lem : (x v : ℕ) (rest : List ℕ) → v < 2 ^ 32 → read_be32 (x ∷ be_octets v 4 ++ rest) 1 ≡ v
unfolding read_be32
read_be32_lem x v rest h =
    let b0 = v / 16777216 % 256 in
    let b1 = v / 65536 % 256 in
    let b2 = v / 256 % 256 in
    ground (
      arith,
      bit_or_top b0 (b1 * 65536),
      bit_or_half (b0 * 256 + b1) (b2 * 256),
      bit_or_byte ((b0 * 256 + b1) * 256 + b2) (v / 1 % 256),
    )

pub object_identifier_lem :
    (object_type inst : ℕ)
    → object_type < 1024
    → inst < 4194304
    → object_identifier object_type inst ≡ object_type * 4194304 + inst
unfolding object_identifier
object_identifier_lem object_type inst h k =
    ground (arith, bit_and_instance inst, bit_or_instance object_type (inst % 4194304))

abbrev pub object_id : ℕ → ℕ → ObjectId
object_id object_type inst = record { object_type = object_type; object_instance = inst }

-- So do those of an object identifier.
pub decode-context_object_id_octets :
    (tag object_type inst : ℕ) (rest : List ℕ)
    → tag < 15
    → object_type < 1024
    → inst < 4194304
    → decode_context_object_id_tag (context_object_id_octets tag object_type inst ++ rest) tag
      ≡ some (object_id object_type inst, 5)
unfolding decode_context_object_id_tag
decode-context_object_id_octets tag object_type inst rest h small_type small =
    let v = object_identifier object_type inst in
    let e = object_identifier_lem object_type inst small_type small in
    let read = read_be32_lem (tag * 16 + 8 + 4) v rest (omega arith) in
    rw (decode_short_tag tag 4 (be_octets v 4 ++ rest) h (omega arith) (omega arith))
      (ground (arith, read, e, bit_and_instance v))

-- The two object identifier decoders agree where the first one applies.
pub decode_context_object_id-eq :
    (octets : List ℕ) → decode_context_object_id octets ≡ decode_context_object_id_tag octets 0
unfolding decode_context_object_id decode_context_object_id_tag
decode_context_object_id-eq octets = refl

-- With a writer that has not failed and has room for five octets, encoding a 32-bit value under a
-- context tag below 15 does not fail, keeps what was written, and appends octets that decode,
-- whatever follows them, to the value and their own number.
pub decode-encode_context_unsigned :
    (w : Writer) (tag v : ℕ) (rest : List ℕ)
    → w.failed ≡ false
    → length w.bytes + 5 ≤ w.capacity
    → tag < 15
    → v < 2 ^ 32
    → let u = encode_context_unsigned w tag v in
      (added : List ℕ) × (u.failed ≡ false)
      × (u.bytes ≡ w.bytes ++ added)
      × (decode_context_unsigned (added ++ rest) tag ≡ some (v, length added))
decode-encode_context_unsigned w tag v rest ok room h k =
    let (_, hi, _) = unsigned_length_bounds v in
    let p = Writes-context_unsigned w tag v h (Writes-nil w) in
    let len : length (context_unsigned_octets tag v) ≡ 1 + unsigned_length v =
      omega (arith, length-be_octets v (unsigned_length v)) in
    let fit : length w.bytes + length (context_unsigned_octets tag v) ≤ w.capacity = omega arith in
    (
      context_unsigned_octets tag v,
      p.not_failed ok fit,
      p.appended ok fit,
      rw len (decode-context_unsigned_octets tag v rest h k),
    )

-- With a writer that has not failed and has room for five octets, encoding an object identifier of
-- a 10-bit type and a 22-bit instance under a context tag below 15 does not fail, keeps what was
-- written, and appends octets that decode, whatever follows them, to that type and instance and
-- their own number.
pub decode-encode_context_object_id :
    (w : Writer) (tag object_type inst : ℕ) (rest : List ℕ)
    → w.failed ≡ false
    → length w.bytes + 5 ≤ w.capacity
    → tag < 15
    → object_type < 1024
    → inst < 4194304
    → let u = encode_context_object_id w tag object_type inst in
      (added : List ℕ) × (u.failed ≡ false)
      × (u.bytes ≡ w.bytes ++ added)
      × (decode_context_object_id_tag (added ++ rest) tag
          ≡ some (object_id object_type inst, length added))
decode-encode_context_object_id w tag object_type inst rest ok room h small_type small =
    let p = Writes-context_object_id w tag object_type inst h (Writes-nil w) in
    (
      context_object_id_octets tag object_type inst,
      p.not_failed ok room,
      p.appended ok room,
      decode-context_object_id_octets tag object_type inst rest h small_type small,
    )
