-- ===== src/Codec/Handle/Requests.antt =====
-- Well-formed requests, from the frame to the answer.
use esp32_p4_bacnet_switches.Base.{
  ℕ, suc, ◌+◌, ◌^◌, ◌≤◌, ◌<◌, ◌≡◌, ◌∙◌, false, true, Bool, Option, none, List, [], ◌∷◌, ◌++◌, some,
  arith, length, drop, drop-append, length-append, append-nil, if◌then◌else◌, leb, ◌&&◌,
}
use esp32_p4_bacnet_switches.Base.Bits.{bit_and_request}
use esp32_p4_bacnet_switches.Codec.Writer.{unsigned_length}
use esp32_p4_bacnet_switches.Codec.Writer.Laws.{
  context_unsigned_octets, context_object_id_octets, unsigned_length_bounds,
}
use esp32_p4_bacnet_switches.Codec.Tags.RoundTrip.{
  decode-context_unsigned_octets, decode-context_object_id_octets, decode_context_object_id-eq,
  length-be_octets,
}
use esp32_p4_bacnet_switches.Codec.State.{DeviceState}
use esp32_p4_bacnet_switches.Codec.Requests.{
  parsed, read_array_index, parse_who_is, parse_read_property, ReadPropertyRequest,
}
use esp32_p4_bacnet_switches.Codec.Frames.Announce.{i_am_frame, encode_i_am-frame}
use esp32_p4_bacnet_switches.Codec.Frames.{encode_read_property_response}
use esp32_p4_bacnet_switches.Codec.Handle.{
  handle_packet, handle_apdu, handle_who_is, handle_read_property, answer, read_property, who_is,
  silent,
}
use esp32_p4_bacnet_switches.Codec.Handle.Local.{
  Delivery, local_frame, to_all, handle_packet-local_frame,
}

-- The octets of an optional array index.
abbrev pub index_octets : Option ℕ → List ℕ
index_octets none = []
index_octets (some index) = context_unsigned_octets 2 index

abbrev pub IsIndex : Option ℕ → Type 0
IsIndex none = Unit {0}
IsIndex (some index) = index < 2 ^ 32

abbrev pub is_present : Option ℕ → Bool
is_present none = false
is_present (some index) = true

abbrev pub index_or_zero : Option ℕ → ℕ
index_or_zero none = 0
index_or_zero (some index) = index

-- What a ReadProperty request asks for: the object, the property, and possibly the array index.
abbrev pub asked : ℕ → ℕ → ℕ → Option ℕ → ReadPropertyRequest
asked object_type inst property index = record {
  object_type = object_type;
  object_instance = inst;
  property_identifier = property;
  has_array_index = is_present index;
  array_index = index_or_zero index;
}

-- The application PDU of a ReadProperty request, with each number in as few octets as it takes:
-- `flags` and `sizes` are the two octets in front, with what the sender can receive.
abbrev pub read_property_apdu : ℕ → ℕ → ℕ → ℕ → ℕ → ℕ → Option ℕ → List ℕ
read_property_apdu flags sizes invoke_id object_type inst property index =
    flags
    ∷ sizes
    ∷ invoke_id
    ∷ 12
    ∷ (context_object_id_octets 0 object_type inst
        ++ (context_unsigned_octets 1 property ++ index_octets index))

length-context_unsigned_octets :
    (tag v : ℕ) → length (context_unsigned_octets tag v) ≡ 1 + unsigned_length v
length-context_unsigned_octets tag v = omega (arith, length-be_octets v (unsigned_length v))

drop-context_unsigned_octets :
    (tag v : ℕ) (rest : List ℕ)
    → drop (1 + unsigned_length v) (context_unsigned_octets tag v ++ rest) ≡ rest
drop-context_unsigned_octets tag v rest =
    rw (← length-context_unsigned_octets tag v) (drop-append (context_unsigned_octets tag v) rest)

length-index_octets : (index : Option ℕ) → length (index_octets index) ≤ 5
length-index_octets none = omega arith
length-index_octets (some index) =
    omega (arith, length-context_unsigned_octets 2 index, unsigned_length_bounds index)

module _ (object_type inst property : ℕ) where
  drop-front :
      (rest : List ℕ)
      → drop (5 + (1 + unsigned_length property)) (
          context_object_id_octets 0 object_type inst
          ++ (context_unsigned_octets 1 property ++ rest))
        ≡ rest
  drop-front rest =
      let behind = 1 + unsigned_length property in
      let steps : 5 + behind ≡ suc (suc (suc (suc (suc behind)))) = omega arith in
      rw steps (drop-context_unsigned_octets 1 property rest)

  -- What stands behind the property is read as the index.
  read_array_index-octets :
      (index : Option ℕ)
      → IsIndex index
      → let payload =
          context_object_id_octets 0 object_type inst
          ++ (context_unsigned_octets 1 property ++ index_octets index) in
        read_array_index payload (5 + (1 + unsigned_length property))
        ≡ parsed (is_present index, index_or_zero index, length payload)
  unfolding read_array_index
  read_array_index-octets none fits = ground (
    arith,
    length-append (context_unsigned_octets 1 property) [],
    length-context_unsigned_octets 1 property,
  )
  read_array_index-octets (some index) fits =
      let value = decode-context_unsigned_octets 2 index [] (omega arith) fits in
      ground (
        arith,
        drop-front (context_unsigned_octets 2 index),
        rw append-nil at value,
        length-append (context_unsigned_octets 1 property) (context_unsigned_octets 2 index),
        length-context_unsigned_octets 1 property,
        length-context_unsigned_octets 2 index,
      )

  parse_read_property-octets :
      (index : Option ℕ)
      → object_type < 1024
      → inst < 4194304
      → property < 2 ^ 32
      → IsIndex index
      → parse_read_property (
          context_object_id_octets 0 object_type inst
          ++ (context_unsigned_octets 1 property ++ index_octets index))
        ≡ parsed (asked object_type inst property index)
  unfolding parse_read_property
  parse_read_property-octets index small_type small_inst small fits =
      let o = context_object_id_octets 0 object_type inst in
      let u = context_unsigned_octets 1 property in
      let i = index_octets index in
      let object =
        decode_context_object_id-eq (o ++ (u ++ i))
        ∙ decode-context_object_id_octets 0 object_type inst (u ++ i) (omega arith) small_type
            small_inst in
      let value = decode-context_unsigned_octets 1 property i (omega arith) small in
      ground (arith, object, value, read_array_index-octets index fits)

-- A ReadProperty request on the local network, with or without an array index, for an object type
-- below 1024, an instance below 4194304 and a 32-bit property and index, is answered under its
-- invoke id with the encoder's ReadProperty response to exactly that request. It may come unicast
-- or broadcast, with or without the global broadcast destination and any hop count, with any of the
-- three low bits of the control octet and no source address; the request's first octet is below 4,
-- so it is not segmented, its second one is anything, and its numbers stand in as few octets as
-- they take.
pub handle_packet-read_property :
    (d : Delivery) (flags sizes invoke_id object_type inst property : ℕ) (index : Option ℕ)
    (s : DeviceState) (n : ℕ)
    → d.low_bits < 8
    → flags < 4
    → object_type < 1024
    → inst < 4194304
    → property < 2 ^ 32
    → IsIndex index
    → handle_packet
        (local_frame d (read_property_apdu flags sizes invoke_id object_type inst property index))
        s
        n
      ≡ answer read_property invoke_id
          (encode_read_property_response invoke_id (asked object_type inst property index) s n)
unfolding handle_apdu handle_read_property
handle_packet-read_property d flags sizes invoke_id object_type inst property index s n low
      small_flags small_type small_inst small fits =
    let apdu = read_property_apdu flags sizes invoke_id object_type inst property index in
    let len = length-append (context_unsigned_octets 1 property) (index_octets index) in
    let len' = length-context_unsigned_octets 1 property in
    let bound = unsigned_length_bounds property in
    let bound' = length-index_octets index in
    rw (handle_packet-local_frame s n apdu (omega arith) (omega arith) d low) (
      ground (
        arith,
        bit_and_request flags small_flags,
        parse_read_property-octets object_type inst property index small_type small_inst small fits,
      ))

-- The application PDU of a Who-Is with limits.
abbrev pub who_is_apdu : ℕ → ℕ → List ℕ
who_is_apdu low high =
    0x10 ∷ 0x08 ∷ (context_unsigned_octets 0 low ++ context_unsigned_octets 1 high)

parse_who_is-octets :
    (low high : ℕ)
    → low ≤ high
    → high ≤ 4194303
    → parse_who_is (context_unsigned_octets 0 low ++ context_unsigned_octets 1 high)
      ≡ some (some (low, high))
unfolding parse_who_is
parse_who_is-octets low high h k =
    let u = context_unsigned_octets 0 low in
    let v = context_unsigned_octets 1 high in
    let first = decode-context_unsigned_octets 0 low v (omega arith) (omega arith) in
    let second = decode-context_unsigned_octets 1 high [] (omega arith) (omega arith) in
    let behind = drop-context_unsigned_octets 0 low v in
    let len = length-context_unsigned_octets 0 low in
    let len' = length-context_unsigned_octets 1 high in
    ground (arith, first, rw append-nil at second, behind, len, len', length-append u v)

-- A Who-Is with limits that are in order and at most 4194303, in as few octets as they take, which
-- comes on the local network, unicast or broadcast, with or without the global broadcast
-- destination, with any of the three low bits of the control octet and no source address, is
-- answered, if the response buffer has 25 octets, the device instance is below 4194303 and its
-- vendor identifier has 16 bits, with the octets of the I-Am exactly when the device instance lies
-- within the limits, broadcast if the request came to all; otherwise there is no response.
pub handle_packet-who_is :
    (d : Delivery) (low high : ℕ) (s : DeviceState) (n : ℕ)
    → d.low_bits < 8
    → low ≤ high
    → high ≤ 4194303
    → s.device_instance < 4194303
    → s.vendor_identifier < 65536
    → 25 ≤ n
    → let within = leb low s.device_instance && leb s.device_instance high in
      handle_packet (local_frame d (who_is_apdu low high)) s n ≡ record (silent who_is) {
        response = if within then i_am_frame s (to_all d) else [];
        broadcast_response = within && to_all d;
      }
unfolding handle_apdu handle_who_is
handle_packet-who_is d low high s n small h k instance_small vendor_small room =
    let apdu = who_is_apdu low high in
    let len = length-context_unsigned_octets 0 low in
    let len' = length-context_unsigned_octets 1 high in
    let bounds = unsigned_length_bounds low in
    let bounds' = unsigned_length_bounds high in
    let join = length-append (context_unsigned_octets 0 low) (context_unsigned_octets 1 high) in
    rw (handle_packet-local_frame s n apdu (omega arith) (omega arith) d small) (
      ground (
        arith,
        parse_who_is-octets low high h k,
        encode_i_am-frame s (to_all d) n instance_small vendor_small room,
      ))
