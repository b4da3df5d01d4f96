-- ===== src/Tests/Codec.antt =====
-- The codec at concrete inputs.
use esp32_p4_bacnet_switches.Base.{
  ℕ, ◌+◌, ◌≤◌, ◌≡◌, refl, true, false, List, [], ◌∷◌, ◌++◌, none, some, length, arith, inr, ◌&&◌,
  leb, if◌then◌else◌,
}
use esp32_p4_bacnet_switches.Codec.Writer.{encode_context_unsigned, encode_context_object_id}
use esp32_p4_bacnet_switches.Codec.Tags.{
  DecodedTag, decode_tag, decode_context_unsigned, decode_context_object_id_tag,
  decode_context_object_id, consume_special_tag,
}
use esp32_p4_bacnet_switches.Codec.Tags.Bounds.{decode_tag_bounds}
use esp32_p4_bacnet_switches.Codec.Tags.RoundTrip.{
  decode-encode_context_unsigned, decode-encode_context_object_id, object_id,
}
use esp32_p4_bacnet_switches.Codec.Requests.{parsed}
use esp32_p4_bacnet_switches.Codec.Multiple.{
  max_objects, MultipleRequest, parse_read_property_multiple, parse_objects, parse_object,
  parse_references, parse_reference,
}
use esp32_p4_bacnet_switches.Codec.Multiple.Laws.{WithinTables, parse_read_property_multiple-within}
use esp32_p4_bacnet_switches.Codec.Npdu.{ApplicationNpdu}
use esp32_p4_bacnet_switches.Codec.Arrays.Laws.{is_ok}
use esp32_p4_bacnet_switches.Codec.Objects.{encode_object_property}
use esp32_p4_bacnet_switches.Codec.Objects.Laws.{is_readable, is_ok-encode_object_property}
use esp32_p4_bacnet_switches.Codec.Frames.{encode_read_property_response, encode_cov_notification}
use esp32_p4_bacnet_switches.Codec.Frames.Bounds.{Fits, encode_cov_notification-Fits}
use esp32_p4_bacnet_switches.Codec.Handle.{
  answer, read_property, who_is, silent, handle_packet, handle_apdu,
}
use esp32_p4_bacnet_switches.Codec.Handle.Laws.{handle_packet-fits, handle_apdu-silent}
use esp32_p4_bacnet_switches.Codec.Frames.Announce.{i_am_frame}
use esp32_p4_bacnet_switches.Codec.Handle.Local.{Delivery, local_frame}
use esp32_p4_bacnet_switches.Codec.Handle.Requests.{
  asked, read_property_apdu, who_is_apdu, handle_packet-read_property, handle_packet-who_is,
}
use esp32_p4_bacnet_switches.Tests.Sample.{device, present_value, buffer, multiple}

-- A request as the repository's tests send it, with a reply expected, for one item of a list.
abbrev unicast : Delivery
unicast = record { broadcast = false; hop_count = none; low_bits = 4 }

abbrev global_broadcast : Delivery
global_broadcast = record { broadcast = true; hop_count = some 255; low_bits = 0 }

handle_packet-read_property_example :
    handle_packet (local_frame unicast (read_property_apdu 2 5 9 8 8001 76 (some 3))) device 1482
    ≡ answer read_property 9
        (encode_read_property_response 9 (asked 8 8001 76 (some 3)) device 1482)
handle_packet-read_property_example =
    handle_packet-read_property unicast 2 5 9 8 8001 76 (some 3) device 1482 (omega arith)
      (omega arith) (omega arith) (omega arith) (omega arith) (omega arith)

is_ok-encode_object_property_example :
    is_ok (encode_object_property buffer device present_value) ≡ is_readable device present_value
is_ok-encode_object_property_example = is_ok-encode_object_property buffer device present_value

-- The property of the last witness can be read.
present_value-is_readable : is_readable device present_value ≡ true
unfolding is_readable
present_value-is_readable = refl

handle_packet-fits_example :
    length
      (handle_packet
        (local_frame unicast (read_property_apdu 0 5 9 3 2 85 none))
        device
        20).response
    ≤ 20
handle_packet-fits_example =
    handle_packet-fits (local_frame unicast (read_property_apdu 0 5 9 3 2 85 none)) device 20

handle_packet-who_is_example :
    let inst = device.device_instance in
    let within = leb 8000 inst && leb inst 9000 in
    handle_packet (local_frame global_broadcast (who_is_apdu 8000 9000)) device 1482
    ≡ record (silent who_is) {
      response = if within then i_am_frame device true else [];
      broadcast_response = within && true;
    }
handle_packet-who_is_example =
    handle_packet-who_is global_broadcast 8000 9000 device 1482 (omega arith) (omega arith)
      (omega arith) (omega arith) (omega arith) (omega arith)

-- The device is within those limits.
device_within : (leb 8000 device.device_instance && leb device.device_instance 9000) ≡ true
device_within = refl

decode-encode_context_unsigned_example :
    let u = encode_context_unsigned buffer 2 1000 in
    (added : List ℕ) × (u.failed ≡ false)
    × (u.bytes ≡ buffer.bytes ++ added)
    × (decode_context_unsigned (added ++ (5 ∷ [])) 2 ≡ some (1000, length added))
decode-encode_context_unsigned_example =
    decode-encode_context_unsigned buffer 2 1000 (5 ∷ []) refl (omega arith) (omega arith)
      (omega arith)

decode-encode_context_object_id_example :
    let u = encode_context_object_id buffer 1 8 8001 in
    (added : List ℕ) × (u.failed ≡ false)
    × (u.bytes ≡ buffer.bytes ++ added)
    × (decode_context_object_id_tag (added ++ []) 1 ≡ some (object_id 8 8001, length added))
decode-encode_context_object_id_example =
    decode-encode_context_object_id buffer 1 8 8001 [] refl (omega arith) (omega arith)
      (omega arith) (omega arith)

-- A ReadPropertyMultiple request that is parsed.
abbrev one_object : MultipleRequest
one_object = record {
  references = present_value ∷ [];
  objects = record { object_id = object_id 3 2; reference_start = 0; reference_count = 1 } ∷ [];
}

parse_multiple : parse_read_property_multiple multiple ≡ parsed one_object
unfolding parse_read_property_multiple parse_objects parse_object decode_context_object_id
    consume_special_tag parse_references parse_reference decode_context_unsigned
parse_multiple = refl

parse_read_property_multiple-within_example :
    WithinTables one_object
    × (1 ≤ length one_object.objects)
    × (length one_object.objects ≤ max_objects)
parse_read_property_multiple-within_example =
    parse_read_property_multiple-within multiple parse_multiple

-- A Simple-ACK of a COV notification, through a router.
abbrev routed_ack : ApplicationNpdu
routed_ack = record {
  apdu = 0x20 ∷ 0x07 ∷ 0x01 ∷ [];
  routed_source = true;
  global_broadcast_destination = false;
}

handle_apdu-silent_example : (handle_apdu device false routed_ack 1482).response ≡ []
handle_apdu-silent_example = handle_apdu-silent device 1482 false routed_ack (inr refl) refl refl

encode_cov_notification-Fits_example : Fits 1482 (encode_cov_notification device 1 7 60 true 3 1482)
encode_cov_notification-Fits_example = encode_cov_notification-Fits device 1 7 60 true 3 1482

abbrev long_octets : List ℕ
long_octets = 0x29 ∷ 0x05 ∷ []

abbrev long_tag : DecodedTag
long_tag = record { tag = 2; context = true; size = 1; header_length = 1 }

decode_long_tag : decode_tag long_octets ≡ some long_tag
unfolding decode_tag
decode_long_tag = refl

decode_tag_bounds_example :
    (1 ≤ long_tag.header_length)
    × (long_tag.header_length ≤ 3)
    × (long_tag.header_length + long_tag.size ≤ length long_octets)
decode_tag_bounds_example = decode_tag_bounds long_octets decode_long_tag
