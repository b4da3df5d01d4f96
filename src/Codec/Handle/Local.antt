-- ===== src/Codec/Handle/Local.antt =====
-- Frames of the local network round an application PDU, and what is left of them.
use esp32_p4_bacnet_switches.Base.{
  ℕ, ◌+◌, ◌/◌, ◌%◌, ◌≤◌, ◌<◌, ◌≡◌, Bool, true, false, ◌||◌, List, ◌∷◌, Option, none, some, arith,
  length, if◌then◌else◌,
}
use esp32_p4_bacnet_switches.Base.Bits.{bit_or_byte, bit_and_eight, bit_and_forty}
use esp32_p4_bacnet_switches.Codec.State.{DeviceState}
use esp32_p4_bacnet_switches.Codec.Npdu.{
  ApplicationNpdu, npdu_ok, header, parse_application_npdu, parse_destination, parse_source,
  parse_payload,
}
use esp32_p4_bacnet_switches.Codec.Handle.{handle_packet, handle_apdu}

-- How a frame comes: in a broadcast or to this address, with or without the global broadcast
-- destination and its hop count, with the three low bits of the control octet, which say whether
-- a reply is expected and how urgent the message is.
pub record Delivery : Type 0 where
  pub broadcast : Bool
  pub hop_count : Option ℕ
  pub low_bits : ℕ

-- The control octet, the destination and the application PDU.
abbrev pub npdu_behind : Option ℕ → ℕ → List ℕ → List ℕ
npdu_behind none low_bits apdu = low_bits ∷ apdu
npdu_behind (some hops) low_bits apdu = (32 + low_bits) ∷ 0xFF ∷ 0xFF ∷ 0 ∷ hops ∷ apdu

abbrev pub is_global : Option ℕ → Bool
is_global none = false
is_global (some hops) = true

abbrev pub local_frame : Delivery → List ℕ → List ℕ
local_frame d apdu =
    let behind = npdu_behind d.hop_count d.low_bits apdu in
    let size = length behind + 5 in
    0x81 ∷ (if d.broadcast then 0x0B else 0x0A) ∷ (size / 256) ∷ (size % 256) ∷ 1 ∷ behind

abbrev pub to_all : Delivery → Bool
to_all d = d.broadcast || is_global d.hop_count

abbrev pub local_npdu : Delivery → List ℕ → ApplicationNpdu
local_npdu d apdu = record {
  apdu = apdu;
  routed_source = false;
  global_broadcast_destination = is_global d.hop_count;
}

module _ (s : DeviceState) (n : ℕ) (apdu : List ℕ) (lo : 2 ≤ length apdu)
    (hi : length apdu ≤ 500) where
  direct :
      (broadcast : Bool) (low_bits : ℕ)
      → low_bits < 8
      → let d : Delivery = record {
        broadcast = broadcast;
        hop_count = none;
        low_bits = low_bits;
      } in
        handle_packet (local_frame d apdu) s n ≡ handle_apdu s (to_all d) (local_npdu d apdu) n
  unfolding handle_packet parse_application_npdu
  direct broadcast low_bits small = ground (
    arith,
    bit_and_eight low_bits small,
    bit_or_byte ((length apdu + 6) / 256) ((length apdu + 6) % 256),
  )

  global_destination :
      (hops low_bits : ℕ)
      → low_bits < 8
      → parse_destination (32 + low_bits) (0xFF ∷ 0xFF ∷ 0 ∷ hops ∷ apdu)
        ≡ header 0xFFFF (hops ∷ apdu)
  unfolding parse_destination
  global_destination hops low_bits small = ground (arith, (bit_and_forty low_bits small).2)

  global_payload :
      (hops low_bits : ℕ)
      → low_bits < 8
      → parse_payload (32 + low_bits) 0xFFFF (hops ∷ apdu)
        ≡ npdu_ok
            (record { apdu = apdu; routed_source = false; global_broadcast_destination = true })
  unfolding parse_payload
  global_payload hops low_bits small = ground (arith, bit_and_forty low_bits small)

  global :
      (broadcast : Bool) (hops low_bits : ℕ)
      → low_bits < 8
      → let d : Delivery = record {
        broadcast = broadcast;
        hop_count = some hops;
        low_bits = low_bits;
      } in
        handle_packet (local_frame d apdu) s n ≡ handle_apdu s (to_all d) (local_npdu d apdu) n
  unfolding handle_packet parse_application_npdu parse_source
  global broadcast hops low_bits small = ground (
    arith,
    bit_and_forty low_bits small,
    global_destination hops low_bits small,
    global_payload hops low_bits small,
    bit_or_byte ((length apdu + 10) / 256) ((length apdu + 10) % 256),
  )

  by_hops :
      (broadcast : Bool) (hop_count : Option ℕ) (low_bits : ℕ)
      → low_bits < 8
      → let d : Delivery = record {
        broadcast = broadcast;
        hop_count = hop_count;
        low_bits = low_bits;
      } in
        handle_packet (local_frame d apdu) s n ≡ handle_apdu s (to_all d) (local_npdu d apdu) n
  by_hops broadcast none low_bits small = direct broadcast low_bits small
  by_hops broadcast (some hops) low_bits small = global broadcast hops low_bits small

  -- Such a frame is handled as its application PDU of 2 to 500 octets, not routed.
  pub handle_packet-local_frame :
      (d : Delivery)
      → d.low_bits < 8
      → handle_packet (local_frame d apdu) s n ≡ handle_apdu s (to_all d) (local_npdu d apdu) n
  handle_packet-local_frame d small = by_hops d.broadcast d.hop_count d.low_bits small
