-- ===== src/Codec/Npdu.antt =====
-- main/bacnet_codec.c, lines 914-942 and 2037-2109: the BVLC and network headers.
pub mod Laws
use esp32_p4_bacnet_switches.Base.{
  ℕ, zero, suc, ◌+◌, ◌-◌, ◌*◌, ◌/◌, ◌^◌, bit_and, bit_or, Bool, true, false, not, ◌||◌, ◌&&◌, List,
  [], ◌∷◌, ltb, leb, ◌==◌, if◌then◌else◌, length, get_or, set, drop, as_u8, uint16_max,
}
use esp32_p4_bacnet_switches.Codec.Writer.{Writer, write_u8, write_be16}

abbrev pub bvlc_type : ℕ
bvlc_type = 0x81

abbrev pub original_unicast_npdu : ℕ
original_unicast_npdu = 0x0A

abbrev pub original_broadcast_npdu : ℕ
original_broadcast_npdu = 0x0B

abbrev pub destination_specified : ℕ
destination_specified = 0x20

abbrev pub source_specified : ℕ
source_specified = 0x08

abbrev pub reserved_bits : ℕ
reserved_bits = 0x50

abbrev pub network_message : ℕ
network_message = 0x80

abbrev pub global_network : ℕ
global_network = 0xFFFF

unfoldable pub start_bvlc : Writer → Bool → Writer
start_bvlc w broadcast =
    let w1 = write_u8 w bvlc_type in
    let w2 = write_u8 w1 (if broadcast then original_broadcast_npdu else original_unicast_npdu) in
    let w3 = write_u8 (write_be16 w2 0) 1 in
    if broadcast
    then write_u8 (write_u8 (write_be16 (write_u8 w3 destination_specified) global_network) 0) 0xFF
    else write_u8 w3 0

-- The frame that goes out: `[]` stands for a response length of 0, which sends nothing.
unfoldable pub finish_bvlc : Writer → List ℕ
finish_bvlc w =
    if w.failed || ltb uint16_max (length w.bytes)
    then []
    else set (set w.bytes 2 (as_u8 (length w.bytes / 2 ^ 8))) 3 (as_u8 (length w.bytes))

pub record ApplicationNpdu : Type 0 where
  pub apdu : List ℕ
  pub routed_source : Bool
  pub global_broadcast_destination : Bool

pub data NpduParse : Type 0 where
  npdu_ok : ApplicationNpdu → NpduParse
  npdu_ignored npdu_malformed : NpduParse

-- A network number and an address: the number, the address length, what follows the address.
pub record NetworkAddress : Type 0 where
  pub network : ℕ
  pub size : ℕ
  pub behind : List ℕ

abbrev pub network_address : List ℕ → NetworkAddress
network_address rest = record {
  network = bit_or (get_or rest 0 0 * 2 ^ 8) (get_or rest 1 0);
  size = get_or rest 2 0;
  behind = drop (get_or rest 2 0) (drop 3 rest);
}

-- What a destination or a source header leaves: the octets behind it and its network, or a fault.
pub data Header : Type 0 where
  header : ℕ → List ℕ → Header
  bad_header : Header

unfoldable pub parse_destination : ℕ → List ℕ → Header
parse_destination control rest =
    let address = network_address rest in
    if bit_and control destination_specified == 0
    then header 0 rest
    else if ltb (length rest) 3
        || address.network == 0
        || (address.network == global_network && not (address.size == 0))
        || ltb (length (drop 3 rest)) address.size
    then bad_header
    else header address.network address.behind

unfoldable pub parse_source : ℕ → List ℕ → Header
parse_source control rest =
    let address = network_address rest in
    if bit_and control source_specified == 0
    then header 0 rest
    else if ltb (length rest) 3
        || address.network == 0
        || address.network == global_network
        || address.size == 0
        || ltb (length (drop 3 rest)) address.size
    then bad_header
    else header address.network address.behind

-- The hop count behind a destination, and the payload; `rest` is what follows both addresses.
unfoldable pub parse_payload : ℕ → ℕ → List ℕ → NpduParse
parse_payload control destination rest =
    let has_destination = not (bit_and control destination_specified == 0) in
    let payload = if has_destination then drop 1 rest else rest in
    if has_destination && length rest == 0
    then npdu_malformed
    else if has_destination && not (destination == global_network)
    then npdu_ignored
    else if length payload == 0
    then npdu_malformed
    else npdu_ok (record {
      apdu = payload;
      routed_source = not (bit_and control source_specified == 0);
      global_broadcast_destination = has_destination && destination == global_network;
    })

unfoldable pub parse_application_npdu : List ℕ → NpduParse
unfolding parse_destination parse_source parse_payload
parse_application_npdu frame =
    let control = get_or frame 5 0 in
    if not (bit_and control reserved_bits == 0)
    then npdu_malformed
    else if not (bit_and control network_message == 0)
    then npdu_ignored
    else elim (parse_destination control (drop 6 frame)) [
      | bad_header ↦ npdu_malformed
      | header destination behind ↦ elim (parse_source control behind) [
        | bad_header ↦ npdu_malformed
        | header source rest ↦ parse_payload control destination rest
      ]
    ]
