-- ===== src/Codec/Handle.antt =====
-- main/bacnet_codec.h, lines 60-84, and main/bacnet_codec.c, lines 2111-2320: `bacnet_handle_packet`.
-- Each branch on the kind of packet is a function, in the order in which the code tries them.
pub mod Laws
pub mod Local
pub mod Requests
use esp32_p4_bacnet_switches.Base.{
  ℕ, zero, suc, ◌+◌, ◌*◌, ◌^◌, bit_and, bit_or, Bool, true, false, not, ◌||◌, ◌&&◌, List, [], ◌∷◌,
  Option, none, some, ltb, leb, ◌==◌, if◌then◌else◌, length, get_or, drop,
}
use esp32_p4_bacnet_switches.Codec.ObjectType
use esp32_p4_bacnet_switches.Codec.State.{DeviceState, max_request_bytes}
use esp32_p4_bacnet_switches.Codec.Service
use esp32_p4_bacnet_switches.Codec.Npdu.{
  bvlc_type, original_unicast_npdu, original_broadcast_npdu, ApplicationNpdu, npdu_ok, npdu_ignored,
  npdu_malformed, parse_application_npdu,
}
use esp32_p4_bacnet_switches.Codec.Requests.{
  parsed, rejected, parse_who_is, parse_who_has, parse_read_property, parse_subscribe_cov,
  SubscribeCovRequest,
}
use esp32_p4_bacnet_switches.Codec.Multiple.{parse_read_property_multiple}
use esp32_p4_bacnet_switches.Codec.Arrays.{error_class_object, error_unknown_object}
use esp32_p4_bacnet_switches.Codec.Objects.{find_who_has_object, find_binary_input}
use esp32_p4_bacnet_switches.Codec.Frames.{
  encode_i_am, encode_i_have, encode_wrapped_short_apdu, encode_error, abort_segmentation,
  encode_read_property_response, encode_read_property_multiple_response,
}

pub data PacketKind : Type 0 where
  malformed ignored who_is who_has read_property read_property_multiple : PacketKind
  subscribe_cov cov_ack : PacketKind

-- `bacnet_packet_result_t`; `response` is the octets of the response buffer up to its length.
pub record PacketResult : Type 0 where
  pub kind : PacketKind
  pub response : List ℕ
  pub broadcast_response : Bool
  pub invoke_id : ℕ
  pub cov_process_id : ℕ
  pub cov_object_instance : ℕ
  pub cov_lifetime_seconds : ℕ
  pub cov_confirmed : Bool
  pub cov_cancel : Bool
  pub cov_ack_error : Bool

-- A result of some kind with nothing else set.
abbrev pub silent : PacketKind → PacketResult
silent kind = record {
  kind = kind;
  response = [];
  broadcast_response = false;
  invoke_id = 0;
  cov_process_id = 0;
  cov_object_instance = 0;
  cov_lifetime_seconds = 0;
  cov_confirmed = false;
  cov_cancel = false;
  cov_ack_error = false;
}

abbrev pub answer : PacketKind → ℕ → List ℕ → PacketResult
answer kind invoke_id response = record (silent kind) { response = response; invoke_id = invoke_id }

abbrev pub is_broadcast : List ℕ → ApplicationNpdu → Bool
is_broadcast frame npdu =
    get_or frame 1 0 == original_broadcast_npdu || npdu.global_broadcast_destination

-- Whether a device instance lies in the limits of a request; no limits admit every device.
abbrev pub within_limits : Option (ℕ × ℕ) → ℕ → Bool
within_limits none inst = true
within_limits (some (low, high)) inst = leb low inst && leb inst high

unfoldable pub handle_who_is : DeviceState → Bool → List ℕ → ℕ → PacketResult
handle_who_is state broadcast payload response_capacity = elim (parse_who_is payload) [
  | none ↦ silent malformed
  | some limits ↦
      if within_limits limits state.device_instance
      then (record (silent who_is) {
        response = encode_i_am state broadcast response_capacity;
        broadcast_response = broadcast;
      })
      else silent who_is
]

unfoldable pub handle_who_has : DeviceState → Bool → List ℕ → ℕ → PacketResult
handle_who_has state broadcast payload response_capacity = elim (parse_who_has payload) [
  | none ↦ silent malformed
  | some request ↦
      if not (within_limits request.limits state.device_instance)
      then silent who_has
      else elim (find_who_has_object state request.choice) [
        | none ↦ silent who_has
        | some object ↦ record (silent who_has) {
          response =
              encode_i_have state object.object_type object.object_instance object.object_name
                broadcast response_capacity;
          broadcast_response = broadcast;
        }
      ]
]

abbrev pub reject : PacketKind → ℕ → ℕ → ℕ → PacketResult
reject kind invoke_id reason response_capacity =
    answer kind invoke_id (encode_wrapped_short_apdu 0x60 invoke_id reason response_capacity)

unfoldable pub handle_read_property : DeviceState → ℕ → List ℕ → ℕ → PacketResult
handle_read_property state invoke_id payload response_capacity =
    elim (parse_read_property payload) [
      | rejected reason ↦ reject read_property invoke_id reason response_capacity
      | parsed request ↦
          answer read_property invoke_id
            (encode_read_property_response invoke_id request state response_capacity)
    ]

unfoldable pub handle_read_property_multiple : DeviceState → ℕ → List ℕ → ℕ → PacketResult
handle_read_property_multiple state invoke_id payload response_capacity =
    elim (parse_read_property_multiple payload) [
      | rejected reason ↦ reject read_property_multiple invoke_id reason response_capacity
      | parsed request ↦
          answer read_property_multiple invoke_id
            (encode_read_property_multiple_response invoke_id request state response_capacity)
    ]

-- A subscription to an object that is there: what the server is to store, with the acknowledgement.
abbrev pub accept_subscription : ℕ → SubscribeCovRequest → ℕ → PacketResult
accept_subscription invoke_id request response_capacity = record (silent subscribe_cov) {
  response = encode_wrapped_short_apdu 0x20 invoke_id Service.subscribe_cov response_capacity;
  invoke_id = invoke_id;
  cov_process_id = request.process_id;
  cov_object_instance = request.object.object_instance;
  cov_lifetime_seconds = request.lifetime_seconds;
  cov_confirmed = request.confirmed;
  cov_cancel = not request.has_parameters;
}

unfoldable pub handle_subscribe_cov : DeviceState → ℕ → List ℕ → ℕ → PacketResult
handle_subscribe_cov state invoke_id payload response_capacity =
    let unknown = answer subscribe_cov invoke_id (
      encode_error invoke_id Service.subscribe_cov error_class_object error_unknown_object
        response_capacity) in
    elim (parse_subscribe_cov payload) [
      | rejected reason ↦ reject subscribe_cov invoke_id reason response_capacity
      | parsed request ↦
          if not (request.object.object_type == ObjectType.binary_input)
          then unknown
          else elim (find_binary_input state request.object.object_instance) [
            | none ↦ unknown
            | some index ↦ accept_subscription invoke_id request response_capacity
          ]
    ]

-- A confirmed request of at least four octets.
unfoldable pub handle_service : DeviceState → List ℕ → ℕ → PacketResult
handle_service state apdu response_capacity =
    let invoke_id = get_or apdu 2 0 in
    let service = get_or apdu 3 0 in
    let payload = drop 4 apdu in
    if not (bit_and (get_or apdu 0 0) 0x0C == 0)
    then answer malformed invoke_id (abort_segmentation invoke_id response_capacity)
    else if service == Service.read_property
    then handle_read_property state invoke_id payload response_capacity
    else if service == Service.read_property_multiple
    then handle_read_property_multiple state invoke_id payload response_capacity
    else if service == Service.subscribe_cov
    then handle_subscribe_cov state invoke_id payload response_capacity
    else reject ignored invoke_id 9 response_capacity

-- The answer to a confirmed COV notification: an acknowledgement, an error, a reject or an abort.
abbrev pub is_cov_ack : List ℕ → Bool
is_cov_ack apdu =
    length apdu == 3
    && (get_or apdu 0 0 == 0x20)
    && (get_or apdu 2 0 == Service.confirmed_cov_notification)

abbrev pub is_cov_failure : List ℕ → Bool
is_cov_failure apdu =
    let pdu_type = if ltb 0 (length apdu) then bit_and (get_or apdu 0 0) 0xF0 else 0 in
    (leb 3 (length apdu)
      && (pdu_type == 0x50)
      && (get_or apdu 2 0 == Service.confirmed_cov_notification))
    || (length apdu == 3 && (pdu_type == 0x60 || pdu_type == 0x70))

abbrev pub is_unconfirmed : ℕ → List ℕ → Bool
is_unconfirmed service apdu =
    leb 2 (length apdu) && (get_or apdu 0 0 == 0x10) && (get_or apdu 1 0 == service)

abbrev pub cov_answer : List ℕ → Bool → PacketResult
cov_answer apdu failed = record (silent cov_ack) {
  invoke_id = get_or apdu 1 0;
  cov_ack_error = failed;
}

unfoldable pub handle_apdu : DeviceState → Bool → ApplicationNpdu → ℕ → PacketResult
unfolding handle_service
handle_apdu state broadcast npdu response_capacity =
    let apdu = npdu.apdu in
    if is_unconfirmed Service.who_is apdu
    then handle_who_is state broadcast (drop 2 apdu) response_capacity
    else if is_unconfirmed Service.who_has apdu
    then handle_who_has state broadcast (drop 2 apdu) response_capacity
    else if is_cov_ack apdu
    then cov_answer apdu false
    else if is_cov_failure apdu
    then cov_answer apdu true
    else if length apdu == 0 || not (bit_and (get_or apdu 0 0) 0xF0 == 0) || npdu.routed_source
    then silent ignored
    else if ltb (length apdu) 4
    then silent malformed
    else handle_service state apdu response_capacity

-- The test of the BVLC header.
abbrev pub is_bvlc_frame : List ℕ → Bool
is_bvlc_frame frame =
    leb 8 (length frame)
    && leb (length frame) max_request_bytes
    && (get_or frame 0 0 == bvlc_type)
    && (get_or frame 1 0 == original_unicast_npdu || get_or frame 1 0 == original_broadcast_npdu)
    && (bit_or (get_or frame 2 0 * 2 ^ 8) (get_or frame 3 0) == length frame)
    && (get_or frame 4 0 == 1)

unfoldable pub handle_packet : List ℕ → DeviceState → ℕ → PacketResult
unfolding handle_apdu
handle_packet frame state response_capacity =
    if not (is_bvlc_frame frame) then silent malformed else elim (parse_application_npdu frame) [
      | npdu_ignored ↦ silent ignored
      | npdu_malformed ↦ silent malformed
      | npdu_ok npdu ↦ handle_apdu state (is_broadcast frame npdu) npdu response_capacity
    ]
