-- ===== src/Codec/Frames.antt =====
-- main/bacnet_codec.c, lines 944-994, 1636-1732 and 1828-2035: the frames that the device sends.
-- A function that fills `response` returns the octets of the frame, `[]` for a length of 0.
pub mod Announce
pub mod Bounds
use esp32_p4_bacnet_switches.Base.{
  ℕ, zero, suc, ◌+◌, Bool, true, false, not, ◌||◌, ◌&&◌, List, [], ◌∷◌, Option, none, some, ltb,
  leb, ◌==◌, if◌then◌else◌, length, get_or, take, drop,
}
use esp32_p4_bacnet_switches.Codec.Writer.{
  Writer, fresh, write_u8, write_bytes, max_instance, encode_application_object_id,
  encode_application_unsigned, encode_application_enumerated, encode_application_character_string,
  encode_context_object_id, encode_context_unsigned, encode_opening_tag, encode_closing_tag,
  encode_application_bit_string,
}
use esp32_p4_bacnet_switches.Codec.ObjectType
use esp32_p4_bacnet_switches.Codec.Property
use esp32_p4_bacnet_switches.Codec.Property.Lists
use esp32_p4_bacnet_switches.Codec.State.{DeviceState, max_apdu, binary_input_count}
use esp32_p4_bacnet_switches.Codec.Npdu.{start_bvlc, finish_bvlc}
use esp32_p4_bacnet_switches.Codec.Requests.{ReadPropertyRequest}
use esp32_p4_bacnet_switches.Codec.Multiple.{MultipleRequest, ObjectEntry}
use esp32_p4_bacnet_switches.Codec.Arrays.{
  PropertyResult, property_ok, property_error, error_class_property, error_unknown_property,
  error_class_resources, error_no_space_to_add_list_element, fault_bits,
}
use esp32_p4_bacnet_switches.Codec.Objects.{encode_object_property}
use esp32_p4_bacnet_switches.Codec.Service

unfoldable pub encode_i_am : DeviceState → Bool → ℕ → List ℕ
encode_i_am state broadcast response_capacity =
    if leb max_instance state.device_instance
    then []
    else let w0 = start_bvlc (fresh response_capacity) broadcast in
      let w1 = write_u8 (write_u8 w0 0x10) Service.i_am in
      let w2 = encode_application_object_id w1 ObjectType.device state.device_instance in
      let w3 = encode_application_unsigned w2 max_apdu in
      let w4 = encode_application_enumerated w3 3 in
      finish_bvlc (encode_application_unsigned w4 state.vendor_identifier)

unfoldable pub encode_i_have : DeviceState → ℕ → ℕ → List ℕ → Bool → ℕ → List ℕ
encode_i_have state object_type object_instance object_name broadcast response_capacity =
    let w0 = start_bvlc (fresh response_capacity) broadcast in
    let w1 = write_u8 (write_u8 w0 0x10) Service.i_have in
    let w2 = encode_application_object_id w1 ObjectType.device state.device_instance in
    let w3 = encode_application_object_id w2 object_type object_instance in
    finish_bvlc (encode_application_character_string w3 object_name)

unfoldable pub encode_wrapped_short_apdu : ℕ → ℕ → ℕ → ℕ → List ℕ
encode_wrapped_short_apdu first invoke_id third capacity =
    finish_bvlc
      (write_u8 (write_u8 (write_u8 (start_bvlc (fresh capacity) false) first) invoke_id) third)

unfoldable pub encode_error : ℕ → ℕ → ℕ → ℕ → ℕ → List ℕ
encode_error invoke_id service_choice error_class error_code capacity =
    let w0 = start_bvlc (fresh capacity) false in
    let w1 = write_u8 (write_u8 (write_u8 w0 0x50) invoke_id) service_choice in
    finish_bvlc
      (encode_application_enumerated (encode_application_enumerated w1 error_class) error_code)

unfoldable pub encode_subscribe_cov_no_space : ℕ → ℕ → List ℕ
encode_subscribe_cov_no_space invoke_id response_capacity =
    encode_error invoke_id Service.subscribe_cov error_class_resources
      error_no_space_to_add_list_element response_capacity

-- The abort for a response that does not fit: segmentation is not supported.
abbrev pub abort_segmentation : ℕ → ℕ → List ℕ
abort_segmentation invoke_id response_capacity =
    encode_wrapped_short_apdu 0x71 invoke_id 4 response_capacity

-- The complex acknowledgement around the octets of the value.
unfoldable pub read_property_ack : ℕ → ReadPropertyRequest → List ℕ → ℕ → Writer
read_property_ack invoke_id request value response_capacity =
    let w0 = start_bvlc (fresh response_capacity) false in
    let w1 = write_u8 (write_u8 (write_u8 w0 0x30) invoke_id) Service.read_property in
    let w2 = encode_context_object_id w1 0 request.object_type request.object_instance in
    let w3 = encode_context_unsigned w2 1 request.property_identifier in
    let w4 =
      if request.has_array_index then encode_context_unsigned w3 2 request.array_index else w3 in
    write_u8 (write_bytes (write_u8 w4 0x3E) value) 0x3F

unfoldable pub encode_read_property_response : ℕ → ReadPropertyRequest → DeviceState → ℕ → List ℕ
encode_read_property_response invoke_id request state response_capacity =
    elim (encode_object_property (fresh max_apdu) state request) [
      | property_error error_class error_code ↦
          encode_error invoke_id Service.read_property error_class error_code response_capacity
      | property_ok value ↦
          let w = read_property_ack invoke_id request value.bytes response_capacity in
          if value.failed || ltb (max_apdu + 6) (length w.bytes)
          then abort_segmentation invoke_id response_capacity
          else finish_bvlc w
    ]

abbrev pub property_all : ℕ
property_all = 8

abbrev pub property_optional : ℕ
property_optional = 80

abbrev pub property_required : ℕ
property_required = 105

-- All, the required and the optional properties of an object type; `none` for the NULL of another.
unfoldable pub property_lists : ℕ → Option (List ℕ × List ℕ × List ℕ)
property_lists object_type =
    if object_type == ObjectType.device
    then some (
      Lists.device_properties, Lists.device_required_properties, Lists.device_optional_properties,
    )
    else if object_type == ObjectType.binary_input
    then some (
      Lists.binary_input_properties, Lists.binary_input_required_properties,
      Lists.binary_input_optional_properties,
    )
    else if object_type == ObjectType.analog_value
    then some (
      Lists.analog_value_properties, Lists.analog_value_required_properties,
      Lists.analog_value_optional_properties,
    )
    else if object_type == ObjectType.network_port
    then some (
      Lists.network_port_properties, Lists.network_port_required_properties,
      Lists.network_port_optional_properties,
    )
    else none

unfoldable pub selected_property_list : ℕ → ℕ → Option (List ℕ)
unfolding property_lists
selected_property_list object_type selector = elim (property_lists object_type) [
  | none ↦ none
  | some (all, required, optional) ↦
      if selector == property_all
      then some all
      else if selector == property_required
      then some required
      else if selector == property_optional
      then some optional
      else none
]

unfoldable pub encode_rpm_error : Writer → ℕ → ℕ → Writer
encode_rpm_error w error_class error_code =
    let w1 = encode_application_enumerated (encode_opening_tag w 5) error_class in
    encode_closing_tag (encode_application_enumerated w1 error_code) 5

unfoldable pub encode_rpm_property_result : Writer → DeviceState → ReadPropertyRequest → Writer
unfolding encode_rpm_error
encode_rpm_property_result w state reference =
    let w1 = encode_context_unsigned w 2 reference.property_identifier in
    let w2 =
      if reference.has_array_index
      then encode_context_unsigned w1 3 reference.array_index
      else w1 in
    elim (encode_object_property (fresh 512) state reference) [
      | property_error error_class error_code ↦ encode_rpm_error w2 error_class error_code
      | property_ok value ↦
          if value.failed
          then encode_rpm_error w2 error_class_property error_unknown_property
          else encode_closing_tag (write_bytes (encode_opening_tag w2 4) value.bytes) 4
    ]

-- The loop over the properties that a selector stands for.
unfoldable pub encode_selected : Writer → DeviceState → ReadPropertyRequest → List ℕ → Writer
encode_selected w state reference [] = w
encode_selected w state reference (p ∷ selected) =
    encode_selected
      (encode_rpm_property_result w state (record reference { property_identifier = p })) state
      reference selected

unfoldable pub encode_reference : Writer → DeviceState → ReadPropertyRequest → Writer
unfolding selected_property_list encode_selected
encode_reference w state reference =
    elim (selected_property_list reference.object_type reference.property_identifier) [
      | none ↦ encode_rpm_property_result w state reference
      | some selected ↦
          if reference.has_array_index
          then encode_rpm_property_result w state reference
          else encode_selected w state reference selected
    ]

unfoldable pub encode_references : Writer → DeviceState → List ReadPropertyRequest → Writer
encode_references w state [] = w
encode_references w state (r ∷ references) =
    encode_references (encode_reference w state r) state references

-- The loop over the objects of the request.
unfoldable pub encode_objects :
    Writer → DeviceState → List ReadPropertyRequest → List ObjectEntry → Writer
encode_objects w state references [] = w
encode_objects w state references (o ∷ objects) =
    let w1 = encode_context_object_id w 0 o.object_id.object_type o.object_id.object_instance in
    let own = take o.reference_count (drop o.reference_start references) in
    let w2 = encode_references (encode_opening_tag w1 1) state own in
    encode_objects (encode_closing_tag w2 1) state references objects

unfoldable pub encode_read_property_multiple_response :
    ℕ → MultipleRequest → DeviceState → ℕ → List ℕ
encode_read_property_multiple_response invoke_id request state response_capacity =
    let w0 = start_bvlc (fresh response_capacity) false in
    let w1 = write_u8 (write_u8 (write_u8 w0 0x30) invoke_id) Service.read_property_multiple in
    let w = encode_objects w1 state request.references request.objects in
    if w.failed || ltb (max_apdu + 6) (length w.bytes)
    then abort_segmentation invoke_id response_capacity
    else finish_bvlc w

-- The header of a confirmed or an unconfirmed notification.
unfoldable pub cov_header : Writer → Bool → ℕ → Writer
cov_header w confirmed invoke_id =
    if confirmed
    then write_u8 (write_u8 (write_u8 (write_u8 w 0x00) 0x05) invoke_id)
        Service.confirmed_cov_notification
    else write_u8 (write_u8 w 0x10) Service.unconfirmed_cov_notification

unfoldable pub encode_cov_notification : DeviceState → ℕ → ℕ → ℕ → Bool → ℕ → ℕ → List ℕ
unfolding cov_header
encode_cov_notification state input_index process_id time_remaining confirmed invoke_id
      response_capacity =
    if leb binary_input_count input_index
    then []
    else let w0 = cov_header (start_bvlc (fresh response_capacity) false) confirmed invoke_id in
      let w1 = encode_context_unsigned w0 0 process_id in
      let w2 = encode_context_object_id w1 1 ObjectType.device state.device_instance in
      let w3 =
        encode_context_object_id w2 2 ObjectType.binary_input
          (get_or state.binary_input_instances input_index 0) in
      let w4 = encode_opening_tag (encode_context_unsigned w3 3 time_remaining) 4 in
      let w5 = encode_opening_tag (encode_context_unsigned w4 0 Property.present_value) 2 in
      let w6 =
        encode_application_enumerated w5
          (if get_or state.binary_input_values input_index false then 1 else 0) in
      let w7 = encode_context_unsigned (encode_closing_tag w6 2) 0 Property.status_flags in
      let w8 =
        encode_application_bit_string (encode_opening_tag w7 2) 4
          (fault_bits (get_or state.binary_input_reliability input_index 0)) in
      finish_bvlc (encode_closing_tag (encode_closing_tag w8 2) 4)
