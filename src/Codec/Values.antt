-- ===== src/Codec/Values.antt =====
-- main/bacnet_codec.c, lines 1127-1371: the properties of the Device, of a Binary Input and of an
-- Analog Value.
pub mod Laws
use esp32_p4_bacnet_switches.Base.{
  ℕ, zero, suc, ◌+◌, ◌-◌, ◌*◌, ◌/◌, ◌^◌, Bool, true, false, not, ◌||◌, ◌&&◌, List, [], ◌∷◌, ◌++◌,
  ltb, leb, ◌==◌, if◌then◌else◌, length, get_or, as_u8, codes,
}
use esp32_p4_bacnet_switches.Codec.Writer.{
  Writer, encode_application_object_id, encode_application_character_string,
  encode_application_enumerated, encode_application_unsigned, encode_application_bit_string,
  encode_application_boolean, encode_application_octet_string, encode_application_real,
}
use esp32_p4_bacnet_switches.Codec.Property
use esp32_p4_bacnet_switches.Codec.ObjectType
use esp32_p4_bacnet_switches.Codec.State.{
  DeviceState, max_apdu, physical_binary_input_count, status_binary_input_count, binary_input_count,
  compat_analog_value_count, analog_value_count, network_port_count,
}
use esp32_p4_bacnet_switches.Codec.Requests.{ReadPropertyRequest}
use esp32_p4_bacnet_switches.Codec.Arrays.{
  PropertyResult, property_ok, property_error, error_class_property, error_unknown_property,
  error_property_is_not_an_array, encode_array, device_list, binary_input_list, analog_value_list,
  network_port_list, fault_bits, error_invalid_array_index,
}

abbrev pub services_supported : List ℕ
services_supported = 1 ∷ 5 ∷ 12 ∷ 14 ∷ 26 ∷ 27 ∷ 28 ∷ 33 ∷ 34 ∷ []

abbrev pub object_types_supported : List ℕ
object_types_supported =
    ObjectType.analog_value ∷ ObjectType.binary_input ∷ ObjectType.device ∷ ObjectType.network_port
    ∷ []

-- The `switch` over the property.
unfoldable pub encode_device_property_value :
    ℕ → Writer → DeviceState → ReadPropertyRequest → PropertyResult
encode_device_property_value property w state request =
    if property == Property.object_identifier
    then property_ok (encode_application_object_id w ObjectType.device state.device_instance)
    else if property == Property.object_name
    then property_ok (encode_application_character_string w state.device_name)
    else if property == Property.object_type
    then property_ok (encode_application_enumerated w ObjectType.device)
    else if property == Property.system_status
    then property_ok (encode_application_enumerated w 1)
    else if property == Property.vendor_name
    then property_ok (encode_application_character_string w state.vendor_name)
    else if property == Property.vendor_identifier
    then property_ok (encode_application_unsigned w state.vendor_identifier)
    else if property == Property.model_name
    then property_ok (encode_application_character_string w state.model_name)
    else if property == Property.firmware_revision
    then property_ok (encode_application_character_string w state.firmware_revision)
    else if property == Property.application_software_version
    then property_ok (encode_application_character_string w state.application_software_version)
    else if property == Property.protocol_version
    then property_ok (encode_application_unsigned w 1)
    else if property == Property.protocol_revision
    then property_ok (encode_application_unsigned w 17)
    else if property == Property.protocol_services_supported
    then property_ok (encode_application_bit_string w 35 services_supported)
    else if property == Property.protocol_object_types_supported
    then property_ok (encode_application_bit_string w 57 object_types_supported)
    else if property == Property.object_list
    then encode_array w state request true device_list
    else if property == Property.max_apdu_length_accepted
    then property_ok (encode_application_unsigned w max_apdu)
    else if property == Property.segmentation_supported
    then property_ok (encode_application_enumerated w 3)
    else if property == Property.apdu_timeout
    then property_ok (encode_application_unsigned w 3000)
    else if property == Property.number_of_apdu_retries
    then property_ok (encode_application_unsigned w 3)
    else if property == Property.device_address_binding
    then property_ok w
    else if property == Property.database_revision
    then property_ok (encode_application_unsigned w state.database_revision)
    else if property == Property.description
    then property_ok (encode_application_character_string w state.description)
    else if property == Property.location
    then property_ok (encode_application_character_string w state.location)
    else if property == Property.property_list
    then encode_array w state request false device_list
    else property_error error_class_property error_unknown_property

unfoldable pub encode_device_property : Writer → DeviceState → ReadPropertyRequest → PropertyResult
encode_device_property w state request =
    let property = request.property_identifier in
    if request.has_array_index
      && not (property == Property.object_list || property == Property.property_list)
    then property_error error_class_property error_property_is_not_an_array
    else encode_device_property_value property w state request

-- The `switch` over the property.
unfoldable pub encode_binary_input_property_value :
    ℕ → Writer → DeviceState → ReadPropertyRequest → ℕ → PropertyResult
encode_binary_input_property_value property w state request index =
    if property == Property.object_identifier
    then property_ok (
        encode_application_object_id w ObjectType.binary_input
          (get_or state.binary_input_instances index 0))
    else if property == Property.object_name
    then property_ok
        (encode_application_character_string w (get_or state.binary_input_names index []))
    else if property == Property.object_type
    then property_ok (encode_application_enumerated w ObjectType.binary_input)
    else if property == Property.present_value
    then property_ok (
        encode_application_enumerated w
          (if get_or state.binary_input_values index false then 1 else 0))
    else if property == Property.status_flags
    then property_ok (
        encode_application_bit_string w 4
          (fault_bits (get_or state.binary_input_reliability index 0)))
    else if property == Property.event_state
    then property_ok (encode_application_enumerated w 0)
    else if property == Property.reliability
    then property_ok
        (encode_application_enumerated w (get_or state.binary_input_reliability index 0))
    else if property == Property.polarity
    then property_ok (
        encode_application_enumerated w
          (if get_or state.binary_input_active_low index false then 1 else 0))
    else if property == Property.out_of_service
    then property_ok (encode_application_boolean w false)
    else if property == Property.active_text
    then property_ok (encode_application_character_string w (codes "Active"))
    else if property == Property.inactive_text
    then property_ok (encode_application_character_string w (codes "Inactive"))
    else if property == Property.description
    then property_ok
        (encode_application_character_string w (get_or state.binary_input_descriptions index []))
    else if property == Property.property_list
    then encode_array w state request false binary_input_list
    else property_error error_class_property error_unknown_property

unfoldable pub encode_binary_input_property :
    Writer → DeviceState → ReadPropertyRequest → ℕ → PropertyResult
encode_binary_input_property w state request index =
    let property = request.property_identifier in
    if request.has_array_index && not (property == Property.property_list)
    then property_error error_class_property error_property_is_not_an_array
    else encode_binary_input_property_value property w state request index

-- The `switch` over the property.
unfoldable pub encode_analog_value_property_value :
    ℕ → Writer → DeviceState → ReadPropertyRequest → ℕ → PropertyResult
encode_analog_value_property_value property w state request index =
    if property == Property.object_identifier
    then property_ok (
        encode_application_object_id w ObjectType.analog_value
          (get_or state.analog_value_instances index 0))
    else if property == Property.object_name
    then property_ok
        (encode_application_character_string w (get_or state.analog_value_names index []))
    else if property == Property.object_type
    then property_ok (encode_application_enumerated w ObjectType.analog_value)
    else if property == Property.present_value
    then property_ok (encode_application_real w (get_or state.analog_value_values index 0))
    else if property == Property.status_flags
    then property_ok (
        encode_application_bit_string w 4
          (fault_bits (get_or state.analog_value_reliability index 0)))
    else if property == Property.event_state
    then property_ok (encode_application_enumerated w 0)
    else if property == Property.reliability
    then property_ok
        (encode_application_enumerated w (get_or state.analog_value_reliability index 0))
    else if property == Property.out_of_service
    then property_ok (encode_application_boolean w false)
    else if property == Property.units
    then property_ok (encode_application_enumerated w (get_or state.analog_value_units index 0))
    else if property == Property.description
    then property_ok
        (encode_application_character_string w (get_or state.analog_value_descriptions index []))
    else if property == Property.property_list
    then encode_array w state request false analog_value_list
    else property_error error_class_property error_unknown_property

unfoldable pub encode_analog_value_property :
    Writer → DeviceState → ReadPropertyRequest → ℕ → PropertyResult
encode_analog_value_property w state request index =
    let property = request.property_identifier in
    if request.has_array_index && not (property == Property.property_list)
    then property_error error_class_property error_property_is_not_an_array
    else encode_analog_value_property_value property w state request index
