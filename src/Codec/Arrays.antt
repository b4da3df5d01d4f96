-- ===== src/Codec/Arrays.antt =====
-- main/bacnet_codec.c, lines 996-1125: the result of reading a property, and the two arrays,
-- Object_List and Property_List.
pub mod Laws
use esp32_p4_bacnet_switches.Base.{
  ℕ, zero, suc, ◌+◌, ◌-◌, ◌*◌, ◌/◌, ◌^◌, Bool, true, false, not, ◌||◌, ◌&&◌, List, [], ◌∷◌, ◌++◌,
  ltb, leb, ◌==◌, if◌then◌else◌, length, get_or, as_u8, codes,
}
use esp32_p4_bacnet_switches.Codec.Writer.{
  Writer, encode_application_object_id, encode_application_character_string,
  encode_application_enumerated, encode_application_unsigned, encode_application_bit_string,
  encode_application_boolean, encode_application_octet_string, encode_application_real,
}
use esp32_p4_bacnet_switches.Codec.Property
use esp32_p4_bacnet_switches.Codec.ObjectType
use esp32_p4_bacnet_switches.Codec.State.{
  DeviceState, max_apdu, physical_binary_input_count, status_binary_input_count, binary_input_count,
  compat_analog_value_count, analog_value_count, network_port_count,
}
use esp32_p4_bacnet_switches.Codec.Requests.{ReadPropertyRequest}
use esp32_p4_bacnet_switches.Codec.Property.Lists.{
  device_properties, binary_input_properties, analog_value_properties, network_port_properties,
}

-- `property_result_t` with the value buffer: on an error the buffer is not used.
pub data PropertyResult : Type 0 where
  property_ok : Writer → PropertyResult
  property_error : ℕ → ℕ → PropertyResult

abbrev pub error_class_object : ℕ
error_class_object = 1

abbrev pub error_class_property : ℕ
error_class_property = 2

abbrev pub error_class_resources : ℕ
error_class_resources = 3

abbrev pub error_no_space_to_add_list_element : ℕ
error_no_space_to_add_list_element = 19

abbrev pub error_unknown_object : ℕ
error_unknown_object = 31

abbrev pub error_unknown_property : ℕ
error_unknown_property = 32

abbrev pub error_invalid_array_index : ℕ
error_invalid_array_index = 42

abbrev pub error_property_is_not_an_array : ℕ
error_property_is_not_an_array = 50

pub data PropertyListKind : Type 0 where
  device_list binary_input_list analog_value_list network_port_list : PropertyListKind

unfoldable pub properties_of : PropertyListKind → List ℕ
properties_of device_list = device_properties
properties_of binary_input_list = binary_input_properties
properties_of analog_value_list = analog_value_properties
properties_of network_port_list = network_port_properties

-- The status flags of an object with a fault set bit 1.
abbrev pub fault_bits : ℕ → List ℕ
fault_bits reliability = if reliability == 0 then [] else (1 ∷ [])

abbrev pub physical_input_end : ℕ
physical_input_end = 1 + physical_binary_input_count

abbrev pub compat_analog_value_end : ℕ
compat_analog_value_end = physical_input_end + compat_analog_value_count

abbrev pub network_port_index : ℕ
network_port_index = compat_analog_value_end + 1

abbrev pub status_input_end : ℕ
status_input_end = network_port_index + status_binary_input_count

-- The object at position `index`, from 1 on: its type and instance.
unfoldable pub object_at : DeviceState → ℕ → ℕ × ℕ
object_at state index =
    if index == 1
    then (ObjectType.device, state.device_instance)
    else if leb index physical_input_end
    then (ObjectType.binary_input, get_or state.binary_input_instances (index - 2) 0)
    else if leb index compat_analog_value_end
    then (
      ObjectType.analog_value,
      get_or state.analog_value_instances (index - 2 - physical_binary_input_count) 0,
    )
    else if index == network_port_index
    then (ObjectType.network_port, state.network_port_instance)
    else if leb index status_input_end
    then (
      ObjectType.binary_input,
      get_or state.binary_input_instances
          (physical_binary_input_count + index - network_port_index - 1) 0,
    )
    else (
      ObjectType.analog_value,
      get_or state.analog_value_instances (compat_analog_value_count + index - status_input_end - 1)
          0,
    )

unfoldable pub encode_array_item : Writer → DeviceState → Bool → PropertyListKind → ℕ → Writer
encode_array_item w state object_list kind index =
    if object_list
    then (let (object_type, inst) = object_at state index in
        encode_application_object_id w object_type inst)
    else encode_application_enumerated w (get_or (properties_of kind) (index - 1) 0)

-- The loop over the items from `index` on, with `left` of them to go.
unfoldable pub encode_array_items : Writer → DeviceState → Bool → PropertyListKind → ℕ → ℕ → Writer
encode_array_items w state object_list kind index zero = w
encode_array_items w state object_list kind index (suc left) =
    encode_array_items (encode_array_item w state object_list kind index) state object_list kind
      (index + 1) left

unfoldable pub array_count : Bool → PropertyListKind → ℕ
unfolding properties_of
array_count object_list kind =
    if object_list
    then 1 + binary_input_count + analog_value_count + network_port_count
    else length (properties_of kind)

unfoldable pub encode_array :
    Writer → DeviceState → ReadPropertyRequest → Bool → PropertyListKind → PropertyResult
encode_array w state request object_list kind =
    let count = array_count object_list kind in
    if request.has_array_index && request.array_index == 0
    then property_ok (encode_application_unsigned w count)
    else if request.has_array_index
    then if ltb count request.array_index
      then property_error error_class_property error_invalid_array_index
      else property_ok (encode_array_item w state object_list kind request.array_index)
    else property_ok (encode_array_items w state object_list kind 1 count)
