-- ===== src/Codec/Port.antt =====
-- main/bacnet_codec.c, lines 1373-1518: the properties of the Network Port.
pub mod Laws
use esp32_p4_bacnet_switches.Base.{
  ℕ, zero, suc, ◌+◌, ◌-◌, ◌*◌, ◌/◌, ◌^◌, Bool, true, false, not, ◌||◌, ◌&&◌, List, [], ◌∷◌, ◌++◌,
  ltb, leb, ◌==◌, if◌then◌else◌, length, get_or, as_u8, codes,
}
use esp32_p4_bacnet_switches.Codec.Writer.{
  Writer, encode_application_object_id, encode_application_character_string,
  encode_application_enumerated, encode_application_unsigned, encode_application_bit_string,
  encode_application_boolean, encode_application_octet_string, encode_application_real,
}
use esp32_p4_bacnet_switches.Codec.Property
use esp32_p4_bacnet_switches.Codec.ObjectType
use esp32_p4_bacnet_switches.Codec.State.{
  DeviceState, max_apdu, physical_binary_input_count, status_binary_input_count, binary_input_count,
  compat_analog_value_count, analog_value_count, network_port_count,
}
use esp32_p4_bacnet_switches.Codec.Requests.{ReadPropertyRequest}
use esp32_p4_bacnet_switches.Codec.Arrays.{
  PropertyResult, property_ok, property_error, error_class_property, error_unknown_property,
  error_property_is_not_an_array, encode_array, device_list, binary_input_list, analog_value_list,
  network_port_list, fault_bits, error_invalid_array_index,
}

-- The three DNS servers, `count` of them from `index` on.
unfoldable pub encode_dns_servers : Writer → DeviceState → ℕ → ℕ → Writer
encode_dns_servers w state index zero = w
encode_dns_servers w state index (suc count) =
    encode_dns_servers (encode_application_octet_string w (get_or state.network_port_dns index []))
      state (index + 1) count

unfoldable pub encode_network_port_dns : Writer → DeviceState → ReadPropertyRequest → PropertyResult
encode_network_port_dns w state request =
    if not request.has_array_index
    then property_ok (encode_dns_servers w state 0 3)
    else if leb 1 request.array_index && leb request.array_index 3
    then property_ok (
        encode_application_octet_string w
          (get_or state.network_port_dns (request.array_index - 1) []))
    else if request.array_index == 0
    then property_ok (encode_application_unsigned w 3)
    else property_error error_class_property error_invalid_array_index

abbrev pub port_flags : DeviceState → List ℕ
port_flags state =
    fault_bits state.network_port_reliability
    ++ (if state.network_port_out_of_service then 3 ∷ [] else [])

-- The IPv4 address and the UDP port.
abbrev pub mac_address : DeviceState → List ℕ
mac_address state =
    state.network_port_ipv4
    ++ (as_u8 (state.network_port_udp_port / 2 ^ 8) ∷ as_u8 state.network_port_udp_port ∷ [])

-- The `switch` over the property.
unfoldable pub encode_network_port_property_value :
    ℕ → Writer → DeviceState → ReadPropertyRequest → PropertyResult
encode_network_port_property_value property w state request =
    if property == Property.object_identifier
    then property_ok
        (encode_application_object_id w ObjectType.network_port state.network_port_instance)
    else if property == Property.object_name
    then property_ok (encode_application_character_string w state.network_port_name)
    else if property == Property.object_type
    then property_ok (encode_application_enumerated w ObjectType.network_port)
    else if property == Property.status_flags
    then property_ok (encode_application_bit_string w 4 (port_flags state))
    else if property == Property.reliability
    then property_ok (encode_application_enumerated w state.network_port_reliability)
    else if property == Property.out_of_service
    then property_ok (encode_application_boolean w state.network_port_out_of_service)
    else if property == Property.network_type
    then property_ok (encode_application_enumerated w 5)
    else if property == Property.protocol_level
    then property_ok (encode_application_enumerated w 2)
    else if property == Property.changes_pending
    then property_ok (encode_application_boolean w state.network_port_changes_pending)
    else if property == Property.apdu_length
    then property_ok (encode_application_unsigned w max_apdu)
    else if property == Property.network_number
    then property_ok (encode_application_unsigned w 0)
    else if property == Property.network_number_quality
    then property_ok (encode_application_enumerated w 0)
    else if property == Property.link_speed
    then property_ok (encode_application_real w state.network_port_link_speed_bps)
    else if property == Property.description
    then property_ok (encode_application_character_string w state.network_port_description)
    else if property == Property.mac_address
    then property_ok (encode_application_octet_string w (mac_address state))
    else if property == Property.bacnet_ip_mode
    then property_ok (encode_application_enumerated w 0)
    else if property == Property.ip_address
    then property_ok (encode_application_octet_string w state.network_port_ipv4)
    else if property == Property.bacnet_ip_udp_port
    then property_ok (encode_application_unsigned w state.network_port_udp_port)
    else if property == Property.ip_subnet_mask
    then property_ok (encode_application_octet_string w state.network_port_netmask)
    else if property == Property.ip_default_gateway
    then property_ok (encode_application_octet_string w state.network_port_gateway)
    else if property == Property.ip_dns_server
    then encode_network_port_dns w state request
    else if property == Property.ip_dhcp_enable
    then property_ok (encode_application_boolean w state.network_port_dhcp_enabled)
    else if property == Property.property_list
    then encode_array w state request false network_port_list
    else property_error error_class_property error_unknown_property

unfoldable pub encode_network_port_property :
    Writer → DeviceState → ReadPropertyRequest → PropertyResult
encode_network_port_property w state request =
    let property = request.property_identifier in
    if request.has_array_index
      && not (property == Property.ip_dns_server || property == Property.property_list)
    then property_error error_class_property error_property_is_not_an_array
    else encode_network_port_property_value property w state request
