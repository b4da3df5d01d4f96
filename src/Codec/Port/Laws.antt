-- ===== src/Codec/Port/Laws.antt =====
-- Which properties the Network Port answers.
use esp32_p4_bacnet_switches.Base.{◌≡◌, true, false, not, ◌&&◌, arith, ◌==◌, if◌then◌else◌}
use esp32_p4_bacnet_switches.Codec.Writer.{Writer}
use esp32_p4_bacnet_switches.Codec.Property
use esp32_p4_bacnet_switches.Codec.Property.Lists.{network_port_properties}
use esp32_p4_bacnet_switches.Codec.State.{DeviceState}
use esp32_p4_bacnet_switches.Codec.Requests.{ReadPropertyRequest}
use esp32_p4_bacnet_switches.Codec.Arrays.{array_count, network_port_list}
use esp32_p4_bacnet_switches.Codec.Arrays.Laws.{is_ok, contains, is_ok-encode_array}
use esp32_p4_bacnet_switches.Codec.Values.Laws.{index_ok}
use esp32_p4_bacnet_switches.Codec.Port.{
  encode_network_port_dns, encode_network_port_property, encode_network_port_property_value,
}

module _ (w : Writer) (s : DeviceState) (r : ReadPropertyRequest) where
  dns-ok : is_ok (encode_network_port_dns w s r) ≡ index_ok r 3
  unfolding encode_network_port_dns
  dns-ok = ground arith

  port_value-ok : is_ok (encode_network_port_property_value r.property_identifier w s r) ≡ (
      contains network_port_properties r.property_identifier
      && (if r.property_identifier == Property.ip_dns_server
          then index_ok r 3
          else if r.property_identifier == Property.property_list
          then index_ok r 23
          else true))
  unfolding encode_network_port_property_value array_count
  port_value-ok = ground (arith, dns-ok, is_ok-encode_array w s r false network_port_list)

  pub is_ok-encode_network_port_property : is_ok (encode_network_port_property w s r) ≡ (
      contains network_port_properties r.property_identifier
      && (if r.property_identifier == Property.ip_dns_server
          then index_ok r 3
          else if r.property_identifier == Property.property_list
          then index_ok r 23
          else not r.has_array_index))
  unfolding encode_network_port_property
  is_ok-encode_network_port_property = ground (arith, port_value-ok)
