-- ===== src/Tests/Sample.antt =====
-- A device with its five inputs, twenty values and one port, and requests for it.
use esp32_p4_bacnet_switches.Base.{ℕ, true, false, List, [], ◌∷◌, replicate}
use esp32_p4_bacnet_switches.Codec.State.{DeviceState}
use esp32_p4_bacnet_switches.Codec.Writer.{Writer}
use esp32_p4_bacnet_switches.Codec.Requests.{ReadPropertyRequest}

abbrev pub device : DeviceState
device = record {
  device_instance = 8001;
  vendor_identifier = 260;
  device_name = 80 ∷ 52 ∷ [];
  vendor_name = 86 ∷ [];
  model_name = 77 ∷ [];
  firmware_revision = 49 ∷ [];
  application_software_version = 49 ∷ [];
  description = 68 ∷ [];
  location = 76 ∷ [];
  database_revision = 1;
  binary_input_instances = 1 ∷ 2 ∷ 3 ∷ 100 ∷ 101 ∷ [];
  binary_input_names = (65 ∷ []) ∷ (66 ∷ []) ∷ (67 ∷ []) ∷ (68 ∷ []) ∷ (69 ∷ []) ∷ [];
  binary_input_descriptions = replicate 5 (73 ∷ []);
  binary_input_values = true ∷ false ∷ false ∷ true ∷ true ∷ [];
  binary_input_reliability = replicate 5 0;
  binary_input_active_low = replicate 5 true;
  analog_value_instances =
      1000 ∷ 1001 ∷ 1002 ∷ 1003 ∷ 1004 ∷ 1005 ∷ 1006 ∷ 1007 ∷ 1008 ∷ 1009 ∷ 1010 ∷ 1011 ∷ 1012
      ∷ 1013 ∷ 1014 ∷ 1015 ∷ 1016 ∷ 1017 ∷ 1018 ∷ 1019 ∷ [];
  analog_value_names = replicate 20 (86 ∷ []);
  analog_value_descriptions = replicate 20 (86 ∷ []);
  analog_value_values = replicate 20 0;
  analog_value_units = replicate 20 95;
  analog_value_reliability = replicate 20 0;
  network_port_instance = 1;
  network_port_name = 78 ∷ [];
  network_port_description = 78 ∷ [];
  network_port_reliability = 0;
  network_port_out_of_service = false;
  network_port_changes_pending = false;
  network_port_link_speed_bps = 100000000;
  network_port_udp_port = 47808;
  network_port_dhcp_enabled = true;
  network_port_ipv4 = 192 ∷ 168 ∷ 1 ∷ 20 ∷ [];
  network_port_netmask = 255 ∷ 255 ∷ 255 ∷ 0 ∷ [];
  network_port_gateway = 192 ∷ 168 ∷ 1 ∷ 1 ∷ [];
  network_port_dns = replicate 3 (0 ∷ 0 ∷ 0 ∷ 0 ∷ []);
}

-- Present_Value (85) of the second binary input.
abbrev pub present_value : ReadPropertyRequest
present_value = record {
  object_type = 3;
  object_instance = 2;
  property_identifier = 85;
  has_array_index = false;
  array_index = 0;
}

-- A buffer of sixteen octets with one written.
abbrev pub buffer : Writer
buffer = record { bytes = 7 ∷ []; capacity = 16; failed = false }

-- A ReadPropertyMultiple request: Present_Value of Binary Input 2.
abbrev pub multiple : List ℕ
multiple = 0x0C ∷ 0x00 ∷ 0xC0 ∷ 0x00 ∷ 0x02 ∷ 0x1E ∷ 0x09 ∷ 0x55 ∷ 0x1F ∷ []
