-- ===== src/Codec/State.antt =====
-- main/bacnet_codec.h, lines 9-58: the counts of objects and `bacnet_device_state_t`. An array field
-- is a list, a C string the list of its bytes, a `float` its 32 bits.
use esp32_p4_bacnet_switches.Base.{ℕ, Bool, List}

abbrev pub max_apdu : ℕ
max_apdu = 1476

abbrev pub max_request_bytes : ℕ
max_request_bytes = 512

abbrev pub physical_binary_input_count : ℕ
physical_binary_input_count = 3

abbrev pub status_binary_input_count : ℕ
status_binary_input_count = 2

abbrev pub binary_input_count : ℕ
binary_input_count = 5

abbrev pub compat_analog_value_count : ℕ
compat_analog_value_count = 10

abbrev pub analog_value_count : ℕ
analog_value_count = 20

abbrev pub network_port_count : ℕ
network_port_count = 1

pub record DeviceState : Type 0 where
  pub device_instance : ℕ
  pub vendor_identifier : ℕ
  pub device_name : List ℕ
  pub vendor_name : List ℕ
  pub model_name : List ℕ
  pub firmware_revision : List ℕ
  pub application_software_version : List ℕ
  pub description : List ℕ
  pub location : List ℕ
  pub database_revision : ℕ
  pub binary_input_instances : List ℕ
  pub binary_input_names : List (List ℕ)
  pub binary_input_descriptions : List (List ℕ)
  pub binary_input_values : List Bool
  pub binary_input_reliability : List ℕ
  pub binary_input_active_low : List Bool
  pub analog_value_instances : List ℕ
  pub analog_value_names : List (List ℕ)
  pub analog_value_descriptions : List (List ℕ)
  pub analog_value_values : List ℕ
  pub analog_value_units : List ℕ
  pub analog_value_reliability : List ℕ
  pub network_port_instance : ℕ
  pub network_port_name : List ℕ
  pub network_port_description : List ℕ
  pub network_port_reliability : ℕ
  pub network_port_out_of_service : Bool
  pub network_port_changes_pending : Bool
  pub network_port_link_speed_bps : ℕ
  pub network_port_udp_port : ℕ
  pub network_port_dhcp_enabled : Bool
  pub network_port_ipv4 : List ℕ
  pub network_port_netmask : List ℕ
  pub network_port_gateway : List ℕ
  pub network_port_dns : List (List ℕ)
