-- ===== src/Codec/Property.antt =====
-- main/bacnet_codec.c, lines 43-93: the property identifiers, named without their prefix `PROP_`.
pub mod Lists
use esp32_p4_bacnet_switches.Base.{ℕ}

abbrev pub acked_transitions : ℕ
acked_transitions = 0

abbrev pub active_text : ℕ
active_text = 4

abbrev pub apdu_segment_timeout : ℕ
apdu_segment_timeout = 10

abbrev pub apdu_timeout : ℕ
apdu_timeout = 11

abbrev pub application_software_version : ℕ
application_software_version = 12

abbrev pub apdu_length : ℕ
apdu_length = 399

abbrev pub bacnet_ip_mode : ℕ
bacnet_ip_mode = 408

abbrev pub bacnet_ip_udp_port : ℕ
bacnet_ip_udp_port = 412

abbrev pub changes_pending : ℕ
changes_pending = 416

abbrev pub description : ℕ
description = 28

abbrev pub device_address_binding : ℕ
device_address_binding = 30

abbrev pub event_state : ℕ
event_state = 36

abbrev pub firmware_revision : ℕ
firmware_revision = 44

abbrev pub inactive_text : ℕ
inactive_text = 46

abbrev pub ip_address : ℕ
ip_address = 400

abbrev pub ip_default_gateway : ℕ
ip_default_gateway = 401

abbrev pub ip_dhcp_enable : ℕ
ip_dhcp_enable = 402

abbrev pub ip_dns_server : ℕ
ip_dns_server = 406

abbrev pub ip_subnet_mask : ℕ
ip_subnet_mask = 411

abbrev pub link_speed : ℕ
link_speed = 420

abbrev pub location : ℕ
location = 58

abbrev pub max_apdu_length_accepted : ℕ
max_apdu_length_accepted = 62

abbrev pub model_name : ℕ
model_name = 70

abbrev pub mac_address : ℕ
mac_address = 423

abbrev pub network_number : ℕ
network_number = 425

abbrev pub network_number_quality : ℕ
network_number_quality = 426

abbrev pub network_type : ℕ
network_type = 427

abbrev pub number_of_apdu_retries : ℕ
number_of_apdu_retries = 73

abbrev pub object_identifier : ℕ
object_identifier = 75

abbrev pub object_list : ℕ
object_list = 76

abbrev pub object_name : ℕ
object_name = 77

abbrev pub object_type : ℕ
object_type = 79

abbrev pub out_of_service : ℕ
out_of_service = 81

abbrev pub polarity : ℕ
polarity = 84

abbrev pub present_value : ℕ
present_value = 85

abbrev pub protocol_object_types_supported : ℕ
protocol_object_types_supported = 96

abbrev pub protocol_services_supported : ℕ
protocol_services_supported = 97

abbrev pub protocol_version : ℕ
protocol_version = 98

abbrev pub reliability : ℕ
reliability = 103

abbrev pub segmentation_supported : ℕ
segmentation_supported = 107

abbrev pub status_flags : ℕ
status_flags = 111

abbrev pub system_status : ℕ
system_status = 112

abbrev pub units : ℕ
units = 117

abbrev pub vendor_identifier : ℕ
vendor_identifier = 120

abbrev pub vendor_name : ℕ
vendor_name = 121

abbrev pub protocol_revision : ℕ
protocol_revision = 139

abbrev pub protocol_level : ℕ
protocol_level = 482

abbrev pub database_revision : ℕ
database_revision = 155

abbrev pub property_list : ℕ
property_list = 371
