-- ===== src/Codec/Property/Lists.antt =====
-- main/bacnet_codec.c, lines 95-173 and 1734-1826: the properties of each object type, all of them
-- and split into required and optional ones.
use esp32_p4_bacnet_switches.Base.{ℕ, List, [], ◌∷◌}
use esp32_p4_bacnet_switches.Codec.Property

abbrev pub device_properties : List ℕ
device_properties =
    Property.object_identifier ∷ Property.object_name ∷ Property.object_type
    ∷ Property.system_status ∷ Property.vendor_name ∷ Property.vendor_identifier
    ∷ Property.model_name ∷ Property.firmware_revision ∷ Property.application_software_version
    ∷ Property.protocol_version ∷ Property.protocol_revision ∷ Property.protocol_services_supported
    ∷ Property.protocol_object_types_supported ∷ Property.object_list
    ∷ Property.max_apdu_length_accepted ∷ Property.segmentation_supported ∷ Property.apdu_timeout
    ∷ Property.number_of_apdu_retries ∷ Property.device_address_binding ∷ Property.database_revision
    ∷ Property.description ∷ Property.location ∷ Property.property_list ∷ []

abbrev pub binary_input_properties : List ℕ
binary_input_properties =
    Property.object_identifier ∷ Property.object_name ∷ Property.object_type
    ∷ Property.present_value ∷ Property.status_flags ∷ Property.event_state
    ∷ Property.out_of_service ∷ Property.polarity ∷ Property.reliability ∷ Property.active_text
    ∷ Property.inactive_text ∷ Property.description ∷ Property.property_list ∷ []

abbrev pub analog_value_properties : List ℕ
analog_value_properties =
    Property.object_identifier ∷ Property.object_name ∷ Property.object_type
    ∷ Property.present_value ∷ Property.status_flags ∷ Property.event_state
    ∷ Property.out_of_service ∷ Property.reliability ∷ Property.units ∷ Property.description
    ∷ Property.property_list ∷ []

abbrev pub network_port_properties : List ℕ
network_port_properties =
    Property.object_identifier ∷ Property.object_name ∷ Property.object_type ∷ Property.status_flags
    ∷ Property.reliability ∷ Property.out_of_service ∷ Property.network_type
    ∷ Property.protocol_level ∷ Property.changes_pending ∷ Property.apdu_length
    ∷ Property.network_number ∷ Property.network_number_quality ∷ Property.link_speed
    ∷ Property.description ∷ Property.mac_address ∷ Property.bacnet_ip_mode ∷ Property.ip_address
    ∷ Property.bacnet_ip_udp_port ∷ Property.ip_subnet_mask ∷ Property.ip_default_gateway
    ∷ Property.ip_dns_server ∷ Property.ip_dhcp_enable ∷ Property.property_list ∷ []

abbrev pub device_required_properties : List ℕ
device_required_properties =
    Property.object_identifier ∷ Property.object_name ∷ Property.object_type
    ∷ Property.system_status ∷ Property.vendor_name ∷ Property.vendor_identifier
    ∷ Property.model_name ∷ Property.firmware_revision ∷ Property.application_software_version
    ∷ Property.protocol_version ∷ Property.protocol_revision ∷ Property.protocol_services_supported
    ∷ Property.protocol_object_types_supported ∷ Property.object_list
    ∷ Property.max_apdu_length_accepted ∷ Property.segmentation_supported ∷ Property.apdu_timeout
    ∷ Property.number_of_apdu_retries ∷ Property.device_address_binding ∷ Property.database_revision
    ∷ []

abbrev pub device_optional_properties : List ℕ
device_optional_properties = Property.description ∷ Property.location ∷ Property.property_list ∷ []

abbrev pub binary_input_required_properties : List ℕ
binary_input_required_properties =
    Property.object_identifier ∷ Property.object_name ∷ Property.object_type
    ∷ Property.present_value ∷ Property.status_flags ∷ Property.event_state
    ∷ Property.out_of_service ∷ Property.polarity ∷ []

abbrev pub binary_input_optional_properties : List ℕ
binary_input_optional_properties =
    Property.reliability ∷ Property.active_text ∷ Property.inactive_text ∷ Property.description
    ∷ Property.property_list ∷ []

abbrev pub analog_value_required_properties : List ℕ
analog_value_required_properties =
    Property.object_identifier ∷ Property.object_name ∷ Property.object_type
    ∷ Property.present_value ∷ Property.status_flags ∷ Property.event_state
    ∷ Property.out_of_service ∷ Property.units ∷ []

abbrev pub analog_value_optional_properties : List ℕ
analog_value_optional_properties =
    Property.reliability ∷ Property.description ∷ Property.property_list ∷ []

abbrev pub network_port_required_properties : List ℕ
network_port_required_properties =
    Property.object_identifier ∷ Property.object_name ∷ Property.object_type ∷ Property.status_flags
    ∷ Property.reliability ∷ Property.out_of_service ∷ Property.network_type
    ∷ Property.protocol_level ∷ Property.changes_pending ∷ Property.apdu_length
    ∷ Property.network_number ∷ Property.network_number_quality ∷ Property.link_speed ∷ []

abbrev pub network_port_optional_properties : List ℕ
network_port_optional_properties =
    Property.description ∷ Property.mac_address ∷ Property.bacnet_ip_mode ∷ Property.ip_address
    ∷ Property.bacnet_ip_udp_port ∷ Property.ip_subnet_mask ∷ Property.ip_default_gateway
    ∷ Property.ip_dns_server ∷ Property.ip_dhcp_enable ∷ Property.property_list ∷ []
