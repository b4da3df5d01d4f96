-- ===== src/Codec/Values/Laws.antt =====
-- Which properties each object answers.
use esp32_p4_bacnet_switches.Base.{
  ℕ, ◌≡◌, Bool, true, false, not, ◌||◌, ◌&&◌, arith, ◌==◌, if◌then◌else◌, leb,
}
use esp32_p4_bacnet_switches.Codec.Writer.{Writer}
use esp32_p4_bacnet_switches.Codec.Property
use esp32_p4_bacnet_switches.Codec.Property.Lists.{
  device_properties, binary_input_properties, analog_value_properties,
}
use esp32_p4_bacnet_switches.Codec.State.{DeviceState}
use esp32_p4_bacnet_switches.Codec.Requests.{ReadPropertyRequest}
use esp32_p4_bacnet_switches.Codec.Arrays.{
  array_count, device_list, binary_input_list, analog_value_list,
}
use esp32_p4_bacnet_switches.Codec.Arrays.Laws.{is_ok, contains, is_ok-encode_array}
use esp32_p4_bacnet_switches.Codec.Values.{
  encode_device_property, encode_device_property_value, encode_binary_input_property,
  encode_binary_input_property_value, encode_analog_value_property,
  encode_analog_value_property_value,
}

-- Whether a request without an index, or with one that the array has, can be answered.
abbrev pub index_ok : ReadPropertyRequest → ℕ → Bool
index_ok r count = not r.has_array_index || leb r.array_index count

module _ (w : Writer) (s : DeviceState) (r : ReadPropertyRequest) where
  device_value-ok : is_ok (encode_device_property_value r.property_identifier w s r) ≡ (
      contains device_properties r.property_identifier
      && (if r.property_identifier == Property.object_list
          then index_ok r 27
          else if r.property_identifier == Property.property_list
          then index_ok r 23
          else true))
  unfolding encode_device_property_value array_count
  device_value-ok =
      ground (
        arith,
        is_ok-encode_array w s r true device_list,
        is_ok-encode_array w s r false device_list,
      )

  binary_input_value-ok :
      (index : ℕ)
      → is_ok (encode_binary_input_property_value r.property_identifier w s r index) ≡ (
          contains binary_input_properties r.property_identifier
          && (if r.property_identifier == Property.property_list then index_ok r 13 else true))
  unfolding encode_binary_input_property_value array_count
  binary_input_value-ok index = ground (arith, is_ok-encode_array w s r false binary_input_list)

  analog_value_value-ok :
      (index : ℕ)
      → is_ok (encode_analog_value_property_value r.property_identifier w s r index) ≡ (
          contains analog_value_properties r.property_identifier
          && (if r.property_identifier == Property.property_list then index_ok r 11 else true))
  unfolding encode_analog_value_property_value array_count
  analog_value_value-ok index = ground (arith, is_ok-encode_array w s r false analog_value_list)

  -- The Device answers exactly the properties of its list; with an array index, only its two
  -- arrays, up to the 27 objects and the 23 properties.
  pub is_ok-encode_device_property : is_ok (encode_device_property w s r) ≡ (
      contains device_properties r.property_identifier
      && (if r.property_identifier == Property.object_list
          then index_ok r 27
          else if r.property_identifier == Property.property_list
          then index_ok r 23
          else not r.has_array_index))
  unfolding encode_device_property
  is_ok-encode_device_property = ground (arith, device_value-ok)

  pub is_ok-encode_binary_input_property :
      (index : ℕ)
      → is_ok (encode_binary_input_property w s r index) ≡ (
          contains binary_input_properties r.property_identifier
          && (if r.property_identifier == Property.property_list
              then index_ok r 13
              else not r.has_array_index))
  unfolding encode_binary_input_property
  is_ok-encode_binary_input_property index = ground (arith, binary_input_value-ok index)

  pub is_ok-encode_analog_value_property :
      (index : ℕ)
      → is_ok (encode_analog_value_property w s r index) ≡ (
          contains analog_value_properties r.property_identifier
          && (if r.property_identifier == Property.property_list
              then index_ok r 11
              else not r.has_array_index))
  unfolding encode_analog_value_property
  is_ok-encode_analog_value_property index = ground (arith, analog_value_value-ok index)
