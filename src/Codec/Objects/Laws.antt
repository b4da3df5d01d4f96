-- ===== src/Codec/Objects/Laws.antt =====
-- Reading a property against an independent description of the device's objects.
use esp32_p4_bacnet_switches.Base.{
  ℕ, ◌+◌, ◌≡◌, refl, Bool, true, false, not, ◌&&◌, List, [], ◌∷◌, Option, none, some, arith, ◌==◌,
  if◌then◌else◌,
}
use esp32_p4_bacnet_switches.Codec.Writer.{Writer}
use esp32_p4_bacnet_switches.Codec.ObjectType
use esp32_p4_bacnet_switches.Codec.Property
use esp32_p4_bacnet_switches.Codec.State.{DeviceState}
use esp32_p4_bacnet_switches.Codec.Requests.{ReadPropertyRequest}
use esp32_p4_bacnet_switches.Codec.Arrays.{
  PropertyListKind, device_list, binary_input_list, analog_value_list, network_port_list,
  properties_of,
}
use esp32_p4_bacnet_switches.Codec.Arrays.Laws.{is_ok, contains}
use esp32_p4_bacnet_switches.Codec.Values.Laws.{
  index_ok, is_ok-encode_device_property, is_ok-encode_binary_input_property,
  is_ok-encode_analog_value_property,
}
use esp32_p4_bacnet_switches.Codec.Port.Laws.{is_ok-encode_network_port_property}
use esp32_p4_bacnet_switches.Codec.Objects.{find_instance, encode_object_property}

abbrev pub is_some {ℓ} : {A : Type ℓ} → Option A → Bool
is_some none = false
is_some (some a) = true

pub is_some-find_instance :
    (instances : List ℕ) (inst index : ℕ)
    → is_some (find_instance instances inst index) ≡ contains instances inst
unfolding find_instance
is_some-find_instance [] inst index = refl
is_some-find_instance (i ∷ instances) inst index =
    ground (arith, is_some-find_instance instances inst (index + 1))

-- The kind of the object that an identifier names, `none` if the device has no such object.
unfoldable pub kind_of : DeviceState → ℕ → ℕ → Option PropertyListKind
kind_of s object_type inst =
    if object_type == ObjectType.device && (inst == s.device_instance)
    then some device_list
    else if object_type == ObjectType.binary_input && contains s.binary_input_instances inst
    then some binary_input_list
    else if object_type == ObjectType.analog_value && contains s.analog_value_instances inst
    then some analog_value_list
    else if object_type == ObjectType.network_port && (inst == s.network_port_instance)
    then some network_port_list
    else none

-- Whether the request's index, if any, is one of the property of this kind of object.
unfoldable pub index_fits : PropertyListKind → ReadPropertyRequest → Bool
index_fits device_list r =
    if r.property_identifier == Property.object_list
    then index_ok r 27
    else if r.property_identifier == Property.property_list
    then index_ok r 23
    else not r.has_array_index
index_fits binary_input_list r =
    if r.property_identifier == Property.property_list then index_ok r 13 else not r.has_array_index
index_fits analog_value_list r =
    if r.property_identifier == Property.property_list then index_ok r 11 else not r.has_array_index
index_fits network_port_list r =
    if r.property_identifier == Property.ip_dns_server
    then index_ok r 3
    else if r.property_identifier == Property.property_list
    then index_ok r 23
    else not r.has_array_index

-- The object is there, has the property, and the index fits.
unfoldable pub is_readable : DeviceState → ReadPropertyRequest → Bool
unfolding kind_of index_fits properties_of
is_readable s r = elim (kind_of s r.object_type r.object_instance) [
  | none ↦ false
  | some kind ↦ contains (properties_of kind) r.property_identifier && index_fits kind r
]

-- A property is read without an error exactly when the device has the object, the object has the
-- property in its list, and the array index, if any, is one that the property has.
pub is_ok-encode_object_property :
    (w : Writer) (s : DeviceState) (r : ReadPropertyRequest)
    → is_ok (encode_object_property w s r) ≡ is_readable s r
unfolding encode_object_property is_readable
is_ok-encode_object_property w s r = grind (
  arith,
  is_ok-encode_device_property w s r,
  is_ok-encode_binary_input_property w s r,
  is_ok-encode_analog_value_property w s r,
  is_ok-encode_network_port_property w s r,
  is_some-find_instance s.binary_input_instances r.object_instance 0,
  is_some-find_instance s.analog_value_instances r.object_instance 0,
)
