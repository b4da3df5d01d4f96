-- ===== src/Codec/Objects.antt =====
-- main/bacnet_codec.c, lines 1520-1634: finding an object by its identifier or by its name, and
-- reading one property of it.
pub mod Laws
use esp32_p4_bacnet_switches.Base.{
  ℕ, zero, suc, ◌+◌, Bool, true, false, ◌||◌, ◌&&◌, List, [], ◌∷◌, Option, none, some, ◌==◌,
  if◌then◌else◌, get_or, same_bytes,
}
use esp32_p4_bacnet_switches.Codec.Writer.{Writer}
use esp32_p4_bacnet_switches.Codec.ObjectType
use esp32_p4_bacnet_switches.Codec.State.{DeviceState}
use esp32_p4_bacnet_switches.Codec.Requests.{ReadPropertyRequest, WhoHasChoice, by_id, by_name}
use esp32_p4_bacnet_switches.Codec.Arrays.{
  PropertyResult, property_error, error_class_object, error_unknown_object,
}
use esp32_p4_bacnet_switches.Codec.Values.{
  encode_device_property, encode_binary_input_property, encode_analog_value_property,
}
use esp32_p4_bacnet_switches.Codec.Port.{encode_network_port_property}

-- The loop over an instance array, from position `index` on.
unfoldable pub find_instance : List ℕ → ℕ → ℕ → Option ℕ
find_instance [] inst index = none
find_instance (i ∷ instances) inst index =
    if i == inst then some index else find_instance instances inst (index + 1)

unfoldable pub find_binary_input : DeviceState → ℕ → Option ℕ
unfolding find_instance
find_binary_input state inst = find_instance state.binary_input_instances inst 0

unfoldable pub find_analog_value : DeviceState → ℕ → Option ℕ
unfolding find_instance
find_analog_value state inst = find_instance state.analog_value_instances inst 0

pub record FoundObject : Type 0 where
  pub object_type : ℕ
  pub object_instance : ℕ
  pub object_name : List ℕ

-- Whether an object is the one that is asked for.
unfoldable pub is_chosen : WhoHasChoice → FoundObject → Bool
is_chosen (by_name name) object = same_bytes name object.object_name
is_chosen (by_id id) object =
    id.object_type == object.object_type && (id.object_instance == object.object_instance)

-- The loop over the instances and names of one object type, from position `index` on.
unfoldable pub find_chosen : WhoHasChoice → ℕ → List ℕ → List (List ℕ) → ℕ → Option FoundObject
unfolding is_chosen
find_chosen choice object_type [] names index = none
find_chosen choice object_type (i ∷ instances) names index =
    let object : FoundObject = record {
      object_type = object_type;
      object_instance = i;
      object_name = get_or names index [];
    } in
    if is_chosen choice object
    then some object
    else find_chosen choice object_type instances names (index + 1)

abbrev pub or_else {ℓ} : {A : Type ℓ} → Option A → Option A → Option A
or_else (some a) o = some a
or_else none o = o

abbrev pub if_chosen : WhoHasChoice → FoundObject → Option FoundObject
if_chosen choice object = if is_chosen choice object then some object else none

unfoldable pub find_who_has_object : DeviceState → WhoHasChoice → Option FoundObject
unfolding find_chosen
find_who_has_object state choice =
    or_else
      (if_chosen choice (record {
        object_type = ObjectType.device;
        object_instance = state.device_instance;
        object_name = state.device_name;
      }))
      (or_else
        (find_chosen choice ObjectType.binary_input state.binary_input_instances
          state.binary_input_names 0)
        (or_else
          (find_chosen choice ObjectType.analog_value state.analog_value_instances
            state.analog_value_names 0)
          (if_chosen choice (record {
            object_type = ObjectType.network_port;
            object_instance = state.network_port_instance;
            object_name = state.network_port_name;
          }))))

abbrev pub unknown_object : PropertyResult
unknown_object = property_error error_class_object error_unknown_object

unfoldable pub encode_object_property : Writer → DeviceState → ReadPropertyRequest → PropertyResult
unfolding find_binary_input find_analog_value
encode_object_property w state request =
    if request.object_type == ObjectType.device
      && (request.object_instance == state.device_instance)
    then encode_device_property w state request
    else if request.object_type == ObjectType.binary_input
    then elim (find_binary_input state request.object_instance) [
      | none ↦ unknown_object
      | some index ↦ encode_binary_input_property w state request index
    ]
    else if request.object_type == ObjectType.analog_value
    then elim (find_analog_value state request.object_instance) [
      | none ↦ unknown_object
      | some index ↦ encode_analog_value_property w state request index
    ]
    else if request.object_type == ObjectType.network_port
        && (request.object_instance == state.network_port_instance)
    then encode_network_port_property w state request
    else unknown_object
