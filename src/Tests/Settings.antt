-- ===== src/Tests/Settings.antt =====
-- The BACnet configuration at concrete inputs.
use esp32_p4_bacnet_switches.Base.{
  ◌≡◌, ◌≢◌, refl, Bool, true, false, ◌&&◌, [], ◌∷◌, codes, get_or, arith,
}
use esp32_p4_bacnet_switches.Sdk.{EspErr, Nvs, started, is_ok}
use esp32_p4_bacnet_switches.Settings.Model.{
  FirmwareConfig, printable_text, object_names, all_unique, object_names_unique, differs_from_prior,
  input_valid, inputs_valid, config_model_validate, covered_bytes, config_model_crc32,
  config_model_finalize, config_model_is_valid_blob, same_inputs, config_model_mutable_equal,
  same_text, input_instance,
}
use esp32_p4_bacnet_switches.Settings.Model.Names.{
  IsInputInstance, validate-names_apart, validate-instances_apart,
}
use esp32_p4_bacnet_switches.Settings.Store.{
  BuildSettings, Globals, factory_defaults, write_saved_config, load_saved, config_store_init,
  candidate_of, config_store_update,
}
use esp32_p4_bacnet_switches.Settings.Store.Invariant.{IsCoherent, first, Reachable-IsCoherent}
use esp32_p4_bacnet_switches.Settings.Store.Restart.{
  config_store_update-restart, config_store_update-refused,
}
use esp32_p4_bacnet_switches.Server.Start.{may_start, Reachable-may_start}
use esp32_p4_bacnet_switches.Tests.Flash.{Content, ideal_nvs, ideal_nvs-NvsLaws, blank, sum_of}

abbrev build : BuildSettings
build = record {
  bacnet_device_instance = 26001;
  toggle_input_instances = 1 ∷ 2 ∷ 3 ∷ [];
  bacnet_udp_port = 47808;
  bacnet_vendor_identifier = 555;
  toggle_debounce_ms = 40;
  toggle_input_1_active_low = false;
  toggle_input_2_active_low = true;
  toggle_input_3_active_low = false;
  bacnet_device_name = codes "P4 switches";
  bacnet_vendor_name = codes "Plant";
  toggle_input_1_name = codes "Switch 1";
  toggle_input_2_name = codes "Switch 2";
  toggle_input_3_name = codes "Switch 3";
}

abbrev Disk : Type 0
Disk = Content FirmwareConfig

abbrev nvs : Nvs Disk FirmwareConfig
nvs = ideal_nvs

abbrev factory : FirmwareConfig
factory = factory_defaults sum_of build

factory_valid : config_model_validate factory ≡ true
unfolding printable_text object_names all_unique object_names_unique differs_from_prior input_valid
    inputs_valid config_model_validate covered_bytes config_model_crc32 config_model_finalize
    config_model_is_valid_blob same_inputs config_model_mutable_equal factory_defaults
    write_saved_config load_saved config_store_init candidate_of config_store_update
factory_valid = refl

validate-names_apart_example :
    same_text (get_or (object_names factory) 0 []) (get_or (object_names factory) 26 []) ≡ false
validate-names_apart_example =
    validate-names_apart factory 0 26 factory_valid (omega arith) (omega arith)

validate-instances_apart_example :
    IsInputInstance (input_instance factory 0)
    × IsInputInstance (input_instance factory 2)
    × (input_instance factory 0 ≢ input_instance factory 2)
validate-instances_apart_example =
    validate-instances_apart factory 0 2 factory_valid (omega arith) (omega arith)

-- After a first start.
abbrev at_first : Globals
at_first = record { active_config = factory; saved_config = factory; restart_required = false }

abbrev first_disk : Disk
first_disk = (write_saved_config sum_of nvs blank factory).1

first_start : config_store_init sum_of nvs build true blank ≡ started at_first first_disk
unfolding printable_text object_names all_unique object_names_unique differs_from_prior input_valid
    inputs_valid config_model_validate covered_bytes config_model_crc32 config_model_finalize
    config_model_is_valid_blob same_inputs config_model_mutable_equal factory_defaults
    write_saved_config load_saved config_store_init candidate_of config_store_update
first_start = refl

Reachable-IsCoherent_example : IsCoherent sum_of at_first
Reachable-IsCoherent_example =
    Reachable-IsCoherent sum_of nvs build factory_valid (first blank true first_start)

-- A change of the port.
abbrev moved : FirmwareConfig
moved = record factory { bacnet_port = 47809 }

abbrev changed : EspErr × Bool × Globals × Disk
changed = config_store_update sum_of nvs at_first first_disk moved

config_store_update-restart_example :
    config_store_init sum_of nvs build true changed.3
    ≡ started
        (record {
          active_config = changed.2.saved_config;
          saved_config = changed.2.saved_config;
          restart_required = false;
        })
        changed.3
unfolding printable_text object_names all_unique object_names_unique differs_from_prior input_valid
    inputs_valid config_model_validate covered_bytes config_model_crc32 config_model_finalize
    config_model_is_valid_blob same_inputs config_model_mutable_equal factory_defaults
    write_saved_config load_saved config_store_init candidate_of config_store_update
config_store_update-restart_example =
    config_store_update-restart sum_of nvs ideal_nvs-NvsLaws build at_first first_disk moved
      (Reachable-IsCoherent sum_of nvs build factory_valid (first blank true first_start)) refl refl

-- A change that is not one.
config_store_update-refused_example :
    let u = config_store_update sum_of nvs at_first first_disk factory in
    (u.2 ≡ at_first)
    × (is_ok u.0 ≡ config_model_validate factory && config_model_mutable_equal factory factory)
unfolding printable_text object_names all_unique object_names_unique differs_from_prior input_valid
    inputs_valid config_model_validate covered_bytes config_model_crc32 config_model_finalize
    config_model_is_valid_blob same_inputs config_model_mutable_equal factory_defaults
    write_saved_config load_saved config_store_init candidate_of config_store_update
config_store_update-refused_example =
    config_store_update-refused sum_of nvs at_first first_disk factory refl

Reachable-may_start_example : may_start sum_of at_first.active_config ≡ true
Reachable-may_start_example =
    Reachable-may_start sum_of nvs build factory_valid (first blank true first_start)
