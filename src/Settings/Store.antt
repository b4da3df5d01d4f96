-- ===== src/Settings/Store.antt =====
-- main/config_store.c: the stored configuration. The globals are a record that is passed along with the
-- content of the flash; a mutex is waited for without limit, so taking it succeeds.

pub mod Invariant
pub mod Restart
use esp32_p4_bacnet_switches.Base.{
  ℕ, ◌+◌, ◌-◌, Bool, true, false, not, List, [], ◌∷◌, ◌++◌, Option, none, some, ◌==◌, if◌then◌else◌,
  length, take, replicate, codes, uint32_max,
}
use esp32_p4_bacnet_switches.Sdk.{
  EspErr, esp_ok, invalid_arg, no_mem, is_ok, current_key, Nvs, Started, started, start_failed,
  and_then, with_handle,
}
use esp32_p4_bacnet_switches.Settings.Model.{
  FirmwareConfig, config_model_validate, config_model_finalize, config_model_is_valid_blob,
  config_model_mutable_equal,
}

-- The settings of the build, `CONFIG_…` of sdkconfig.h.
pub record BuildSettings : Type 0 where
  pub bacnet_device_instance : ℕ
  pub toggle_input_instances : List ℕ
  pub bacnet_udp_port : ℕ
  pub bacnet_vendor_identifier : ℕ
  pub toggle_debounce_ms : ℕ
  pub toggle_input_1_active_low : Bool
  pub toggle_input_2_active_low : Bool
  pub toggle_input_3_active_low : Bool
  pub bacnet_device_name : List ℕ
  pub bacnet_vendor_name : List ℕ
  pub toggle_input_1_name : List ℕ
  pub toggle_input_2_name : List ℕ
  pub toggle_input_3_name : List ℕ

-- The globals of the file.
pub record Globals : Type 0 where
  pub active_config : FirmwareConfig
  pub saved_config : FirmwareConfig
  pub restart_required : Bool

-- `snprintf(array, size, "%s", text)` into an array of zeros.
abbrev pub char_array : ℕ → List ℕ → List ℕ
char_array size text = let kept = take (size - 1) text in kept ++ replicate (size - length kept) 0

abbrev pub flag_bit : Bool → ℕ → ℕ
flag_bit flag bit = if flag then bit else 0

-- The defaults before they are stamped. The flags have a bit each, so `|` adds.
abbrev pub build_config : BuildSettings → FirmwareConfig
build_config build = record {
  magic = 0;
  schema = 0;
  size = 0;
  device_instance = build.bacnet_device_instance;
  database_revision = 3;
  input_instances = build.toggle_input_instances;
  bacnet_port = build.bacnet_udp_port;
  vendor_identifier = build.bacnet_vendor_identifier;
  debounce_ms = build.toggle_debounce_ms;
  input_active_low_mask =
      flag_bit build.toggle_input_1_active_low 1
      + flag_bit build.toggle_input_2_active_low 2
      + flag_bit build.toggle_input_3_active_low 4;
  reserved = 0;
  device_name = char_array 64 build.bacnet_device_name;
  vendor_name = char_array 64 build.bacnet_vendor_name;
  location = char_array 96 (codes "Uncommissioned");
  input_names =
      char_array 64 build.toggle_input_1_name
      ∷ char_array 64 build.toggle_input_2_name
      ∷ char_array 64 build.toggle_input_3_name
      ∷ [];
  crc32 = 0;
}

unfoldable pub factory_defaults : (List ℕ → ℕ) → BuildSettings → FirmwareConfig
factory_defaults crc build = config_model_finalize crc (build_config build)

module _ {F : Type 0} (crc : List ℕ → ℕ) (nvs : Nvs F FirmwareConfig) where
  unfoldable pub write_saved_config : F → FirmwareConfig → EspErr × F
  write_saved_config f config =
      with_handle nvs f (λ g. and_then (nvs.set_blob g current_key config) nvs.commit)

  -- The stored configuration, if it can be read and is valid.
  unfoldable pub load_saved : F → Option FirmwareConfig
  load_saved f =
      if not (is_ok (nvs.open_readonly f)) then none else elim (nvs.get_blob f current_key) [
        | none ↦ none
        | some config ↦ if config_model_is_valid_blob crc config then some config else none
      ]

  -- The globals of a start with this configuration.
  abbrev pub fresh : FirmwareConfig → Globals
  fresh config = record { active_config = config; saved_config = config; restart_required = false }

  -- `has_memory` tells whether the mutex was made.
  unfoldable pub config_store_init : BuildSettings → Bool → F → Started Globals F
  unfolding load_saved write_saved_config factory_defaults
  config_store_init build has_memory f =
      if not has_memory then start_failed no_mem f else elim (load_saved f) [
        | some config ↦ started (fresh config) f
        | none ↦
            let (result, g) = write_saved_config f (factory_defaults crc build) in
            if is_ok result
            then started (fresh (factory_defaults crc build)) g
            else start_failed result g
      ]

  -- A new configuration with the next revision.
  abbrev pub revised : Globals → FirmwareConfig → FirmwareConfig
  revised g config = record config {
    database_revision =
        if g.saved_config.database_revision == uint32_max
        then 1
        else g.saved_config.database_revision + 1;
  }

  -- The candidate that a new configuration becomes.
  unfoldable pub candidate_of : Globals → FirmwareConfig → FirmwareConfig
  candidate_of g config =
      if config_model_mutable_equal config g.active_config
      then g.active_config
      else config_model_finalize crc (revised g config)

  -- The code, whether anything changed, the globals and the flash.
  unfoldable pub config_store_update : Globals → F → FirmwareConfig → EspErr × Bool × Globals × F
  unfolding candidate_of write_saved_config
  config_store_update g f config =
      if not (config_model_validate config)
      then (invalid_arg, false, g, f)
      else if config_model_mutable_equal config g.saved_config
      then (esp_ok, false, g, f)
      else (let candidate = candidate_of g config in
          let (result, h) = write_saved_config f candidate in
          if is_ok result
          then (
            result,
            true,
            record g {
              saved_config = candidate;
              restart_required = not (config_model_mutable_equal candidate g.active_config);
            },
            h,
          )
          else (result, false, g, h))
