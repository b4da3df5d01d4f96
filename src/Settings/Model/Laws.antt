-- ===== src/Settings/Model/Laws.antt =====
-- The stamping of a configuration, and the comparison of what a user may change.
use esp32_p4_bacnet_switches.Base.{
  ℕ, zero, suc, ◌≡◌, refl, true, List, c_string, same_bytes_refl, arith,
}
use esp32_p4_bacnet_switches.Settings.Model.{
  FirmwareConfig, config_model_validate, config_model_finalize, config_model_is_valid_blob,
  config_model_mutable_equal, same_inputs, input_name, inputs_valid, input_valid,
  differs_from_prior, object_names_unique, object_names,
}

same_inputs_refl : (c : FirmwareConfig) (n : ℕ) → same_inputs c c n ≡ true
unfolding same_inputs
same_inputs_refl c zero = refl
same_inputs_refl c (suc n) =
    ground (arith, same_inputs_refl c n, same_bytes_refl (c_string (input_name c n)))

pub mutable_equal_refl : (c : FirmwareConfig) → config_model_mutable_equal c c ≡ true
unfolding config_model_mutable_equal
mutable_equal_refl c = ground (
  arith,
  same_bytes_refl (c_string c.device_name),
  same_bytes_refl (c_string c.vendor_name),
  same_bytes_refl (c_string c.location),
  same_inputs_refl c 3,
)

module _ (crc : List ℕ → ℕ) where
  -- The stamps are no part of what is checked.
  pub validate-finalize :
      (c : FirmwareConfig)
      → config_model_validate (config_model_finalize crc c) ≡ config_model_validate c
  unfolding config_model_finalize config_model_validate inputs_valid input_valid differs_from_prior
      object_names_unique object_names
  validate-finalize c = refl

  pub is_valid_blob-finalize :
      (c : FirmwareConfig)
      → config_model_is_valid_blob crc (config_model_finalize crc c) ≡ config_model_validate c
  unfolding config_model_finalize config_model_is_valid_blob
  is_valid_blob-finalize c = ground (arith, validate-finalize c)

  pub mutable_equal-finalize :
      (c d : FirmwareConfig)
      → config_model_mutable_equal (config_model_finalize crc c) d ≡ config_model_mutable_equal c d
  unfolding config_model_finalize config_model_mutable_equal same_inputs
  mutable_equal-finalize c d = refl
