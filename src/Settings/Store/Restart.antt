-- ===== src/Settings/Store/Restart.antt =====
-- What the next start does after a change of the configuration, and how a change is taken back or
-- refused.
use esp32_p4_bacnet_switches.Base.{ℕ, ◌≡◌, refl, true, false, ◌&&◌, List, some, arith}
use esp32_p4_bacnet_switches.Sdk.{current_key, Nvs, NvsLaws, started, is_ok}
use esp32_p4_bacnet_switches.Settings.Model.{
  FirmwareConfig, config_model_validate, config_model_is_valid_blob, config_model_mutable_equal,
}
use esp32_p4_bacnet_switches.Settings.Model.Laws.{mutable_equal_refl}
use esp32_p4_bacnet_switches.Settings.Store.{
  BuildSettings, Globals, fresh, load_saved, write_saved_config, config_store_init, candidate_of,
  config_store_update,
}
use esp32_p4_bacnet_switches.Settings.Store.Invariant.{IsCoherent, update-IsCoherent}

module _ {F : Type 0} (crc : List ℕ → ℕ) (nvs : Nvs F FirmwareConfig) where
  init-loaded :
      (build : BuildSettings) (f : F) (c : FirmwareConfig)
      → load_saved crc nvs f ≡ some c
      → config_store_init crc nvs build true f ≡ started (fresh crc nvs c) f
  unfolding config_store_init
  init-loaded build f c e = rw (e, config_store_init) refl

  load_saved-some :
      (f : F) (c : FirmwareConfig)
      → is_ok (nvs.open_readonly f) ≡ true
      → nvs.get_blob f current_key ≡ some c
      → config_model_is_valid_blob crc c ≡ true
      → load_saved crc nvs f ≡ some c
  unfolding load_saved
  load_saved-some f c opens stored valid = ground arith

  write_saved_config-contents :
      NvsLaws nvs
      → (f : F) (c : FirmwareConfig) → is_ok (write_saved_config crc nvs f c).0 ≡ true
      → nvs.get_blob (write_saved_config crc nvs f c).1 current_key ≡ some c
  unfolding write_saved_config
  write_saved_config-contents l f c ok = ground (
    arith,
    l.get_blob-set_blob f current_key c,
    l.get_blob-commit (nvs.set_blob f current_key c).1 current_key,
  )

  update-stored :
      NvsLaws nvs
      → (g : Globals) (f : F) (c : FirmwareConfig)
      → let u = config_store_update crc nvs g f c in
        u.1 ≡ true → nvs.get_blob u.3 current_key ≡ some u.2.saved_config
  unfolding config_store_update
  update-stored l g f c changed =
      ground (arith, write_saved_config-contents l f (candidate_of crc nvs g c))

  -- If the globals are coherent, an update of the BACnet configuration reports a change, and the
  -- flash can then be opened for reading, the next start succeeds with the configuration that was
  -- saved, active and saved, and asks for no restart.
  pub config_store_update-restart :
      NvsLaws nvs
      → (build : BuildSettings) (g : Globals) (f : F) (c : FirmwareConfig)
      → let u = config_store_update crc nvs g f c in
        IsCoherent crc g
        → u.1 ≡ true
        → is_ok (nvs.open_readonly u.3) ≡ true
        → config_store_init crc nvs build true u.3
          ≡ started
              (record {
                active_config = u.2.saved_config;
                saved_config = u.2.saved_config;
                restart_required = false;
              })
              u.3
  config_store_update-restart l build g f c v changed opens =
      let u = config_store_update crc nvs g f c in
      init-loaded build u.3 u.2.saved_config (
        load_saved-some u.3 u.2.saved_config opens (update-stored l g f c changed)
          (update-IsCoherent crc nvs g f c v).saved_valid)

  -- The active configuration saved again asks for no restart.
  pub config_store_update-take_back :
      (g : Globals) (f : F) (c : FirmwareConfig)
      → let u = config_store_update crc nvs g f c in
        config_model_mutable_equal c g.active_config ≡ true
        → u.1 ≡ true
        → (u.2.saved_config ≡ g.active_config) × (u.2.restart_required ≡ false)
  unfolding config_store_update candidate_of
  config_store_update-take_back g f c same changed =
      ground (arith, mutable_equal_refl g.active_config)

  -- An update of the BACnet configuration that reports no change leaves the globals as they were,
  -- and it is a success exactly if the configuration is acceptable and equals the saved one in what
  -- a user can change.
  pub config_store_update-refused :
      (g : Globals) (f : F) (c : FirmwareConfig)
      → let u = config_store_update crc nvs g f c in
        (u.1 ≡ false)
        → (u.2 ≡ g)
          × (is_ok u.0 ≡ config_model_validate c && config_model_mutable_equal c g.saved_config)
  unfolding config_store_update
  config_store_update-refused g f c unchanged = ground arith
