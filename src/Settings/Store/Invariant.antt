-- ===== src/Settings/Store/Invariant.antt =====
-- What holds of the globals of the configuration store between two operations, whatever the storage
-- does.
use std.Path.{subst}
use esp32_p4_bacnet_switches.Base.{
  ℕ, ◌≡◌, refl, sym, ◌∙◌, Bool, true, false, not, List, some, arith, inl, inr, Bool-cases,
  Option-cases,
}
use esp32_p4_bacnet_switches.Sdk.{Nvs, Started, started, start_failed, is_ok}
use esp32_p4_bacnet_switches.Settings.Model.{
  FirmwareConfig, config_model_validate, config_model_is_valid_blob, config_model_mutable_equal,
  inputs_valid, input_valid, differs_from_prior, object_names_unique, object_names,
}
use esp32_p4_bacnet_switches.Settings.Model.Laws.{
  mutable_equal_refl, is_valid_blob-finalize, validate-finalize,
}
use esp32_p4_bacnet_switches.Settings.Store.{
  BuildSettings, Globals, factory_defaults, fresh, load_saved, write_saved_config,
  config_store_init, candidate_of, config_store_update, revised, build_config,
}

-- Both configurations are valid, and a restart is asked for exactly if what a user can change differs.
pub record IsCoherent (crc : List ℕ → ℕ) (g : Globals) : Type 0 where
  pub active_valid : config_model_is_valid_blob crc g.active_config ≡ true
  pub saved_valid : config_model_is_valid_blob crc g.saved_config ≡ true
  pub restart_right :
      g.restart_required ≡ not (config_model_mutable_equal g.saved_config g.active_config)

module _ {F : Type 0} (crc : List ℕ → ℕ) (nvs : Nvs F FirmwareConfig) where
  load_saved-valid :
      (f : F) {c : FirmwareConfig}
      → load_saved crc nvs f ≡ some c
      → config_model_is_valid_blob crc c ≡ true
  unfolding load_saved
  load_saved-valid f e = ground arith

  pub fresh-IsCoherent :
      (c : FirmwareConfig)
      → config_model_is_valid_blob crc c ≡ true
      → IsCoherent crc (fresh crc nvs c)
  fresh-IsCoherent c valid = record {
    active_valid = valid;
    saved_valid = valid;
    restart_right = ground (arith, mutable_equal_refl c);
  }

  validate-revised :
      (g : Globals) (c : FirmwareConfig)
      → config_model_validate (revised crc nvs g c) ≡ config_model_validate c
  unfolding config_model_validate inputs_valid input_valid differs_from_prior object_names_unique
      object_names
  validate-revised g c = refl

  pub candidate-valid :
      (g : Globals) (c : FirmwareConfig)
      → config_model_is_valid_blob crc g.active_config ≡ true
      → config_model_validate c ≡ true
      → config_model_is_valid_blob crc (candidate_of crc nvs g c) ≡ true
  unfolding candidate_of
  candidate-valid g c valid accepted =
      ground (arith, is_valid_blob-finalize crc (revised crc nvs g c), validate-revised g c)

  -- A start that succeeds leaves consistent globals.
  abbrev StartsCoherent : Started Globals F → Type 0
  StartsCoherent (started g f) = IsCoherent crc g
  StartsCoherent (start_failed r f) = Unit {0}

  module _ (build : BuildSettings)
      (build_valid : config_model_validate (factory_defaults crc build) ≡ true) where
    factory_defaults-valid : config_model_is_valid_blob crc (factory_defaults crc build) ≡ true
    unfolding factory_defaults
    factory_defaults-valid =
        is_valid_blob-finalize crc (build_config build)
        ∙ sym (validate-finalize crc (build_config build))
        ∙ build_valid

    init-coherent :
        (has_memory : Bool) (f : F) → StartsCoherent (config_store_init crc nvs build has_memory f)
    unfolding config_store_init
    init-coherent false f = tt
    init-coherent true f =
        let d = factory_defaults crc build in
        elim (Option-cases (load_saved crc nvs f)) [
          | inr (c, e) ↦ rw (e, config_store_init) (fresh-IsCoherent c (load_saved-valid f e))
          | inl e ↦ elim (Bool-cases (is_ok (write_saved_config crc nvs f d).0)) [
            | inl written ↦
                rw (e, config_store_init)
                  (rw (written, config_store_init) (fresh-IsCoherent d factory_defaults-valid))
            | inr failed ↦ rw (e, config_store_init) (rw (failed, config_store_init) tt)
          ]
        ]

    pub init-IsCoherent :
        (f : F) (has_memory : Bool) {g' : Globals} {f' : F}
        → config_store_init crc nvs build has_memory f ≡ started g' f'
        → IsCoherent crc g'
    init-IsCoherent f has_memory e = subst StartsCoherent e (init-coherent has_memory f)

  pub update-IsCoherent :
      (g : Globals) (f : F) (c : FirmwareConfig)
      → IsCoherent crc g
      → IsCoherent crc (config_store_update crc nvs g f c).2
  unfolding config_store_update
  update-IsCoherent g f c v =
      ground (arith, v.active_valid, v.saved_valid, v.restart_right, candidate-valid g c)

  -- The states from a first start on. A restart finds the flash in any state.
  pub data Reachable (build : BuildSettings) : Globals × F → Type 0 where
    first :
        (f : F) (has_memory : Bool) {g : Globals} {f' : F}
        → config_store_init crc nvs build has_memory f ≡ started g f'
        → Reachable build (g, f')
    update :
        {g : Globals} {f : F}
        → Reachable build (g, f)
        → (c : FirmwareConfig)
        → Reachable build
            ((config_store_update crc nvs g f c).2, (config_store_update crc nvs g f c).3)

  -- If the factory defaults are acceptable, then after a start on any flash and any updates,
  -- whatever the storage answers, the active and the saved configuration are valid blobs, and a
  -- restart is asked for exactly if they differ in what a user can change.
  pub Reachable-IsCoherent :
      (build : BuildSettings)
      → config_model_validate (factory_defaults crc build) ≡ true
      → {s : Globals × F} → Reachable build s
      → IsCoherent crc s.0
  Reachable-IsCoherent build build_valid (first f has_memory e) =
      init-IsCoherent build build_valid f has_memory e
  Reachable-IsCoherent build build_valid (update {g} {f} r c) =
      update-IsCoherent g f c (Reachable-IsCoherent build build_valid r)
