-- ===== src/Network/Store/Restart.antt =====
-- What the next start does after a change, a confirmation and a rollback.
use esp32_p4_bacnet_switches.Base.{
  not, false, ◌&&◌, ℕ, ◌≡◌, ◌∙◌, true, false, List, none, some, arith,
}
use esp32_p4_bacnet_switches.Sdk.{is_ok, confirmed_key, pending_key, trial_boot_key, Nvs, NvsLaws}
use esp32_p4_bacnet_switches.Network.Model.{
  NetworkConfig, network_config_is_valid_blob, network_config_mutable_equal,
  network_config_validate,
}
use esp32_p4_bacnet_switches.Network.Store.{
  Globals, network_config_store_init, network_config_update, candidate_of,
  network_config_confirm_trial, trial_expired, mark_trial_boot_attempted,
}
use esp32_p4_bacnet_switches.Network.Store.Flash.{
  stage_pending-contents, erase_pending-contents, promote_active-contents,
}
use esp32_p4_bacnet_switches.Network.Store.Invariant.{
  IsConsistent, candidate-valid, mutable_equal-candidate,
}
use esp32_p4_bacnet_switches.Network.Store.Start.{StartsAs, starts_confirmed, starts_pending}

module _ {F : Type 0} (crc : List ℕ → ℕ) (nvs : Nvs F NetworkConfig) (l : NvsLaws nvs)
    (hostname : List ℕ) where
  -- What the flash holds after a change: the saved configuration is either the confirmed one, or
  -- pending and not yet on trial.
  pub data Leaves (g' : Globals) (f' : F) (confirmed : NetworkConfig) : Type 0 where
    settled :
        nvs.get_blob f' pending_key ≡ none
        → g'.saved_config ≡ confirmed
        → g'.pending_present ≡ false
        → Leaves g' f' confirmed
    staged :
        nvs.get_blob f' pending_key ≡ some g'.saved_config
        → nvs.get_u8 f' trial_boot_key ≡ none
        → network_config_is_valid_blob crc g'.saved_config ≡ true
        → network_config_mutable_equal g'.saved_config confirmed ≡ false
        → g'.pending_present ≡ true
        → Leaves g' f' confirmed

  update-Leaves :
      (g : Globals) (f : F) (c : NetworkConfig)
      → let u = network_config_update crc nvs g f c in
        u.1 ≡ true → Leaves u.2 u.3 g.confirmed_config
  unfolding network_config_update
  update-Leaves g f c changed = ground (
    arith,
    erase_pending-contents nvs l f,
    stage_pending-contents nvs l f (candidate_of crc nvs g c),
    candidate-valid crc nvs g c,
    mutable_equal-candidate crc nvs g c g.confirmed_config,
  )

  update-confirmed :
      (g : Globals) (f : F) (c : NetworkConfig)
      → let u = network_config_update crc nvs g f c in
        u.1 ≡ true → nvs.get_blob u.3 confirmed_key ≡ nvs.get_blob f confirmed_key
  unfolding network_config_update
  update-confirmed g f c changed = ground (
    arith,
    erase_pending-contents nvs l f,
    stage_pending-contents nvs l f (candidate_of crc nvs g c),
  )

  Leaves-starts :
      (g : Globals) (f : F) (c : NetworkConfig)
      → Leaves g f c
      → network_config_is_valid_blob crc c ≡ true
      → nvs.get_blob f confirmed_key ≡ some c
      → is_ok (nvs.open_readonly f) ≡ true
      → is_ok (mark_trial_boot_attempted nvs f).0 ≡ true
      → StartsAs g.saved_config c g.pending_present
          (network_config_store_init crc nvs hostname true f)
  Leaves-starts g f c (settled missing same idle) valid stored opens marks =
      rw (same, idle) (starts_confirmed crc nvs l hostname f c opens stored missing valid)
  Leaves-starts g f c (staged pending unmarked valid' differs present) valid stored opens marks =
      rw (present) (
        starts_pending crc nvs l hostname f c g.saved_config opens stored pending unmarked marks
          valid valid' differs)

  -- If the globals are consistent, the flash holds the confirmed configuration, an update reports a
  -- change, and after it the flash can be opened and marked, then the next start succeeds with the
  -- new saved configuration active, the same one confirmed, and a trial exactly if the change is
  -- pending.
  pub network_config_update-restart :
      (g : Globals) (f : F) (c : NetworkConfig)
      → let u = network_config_update crc nvs g f c in
        IsConsistent crc g
        → nvs.get_blob f confirmed_key ≡ some g.confirmed_config
        → u.1 ≡ true
        → is_ok (nvs.open_readonly u.3) ≡ true
        → is_ok (mark_trial_boot_attempted nvs u.3).0 ≡ true
        → StartsAs u.2.saved_config g.confirmed_config u.2.pending_present
            (network_config_store_init crc nvs hostname true u.3)
  network_config_update-restart g f c v stored changed opens marks =
      let u = network_config_update crc nvs g f c in
      Leaves-starts u.2 u.3 g.confirmed_config (update-Leaves g f c changed) v.confirmed_valid
        (update-confirmed g f c changed ∙ stored) opens marks

  confirm-contents :
      (g : Globals) (f : F)
      → let u = network_config_confirm_trial crc nvs g f in
        is_ok u.0 ≡ true
        → (nvs.get_blob u.2 pending_key ≡ none)
          × (nvs.get_blob u.2 confirmed_key ≡ some g.active_config)
  unfolding network_config_confirm_trial
  confirm-contents g f ok = ground (arith, promote_active-contents nvs l f g.active_config)

  -- If the globals are consistent, the confirmation of a trial succeeds, and the flash can then be
  -- opened for reading, the next start succeeds with the configuration that was on trial active and
  -- confirmed, and no trial.
  pub network_config_confirm_trial-restart :
      (g : Globals) (f : F)
      → let u = network_config_confirm_trial crc nvs g f in
        IsConsistent crc g
        → is_ok u.0 ≡ true
        → is_ok (nvs.open_readonly u.2) ≡ true
        → StartsAs g.active_config g.active_config false
            (network_config_store_init crc nvs hostname true u.2)
  network_config_confirm_trial-restart g f v ok opens =
      let u = network_config_confirm_trial crc nvs g f in
      let kept = confirm-contents g f ok in
      starts_confirmed crc nvs l hostname u.2 g.active_config opens kept.1 kept.0 v.active_valid

  expired-contents :
      (g : Globals) (f : F)
      → let u = trial_expired crc nvs g f in
        u.0 ≡ true
        → (nvs.get_blob u.2 pending_key ≡ none)
          × (nvs.get_blob u.2 confirmed_key ≡ nvs.get_blob f confirmed_key)
  unfolding trial_expired
  expired-contents g f restarts = ground (arith, erase_pending-contents nvs l f)

  pub trial_expired-restart :
      (g : Globals) (f : F)
      → let u = trial_expired crc nvs g f in
        IsConsistent crc g
        → nvs.get_blob f confirmed_key ≡ some g.confirmed_config
        → u.0 ≡ true
        → is_ok (nvs.open_readonly u.2) ≡ true
        → StartsAs g.confirmed_config g.confirmed_config false
            (network_config_store_init crc nvs hostname true u.2)
  trial_expired-restart g f v stored restarts opens =
      let u = trial_expired crc nvs g f in
      let kept = expired-contents g f restarts in
      starts_confirmed crc nvs l hostname u.2 g.confirmed_config opens (kept.1 ∙ stored) kept.0
        v.confirmed_valid

module _ {F : Type 0} (crc : List ℕ → ℕ) (nvs : Nvs F NetworkConfig) where
  pub network_config_update-refused :
      (g : Globals) (f : F) (c : NetworkConfig)
      → let u = network_config_update crc nvs g f c in
        (u.1 ≡ false)
        → (u.2 ≡ g)
          × (is_ok u.0
              ≡ network_config_validate c
                && not g.trial_active
                && network_config_mutable_equal c g.saved_config)
  unfolding network_config_update
  network_config_update-refused g f c unchanged = ground arith
