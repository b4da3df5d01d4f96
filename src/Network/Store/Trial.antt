-- ===== src/Network/Store/Trial.antt =====
-- A configuration is on trial for one start: the next one without a confirmation ends the trial.
use std.Path.{subst}
use esp32_p4_bacnet_switches.Base.{
  ℕ, ◌≡◌, ◌∙◌, true, false, List, none, some, arith, inl, inr, Bool-cases, Option-cases,
}
use esp32_p4_bacnet_switches.Sdk.{
  Started, started, start_failed, is_ok, Key, confirmed_key, pending_key, trial_boot_key, Nvs,
  NvsLaws,
}
use esp32_p4_bacnet_switches.Network.Model.{
  NetworkConfig, network_config_mutable_equal, network_config_validate,
}
use esp32_p4_bacnet_switches.Network.Store.{
  Globals, read_blob, finish_start, roll_back, start_trial, start_with, network_config_store_init,
  trial_boot_attempted, mark_trial_boot_attempted, erase_pending, write_single_blob,
  factory_defaults,
}
use esp32_p4_bacnet_switches.Network.Store.Flash.{mark-contents, write_single_blob-contents}
use esp32_p4_bacnet_switches.Network.Store.Invariant.{init-IsConsistent}
use esp32_p4_bacnet_switches.Network.Store.Start.{StartsAs, starts_after_trial}

module _ {F : Type 0} (crc : List ℕ → ℕ) (nvs : Nvs F NetworkConfig) (l : NvsLaws nvs)
    (hostname : List ℕ) where
  -- What a start that begins a trial leaves in the flash: the confirmed configuration and the mark.
  abbrev MarksTrial : Started Globals F → Type 0
  MarksTrial (started g f') =
      g.trial_active ≡ true
      → (nvs.get_blob f' confirmed_key ≡ some g.confirmed_config)
        × (nvs.get_u8 f' trial_boot_key ≡ some 1)
  MarksTrial (start_failed result f') = Unit {0}

  read_blob-get_blob :
      (f : F) (k : Key) {c : NetworkConfig}
      → read_blob crc nvs f k ≡ some c
      → nvs.get_blob f k ≡ some c
  unfolding read_blob
  read_blob-get_blob f k e = ground arith

  finish_none-marks : (c : NetworkConfig) (f : F) → MarksTrial (finish_start crc nvs c none f)
  unfolding finish_start
  finish_none-marks c f = ground arith

  roll_back-marks : (c : NetworkConfig) (f : F) → MarksTrial (roll_back crc nvs c f)
  unfolding roll_back
  roll_back-marks c f = elim (Bool-cases (is_ok (erase_pending nvs f).0)) [
    | inl done ↦ rw (done, roll_back) (finish_none-marks c (erase_pending nvs f).1)
    | inr failed ↦ rw (failed, roll_back) tt
  ]

  finish_some-marks :
      (c p : NetworkConfig) (f : F)
      → nvs.get_blob f confirmed_key ≡ some c
      → nvs.get_u8 f trial_boot_key ≡ some 1
      → MarksTrial (finish_start crc nvs c (some p) f)
  unfolding finish_start
  finish_some-marks c p f stored marked = λ on. (stored, marked)

  start_trial-marks :
      (c p : NetworkConfig) (f : F)
      → nvs.get_blob f confirmed_key ≡ some c
      → MarksTrial (start_trial crc nvs c p f)
  unfolding start_trial
  start_trial-marks c p f stored =
      let g = (mark_trial_boot_attempted nvs f).1 in
      elim (Bool-cases (trial_boot_attempted nvs f)) [
        | inl again ↦ rw (again, start_trial) (roll_back-marks c f)
        | inr new ↦ elim (Bool-cases (is_ok (mark_trial_boot_attempted nvs f).0)) [
          | inr failed ↦ rw (new, start_trial) (rw (failed, start_trial) (roll_back-marks c g))
          | inl marked ↦
              let kept = mark-contents nvs l f marked in
              rw (new, start_trial)
                (rw (marked, start_trial) (finish_some-marks c p g (kept.1 ∙ stored) kept.2))
        ]
      ]

  start_with-marks :
      (c : NetworkConfig) (f : F)
      → nvs.get_blob f confirmed_key ≡ some c
      → MarksTrial (start_with crc nvs c f)
  unfolding start_with
  start_with-marks c f stored = elim (Option-cases (read_blob crc nvs f pending_key)) [
    | inl missing ↦ rw (missing, start_with) (finish_none-marks c f)
    | inr (p, e) ↦ elim (Bool-cases (network_config_mutable_equal p c)) [
      | inl same ↦ rw (e, start_with) (rw (same, start_with) (finish_none-marks c f))
      | inr differs ↦ rw (e, start_with) (rw (differs, start_with) (start_trial-marks c p f stored))
    ]
  ]

  init-marks : (f : F) → MarksTrial (network_config_store_init crc nvs hostname true f)
  unfolding network_config_store_init
  init-marks f =
      let d = factory_defaults hostname crc in
      let w = write_single_blob nvs f confirmed_key d in
      elim (Option-cases (read_blob crc nvs f confirmed_key)) [
        | inr (c, e) ↦
            rw (e, network_config_store_init)
              (start_with-marks c f (read_blob-get_blob f confirmed_key e))
        | inl e ↦ elim (Bool-cases (network_config_validate d)) [
          | inr bad ↦ rw (e, network_config_store_init) (rw (bad, network_config_store_init) tt)
          | inl good ↦ elim (Bool-cases (is_ok w.0)) [
            | inr failed ↦
                rw (e, network_config_store_init)
                  (rw (good, network_config_store_init) (rw (failed, network_config_store_init) tt))
            | inl written ↦
                rw (e, network_config_store_init)
                  (rw (good, network_config_store_init)
                    (rw (written, network_config_store_init)
                      (start_with-marks d w.1 (write_single_blob-contents nvs l f d written))))
          ]
        ]
      ]

  -- If a start begins a trial, and the flash that it leaves can be opened for reading and its
  -- pending configuration be erased, then the next start on that flash succeeds with the confirmed
  -- configuration active and no trial.
  pub trial_once :
      (f : F) {g : Globals} {f' : F}
      → network_config_store_init crc nvs hostname true f ≡ started g f'
      → g.trial_active ≡ true
      → is_ok (nvs.open_readonly f') ≡ true
      → is_ok (erase_pending nvs f').0 ≡ true
      → StartsAs g.confirmed_config g.confirmed_config false
          (network_config_store_init crc nvs hostname true f')
  trial_once f {g} {f'} e on opens erased =
      let kept = subst MarksTrial e (init-marks f) on in
      let v = init-IsConsistent crc nvs hostname f true e in
      starts_after_trial crc nvs l hostname f' g.confirmed_config opens kept.0 kept.1 erased
        v.confirmed_valid
