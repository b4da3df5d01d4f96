-- ===== src/Network/Store.antt =====
-- main/network_config_store.c: the stored configurations and the trial of a new one. The globals are a
-- record that is passed along with the content of the flash. A mutex is waited for without limit, so
-- taking it succeeds; the code between taking and giving it is one step.
pub mod Flash
pub mod Invariant
pub mod Start
pub mod Restart
pub mod Trial
use esp32_p4_bacnet_switches.Base.{
  ℕ, ◌+◌, ◌-◌, ◌*◌, ◌/◌, Bool, true, false, not, ◌&&◌, ◌||◌, List, [], ◌∷◌, Option, none, some, leb,
  ◌==◌, if◌then◌else◌, replicate, uint32_max, as_u32,
}
use esp32_p4_bacnet_switches.Sdk.{
  EspErr, esp_ok, nvs_not_found, invalid_arg, invalid_state, no_mem, other, is_ok, Key,
  confirmed_key, pending_key, trial_boot_key, Nvs, Started, started, start_failed, tolerate,
  and_then, with_handle,
}
use esp32_p4_bacnet_switches.Network.Model.{
  NetworkConfig, address_dhcp, network_config_validate, network_config_finalize,
  network_config_is_valid_blob, network_config_mutable_equal,
}

abbrev pub trial_timeout_seconds : ℕ
trial_timeout_seconds = 60

-- The globals of the file.
pub record Globals : Type 0 where
  pub active_config : NetworkConfig
  pub saved_config : NetworkConfig
  pub confirmed_config : NetworkConfig
  pub pending_present : Bool
  pub trial_active : Bool
  pub trial_deadline_ms : ℕ

module _ (hostname : List ℕ) (crc : List ℕ → ℕ) where
  -- `CONFIG_BACNET_HOSTNAME` is a setting of the build, as an array of 64 bytes.
  unfoldable pub factory_defaults : NetworkConfig
  factory_defaults = network_config_finalize crc (record {
    magic = 0;
    schema = 0;
    size = 0;
    revision = 1;
    mode = address_dhcp;
    reserved = replicate 3 0;
    hostname = hostname;
    ipv4 = replicate 4 0;
    netmask = replicate 4 0;
    gateway = replicate 4 0;
    dns = replicate 4 0;
    crc32 = 0;
  })

module _ {F : Type 0} (crc : List ℕ → ℕ) (nvs : Nvs F NetworkConfig) where
  unfoldable pub read_blob : F → Key → Option NetworkConfig
  read_blob f key = if not (is_ok (nvs.open_readonly f)) then none else elim (nvs.get_blob f key) [
    | none ↦ none
    | some config ↦ if network_config_is_valid_blob crc config then some config else none
  ]

module _ {F : Type 0} (nvs : Nvs F NetworkConfig) where
  unfoldable pub write_single_blob : F → Key → NetworkConfig → EspErr × F
  write_single_blob f key config =
      with_handle nvs f (λ g. and_then (nvs.set_blob g key config) nvs.commit)

  unfoldable pub stage_pending : F → NetworkConfig → EspErr × F
  stage_pending f config = with_handle nvs f (λ g.
      and_then
        (and_then (nvs.set_blob g pending_key config)
          (λ h. tolerate (nvs.erase_key h trial_boot_key)))
        nvs.commit)

  unfoldable pub trial_boot_attempted : F → Bool
  trial_boot_attempted f =
      if not (is_ok (nvs.open_readonly f))
      then false
      else elim (nvs.get_u8 f trial_boot_key) [ none ↦ false | some attempted ↦ attempted == 1 ]

  unfoldable pub mark_trial_boot_attempted : F → EspErr × F
  mark_trial_boot_attempted f =
      with_handle nvs f (λ g. and_then (nvs.set_u8 g trial_boot_key 1) nvs.commit)

  unfoldable pub erase_pending : F → EspErr × F
  erase_pending f = with_handle nvs f (λ g.
      and_then
        (and_then (tolerate (nvs.erase_key g pending_key))
          (λ h. tolerate (nvs.erase_key h trial_boot_key)))
        nvs.commit)

  unfoldable pub promote_active : F → NetworkConfig → EspErr × F
  promote_active f active = with_handle nvs f (λ g.
      and_then
        (and_then
          (and_then (nvs.set_blob g confirmed_key active)
            (λ h. tolerate (nvs.erase_key h pending_key)))
          (λ h. tolerate (nvs.erase_key h trial_boot_key)))
        nvs.commit)

module _ {F : Type 0} (crc : List ℕ → ℕ) (nvs : Nvs F NetworkConfig) where
  -- The end of the initialization, with the configuration on trial or none.
  unfoldable pub finish_start : NetworkConfig → Option NetworkConfig → F → Started Globals F
  finish_start confirmed (some pending) f =
      started
        (record {
          active_config = pending;
          saved_config = pending;
          confirmed_config = confirmed;
          pending_present = true;
          trial_active = true;
          trial_deadline_ms = 0;
        })
        f
  finish_start confirmed none f =
      started
        (record {
          active_config = confirmed;
          saved_config = confirmed;
          confirmed_config = confirmed;
          pending_present = false;
          trial_active = false;
          trial_deadline_ms = 0;
        })
        (erase_pending nvs f).1

  -- A rollback, without which the start fails.
  unfoldable pub roll_back : NetworkConfig → F → Started Globals F
  unfolding finish_start
  roll_back confirmed f =
      let (result, g) = erase_pending nvs f in
      if is_ok result then finish_start confirmed none g else start_failed result g

  -- A pending configuration that differs from the confirmed one: its first boot or a later one.
  unfoldable pub start_trial : NetworkConfig → NetworkConfig → F → Started Globals F
  unfolding finish_start roll_back
  start_trial confirmed pending f =
      if trial_boot_attempted nvs f
      then roll_back confirmed f
      else (let (marked, g) = mark_trial_boot_attempted nvs f in
          if is_ok marked then finish_start confirmed (some pending) g else roll_back confirmed g)

  unfoldable pub start_with : NetworkConfig → F → Started Globals F
  unfolding start_trial finish_start
  start_with confirmed f = elim (read_blob crc nvs f pending_key) [
    | none ↦ finish_start confirmed none f
    | some pending ↦
        if network_config_mutable_equal pending confirmed
        then finish_start confirmed none f
        else start_trial confirmed pending f
  ]

  -- `has_memory` tells whether the mutex was made.
  unfoldable pub network_config_store_init : List ℕ → Bool → F → Started Globals F
  unfolding start_with
  network_config_store_init hostname has_memory f =
      if not has_memory then start_failed no_mem f else elim (read_blob crc nvs f confirmed_key) [
        | some confirmed ↦ start_with confirmed f
        | none ↦
            let defaults = factory_defaults hostname crc in
            if not (network_config_validate defaults)
            then start_failed invalid_arg f
            else (let (result, g) = write_single_blob nvs f confirmed_key defaults in
                if is_ok result then start_with defaults g else start_failed result g)
      ]

  -- The candidate that a new configuration becomes.
  abbrev pub candidate_of : Globals → NetworkConfig → NetworkConfig
  candidate_of g config = network_config_finalize crc (record config {
    revision =
        if g.confirmed_config.revision == uint32_max then 1 else g.confirmed_config.revision + 1;
  })

  -- The code, whether anything changed, the globals and the flash.
  unfoldable pub network_config_update : Globals → F → NetworkConfig → EspErr × Bool × Globals × F
  network_config_update g f config =
      if not (network_config_validate config)
      then (invalid_arg, false, g, f)
      else if g.trial_active
      then (invalid_state, false, g, f)
      else if network_config_mutable_equal config g.saved_config
      then (esp_ok, false, g, f)
      else if network_config_mutable_equal config g.confirmed_config
      then (let (result, h) = erase_pending nvs f in
          if is_ok result
          then (
            result,
            true,
            record g { pending_present = false; saved_config = g.confirmed_config },
            h,
          )
          else (result, false, g, h))
      else (let (result, h) = stage_pending nvs f (candidate_of g config) in
          if is_ok result
          then (
            result,
            true,
            record g { pending_present = true; saved_config = candidate_of g config },
            h,
          )
          else (result, false, g, h))

  unfoldable pub network_config_confirm_trial : Globals → F → EspErr × Globals × F
  network_config_confirm_trial g f =
      if not g.trial_active
      then (invalid_state, g, f)
      else (let (result, h) = promote_active nvs f g.active_config in
          if is_ok result
          then (
            result,
            record g {
              confirmed_config = g.active_config;
              saved_config = g.active_config;
              pending_present = false;
              trial_active = false;
            },
            h,
          )
          else (result, g, h))

  -- The turn of the guard's loop when the time is up: `true` if it restarts the device.
  unfoldable pub trial_expired : Globals → F → Bool × Globals × F
  trial_expired g f =
      if not g.trial_active
      then (false, g, f)
      else (let (result, h) = erase_pending nvs f in
          if is_ok result
          then (
            true,
            record g {
              pending_present = false;
              saved_config = g.confirmed_config;
              trial_active = false;
            },
            h,
          )
          else (false, g, h))

unfoldable pub network_config_restart_required : Globals → Bool
network_config_restart_required g = g.pending_present && not g.trial_active

unfoldable pub trial_seconds_remaining : Globals → ℕ → ℕ
trial_seconds_remaining g now_ms =
    if not g.trial_active || leb g.trial_deadline_ms now_ms
    then 0
    else as_u32 ((g.trial_deadline_ms - now_ms + 999) / 1000)

-- `network_config_start_trial_guard`, without the making of its task.
unfoldable pub start_trial_guard : Globals → ℕ → Globals
start_trial_guard g now_ms =
    if not g.trial_active
    then g
    else (record g { trial_deadline_ms = now_ms + trial_timeout_seconds * 1000 })
