-- ===== src/Tests/Network.antt =====
-- The network configuration at concrete inputs.
use esp32_p4_bacnet_switches.Base.{
  ℕ, ◌+◌, ◌^◌, ◌<◌, ◌≤◌, ◌≡◌, refl, Bool, true, false, List, ◌++◌, codes, replicate, arith,
}
use esp32_p4_bacnet_switches.Sdk.{EspErr, Nvs, started, confirmed_key}
use esp32_p4_bacnet_switches.Network.Model.{
  NetworkConfig, ascii_alphanumeric, hostname_valid, ipv4_value, address_is_zero, netmask_valid,
  network_config_validate, covered_bytes, network_config_crc32, network_config_finalize,
  network_config_is_valid_blob, network_config_mutable_equal,
}
use esp32_p4_bacnet_switches.Network.Model.Netmask.{netmask_valid-prefix}
use esp32_p4_bacnet_switches.Network.Store.{
  Globals, factory_defaults, read_blob, write_single_blob, stage_pending, trial_boot_attempted,
  mark_trial_boot_attempted, erase_pending, promote_active, finish_start, start_trial, start_with,
  network_config_store_init, network_config_update, network_config_confirm_trial,
}
use esp32_p4_bacnet_switches.Network.Store.Invariant.{IsConsistent, first, Reachable-IsConsistent}
use esp32_p4_bacnet_switches.Network.Store.Start.{StartsAs}
use esp32_p4_bacnet_switches.Network.Store.Restart.{
  network_config_update-restart, network_config_confirm_trial-restart,
}
use esp32_p4_bacnet_switches.Network.Store.Trial.{trial_once}
use esp32_p4_bacnet_switches.Tests.Flash.{Content, ideal_nvs, ideal_nvs-NvsLaws, blank, sum_of}

netmask_valid-prefix_example : (k : ℕ) × (2 ≤ k) × (k < 32) × (4294967040 + 2 ^ k ≡ 2 ^ 32)
unfolding netmask_valid
netmask_valid-prefix_example = netmask_valid-prefix 4294967040 (omega arith) refl

abbrev Disk : Type 0
Disk = Content NetworkConfig

abbrev nvs : Nvs Disk NetworkConfig
nvs = ideal_nvs

abbrev factory_name : List ℕ
factory_name = codes "p4-switches" ++ replicate 53 0

abbrev factory : NetworkConfig
factory = factory_defaults factory_name sum_of

-- After a first start.
abbrev at_first : Globals
at_first = record {
  active_config = factory;
  saved_config = factory;
  confirmed_config = factory;
  pending_present = false;
  trial_active = false;
  trial_deadline_ms = 0;
}

abbrev first_disk : Disk
first_disk = (erase_pending nvs (write_single_blob nvs blank confirmed_key factory).1).1

first_start :
    network_config_store_init sum_of nvs factory_name true blank ≡ started at_first first_disk
unfolding ascii_alphanumeric hostname_valid ipv4_value address_is_zero network_config_validate
    covered_bytes network_config_crc32 network_config_finalize network_config_is_valid_blob
    network_config_mutable_equal factory_defaults read_blob write_single_blob erase_pending
    finish_start start_with network_config_store_init
first_start = refl

Reachable-IsConsistent_example : IsConsistent sum_of at_first
Reachable-IsConsistent_example =
    Reachable-IsConsistent sum_of nvs factory_name (first blank true first_start)

-- A change of the name.
abbrev renamed : NetworkConfig
renamed = record factory { hostname = codes "p4-plant" ++ replicate 56 0 }

abbrev changed : EspErr × Bool × Globals × Disk
changed = network_config_update sum_of nvs at_first first_disk renamed

changed_now : changed.1 ≡ true
unfolding ascii_alphanumeric hostname_valid ipv4_value address_is_zero network_config_validate
    covered_bytes network_config_crc32 network_config_finalize network_config_is_valid_blob
    network_config_mutable_equal factory_defaults read_blob write_single_blob erase_pending
    finish_start start_with network_config_store_init network_config_update stage_pending
    mark_trial_boot_attempted trial_boot_attempted start_trial network_config_confirm_trial
    promote_active
changed_now = refl

network_config_update-restart_example :
    StartsAs changed.2.saved_config factory changed.2.pending_present
      (network_config_store_init sum_of nvs factory_name true changed.3)
unfolding write_single_blob erase_pending mark_trial_boot_attempted
network_config_update-restart_example =
    network_config_update-restart sum_of nvs ideal_nvs-NvsLaws factory_name at_first first_disk
      renamed (Reachable-IsConsistent sum_of nvs factory_name (first blank true first_start)) refl
      changed_now refl refl

-- The start on trial, which marks the flash.
abbrev on_trial : Globals
on_trial = record {
  active_config = changed.2.saved_config;
  saved_config = changed.2.saved_config;
  confirmed_config = factory;
  pending_present = true;
  trial_active = true;
  trial_deadline_ms = 0;
}

abbrev marked_disk : Disk
marked_disk = (mark_trial_boot_attempted nvs changed.3).1

trial_start :
    network_config_store_init sum_of nvs factory_name true changed.3 ≡ started on_trial marked_disk
unfolding ascii_alphanumeric hostname_valid ipv4_value address_is_zero network_config_validate
    covered_bytes network_config_crc32 network_config_finalize network_config_is_valid_blob
    network_config_mutable_equal factory_defaults read_blob write_single_blob erase_pending
    finish_start start_with network_config_store_init network_config_update stage_pending
    mark_trial_boot_attempted trial_boot_attempted start_trial network_config_confirm_trial
    promote_active
trial_start = refl

trial_once_example :
    StartsAs factory factory false
      (network_config_store_init sum_of nvs factory_name true marked_disk)
unfolding erase_pending mark_trial_boot_attempted network_config_update network_config_validate
    factory_defaults network_config_finalize network_config_mutable_equal stage_pending
    write_single_blob
trial_once_example =
    trial_once sum_of nvs ideal_nvs-NvsLaws factory_name changed.3 trial_start refl refl refl

network_config_confirm_trial-restart_example :
    StartsAs changed.2.saved_config changed.2.saved_config false (
      network_config_store_init sum_of nvs factory_name true
        (network_config_confirm_trial sum_of nvs on_trial marked_disk).2)
unfolding network_config_confirm_trial promote_active mark_trial_boot_attempted
    network_config_update network_config_validate factory_defaults network_config_finalize
    network_config_mutable_equal stage_pending erase_pending write_single_blob
network_config_confirm_trial-restart_example =
    network_config_confirm_trial-restart sum_of nvs ideal_nvs-NvsLaws factory_name on_trial
      marked_disk
      (Reachable-IsConsistent sum_of nvs factory_name (first changed.3 true trial_start)) refl refl
