-- ===== src/Network/Store/Flash.antt =====
-- What the writes of the store leave in the flash when they succeed.
use esp32_p4_bacnet_switches.Base.{◌≡◌, true, none, some, arith}
use esp32_p4_bacnet_switches.Sdk.{is_ok, confirmed_key, pending_key, trial_boot_key, Nvs, NvsLaws}
use esp32_p4_bacnet_switches.Network.Model.{NetworkConfig}
use esp32_p4_bacnet_switches.Network.Store.{
  write_single_blob, stage_pending, mark_trial_boot_attempted, erase_pending, promote_active,
}

module _ {F : Type 0} (nvs : Nvs F NetworkConfig) (l : NvsLaws nvs) where
  pub write_single_blob-contents :
      (f : F) (c : NetworkConfig)
      → is_ok (write_single_blob nvs f confirmed_key c).0 ≡ true
      → nvs.get_blob (write_single_blob nvs f confirmed_key c).1 confirmed_key ≡ some c
  unfolding write_single_blob
  write_single_blob-contents f c ok =
      let f1 = (nvs.set_blob f confirmed_key c).1 in
      ground (arith, l.get_blob-set_blob f confirmed_key c, l.get_blob-commit f1 confirmed_key)

  pub stage_pending-contents :
      (f : F) (c : NetworkConfig)
      → is_ok (stage_pending nvs f c).0 ≡ true
      → let f' = (stage_pending nvs f c).1 in
        (nvs.get_blob f' pending_key ≡ some c)
        × (nvs.get_blob f' confirmed_key ≡ nvs.get_blob f confirmed_key)
        × (nvs.get_u8 f' trial_boot_key ≡ none)
  unfolding stage_pending
  stage_pending-contents f c ok =
      let f1 = (nvs.set_blob f pending_key c).1 in
      let f2 = (nvs.erase_key f1 trial_boot_key).1 in
      (
        ground (
          arith,
          l.get_blob-set_blob f pending_key c,
          l.get_blob-erase_key_ne f1 trial_boot_key pending_key,
          l.get_blob-commit f2 pending_key,
        ),
        ground (
          arith,
          l.get_blob-set_blob_ne f pending_key confirmed_key c,
          l.get_blob-erase_key_ne f1 trial_boot_key confirmed_key,
          l.get_blob-commit f2 confirmed_key,
        ),
        ground (arith, l.get_u8-erase_key f1 trial_boot_key, l.get_u8-commit f2 trial_boot_key),
      )

  pub mark-contents :
      (f : F)
      → is_ok (mark_trial_boot_attempted nvs f).0 ≡ true
      → let f' = (mark_trial_boot_attempted nvs f).1 in
        (nvs.get_blob f' pending_key ≡ nvs.get_blob f pending_key)
        × (nvs.get_blob f' confirmed_key ≡ nvs.get_blob f confirmed_key)
        × (nvs.get_u8 f' trial_boot_key ≡ some 1)
  unfolding mark_trial_boot_attempted
  mark-contents f ok =
      let f1 = (nvs.set_u8 f trial_boot_key 1).1 in
      (
        ground (
          arith,
          l.get_blob-set_u8 f trial_boot_key pending_key 1,
          l.get_blob-commit f1 pending_key,
        ),
        ground (
          arith,
          l.get_blob-set_u8 f trial_boot_key confirmed_key 1,
          l.get_blob-commit f1 confirmed_key,
        ),
        ground (arith, l.get_u8-set_u8 f trial_boot_key 1, l.get_u8-commit f1 trial_boot_key),
      )

  pub erase_pending-contents :
      (f : F)
      → is_ok (erase_pending nvs f).0 ≡ true
      → let f' = (erase_pending nvs f).1 in
        (nvs.get_blob f' pending_key ≡ none)
        × (nvs.get_blob f' confirmed_key ≡ nvs.get_blob f confirmed_key)
  unfolding erase_pending
  erase_pending-contents f ok =
      let f1 = (nvs.erase_key f pending_key).1 in
      let f2 = (nvs.erase_key f1 trial_boot_key).1 in
      (
        ground (
          arith,
          l.get_blob-erase_key f pending_key,
          l.get_blob-erase_key_ne f1 trial_boot_key pending_key,
          l.get_blob-commit f2 pending_key,
        ),
        ground (
          arith,
          l.get_blob-erase_key_ne f pending_key confirmed_key,
          l.get_blob-erase_key_ne f1 trial_boot_key confirmed_key,
          l.get_blob-commit f2 confirmed_key,
        ),
      )

  pub promote_active-contents :
      (f : F) (c : NetworkConfig)
      → is_ok (promote_active nvs f c).0 ≡ true
      → let f' = (promote_active nvs f c).1 in
        (nvs.get_blob f' pending_key ≡ none) × (nvs.get_blob f' confirmed_key ≡ some c)
  unfolding promote_active
  promote_active-contents f c ok =
      let f1 = (nvs.set_blob f confirmed_key c).1 in
      let f2 = (nvs.erase_key f1 pending_key).1 in
      let f3 = (nvs.erase_key f2 trial_boot_key).1 in
      (
        ground (
          arith,
          l.get_blob-erase_key f1 pending_key,
          l.get_blob-erase_key_ne f2 trial_boot_key pending_key,
          l.get_blob-commit f3 pending_key,
        ),
        ground (
          arith,
          l.get_blob-set_blob f confirmed_key c,
          l.get_blob-erase_key_ne f1 pending_key confirmed_key,
          l.get_blob-erase_key_ne f2 trial_boot_key confirmed_key,
          l.get_blob-commit f3 confirmed_key,
        ),
      )
