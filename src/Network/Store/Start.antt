-- ===== src/Network/Store/Start.antt =====
-- What a start does on a flash with a confirmed configuration.
use esp32_p4_bacnet_switches.Base.{
  ℕ, ◌≡◌, refl, Bool, true, false, List, none, some, arith, inl, inr, Bool-cases, Option-cases,
}
use esp32_p4_bacnet_switches.Sdk.{
  Started, started, start_failed, is_ok, Key, confirmed_key, pending_key, trial_boot_key, Nvs,
  NvsLaws,
}
use esp32_p4_bacnet_switches.Network.Model.{
  NetworkConfig, network_config_is_valid_blob, network_config_mutable_equal,
}
use esp32_p4_bacnet_switches.Network.Store.{
  Globals, read_blob, finish_start, roll_back, start_trial, start_with, network_config_store_init,
  trial_boot_attempted, mark_trial_boot_attempted, erase_pending,
}

module _ {F : Type 0} (crc : List ℕ → ℕ) (nvs : Nvs F NetworkConfig) (hostname : List ℕ) where
  pub read_blob-some :
      (f : F) (k : Key) (c : NetworkConfig)
      → is_ok (nvs.open_readonly f) ≡ true
      → nvs.get_blob f k ≡ some c
      → network_config_is_valid_blob crc c ≡ true
      → read_blob crc nvs f k ≡ some c
  unfolding read_blob
  read_blob-some f k c opens stored valid = ground arith

  pub read_blob-none : (f : F) (k : Key) → nvs.get_blob f k ≡ none → read_blob crc nvs f k ≡ none
  unfolding read_blob
  read_blob-none f k missing = ground arith

  -- A start on a flash with a confirmed configuration.
  pub init-confirmed :
      (f : F) (c : NetworkConfig)
      → read_blob crc nvs f confirmed_key ≡ some c
      → network_config_store_init crc nvs hostname true f ≡ start_with crc nvs c f
  unfolding network_config_store_init
  init-confirmed f c e = rw (e, network_config_store_init) refl

  pub start_with-none :
      (f : F) (c : NetworkConfig)
      → read_blob crc nvs f pending_key ≡ none
      → start_with crc nvs c f ≡ finish_start crc nvs c none f
  unfolding start_with
  start_with-none f c e = rw (e, start_with) refl

  pub start_with-some :
      (f : F) (c p : NetworkConfig)
      → read_blob crc nvs f pending_key ≡ some p
      → network_config_mutable_equal p c ≡ false
      → start_with crc nvs c f ≡ start_trial crc nvs c p f
  unfolding start_with
  start_with-some f c p e differs = rw (e, start_with) (rw (differs, start_with) refl)

  pub first_trial :
      (f : F) (c p : NetworkConfig)
      → nvs.get_u8 f trial_boot_key ≡ none
      → is_ok (mark_trial_boot_attempted nvs f).0 ≡ true
      → start_trial crc nvs c p f
        ≡ finish_start crc nvs c (some p) (mark_trial_boot_attempted nvs f).1
  unfolding start_trial trial_boot_attempted
  first_trial f c p unmarked marked = ground arith

  pub later_trial :
      (f : F) (c p : NetworkConfig)
      → is_ok (nvs.open_readonly f) ≡ true
      → nvs.get_u8 f trial_boot_key ≡ some 1
      → start_trial crc nvs c p f ≡ roll_back crc nvs c f
  unfolding start_trial trial_boot_attempted
  later_trial f c p opens marked = ground arith

-- A start that succeeds, with this configuration active, this one confirmed, and this trial.
abbrev pub StartsAs :
    {F : Type 0} → NetworkConfig → NetworkConfig → Bool → Started Globals F → Type 0
StartsAs active confirmed trial (started g f) =
    (g.active_config ≡ active) × (g.confirmed_config ≡ confirmed) × (g.trial_active ≡ trial)
StartsAs active confirmed trial (start_failed result f) = ⊥

module _ {F : Type 0} (crc : List ℕ → ℕ) (nvs : Nvs F NetworkConfig) (l : NvsLaws nvs)
    (hostname : List ℕ) where
  -- A flash with a confirmed configuration and no pending one.
  pub starts_confirmed :
      (f : F) (c : NetworkConfig)
      → is_ok (nvs.open_readonly f) ≡ true
      → nvs.get_blob f confirmed_key ≡ some c
      → nvs.get_blob f pending_key ≡ none
      → network_config_is_valid_blob crc c ≡ true
      → StartsAs c c false (network_config_store_init crc nvs hostname true f)
  unfolding finish_start
  starts_confirmed f c opens stored missing valid =
      rw
        (
          init-confirmed crc nvs hostname f c
              (read_blob-some crc nvs hostname f confirmed_key c opens stored valid),
          start_with-none crc nvs hostname f c
              (read_blob-none crc nvs hostname f pending_key missing),
        )
        (refl, refl, refl)

  -- A flash with a pending configuration that was not yet on trial.
  pub starts_pending :
      (f : F) (c p : NetworkConfig)
      → is_ok (nvs.open_readonly f) ≡ true
      → nvs.get_blob f confirmed_key ≡ some c
      → nvs.get_blob f pending_key ≡ some p
      → nvs.get_u8 f trial_boot_key ≡ none
      → is_ok (mark_trial_boot_attempted nvs f).0 ≡ true
      → network_config_is_valid_blob crc c ≡ true
      → network_config_is_valid_blob crc p ≡ true
      → network_config_mutable_equal p c ≡ false
      → StartsAs p c true (network_config_store_init crc nvs hostname true f)
  unfolding finish_start
  starts_pending f c p opens stored pending unmarked marks valid valid' differs =
      rw
        (
          init-confirmed crc nvs hostname f c
              (read_blob-some crc nvs hostname f confirmed_key c opens stored valid),
          start_with-some crc nvs hostname f c p
              (read_blob-some crc nvs hostname f pending_key p opens pending valid') differs,
          first_trial crc nvs hostname f c p unmarked marks,
        )
        (refl, refl, refl)

  -- A flash on which the trial was already marked.
  pub starts_after_trial :
      (f : F) (c : NetworkConfig)
      → is_ok (nvs.open_readonly f) ≡ true
      → nvs.get_blob f confirmed_key ≡ some c
      → nvs.get_u8 f trial_boot_key ≡ some 1
      → is_ok (erase_pending nvs f).0 ≡ true
      → network_config_is_valid_blob crc c ≡ true
      → StartsAs c c false (network_config_store_init crc nvs hostname true f)
  unfolding finish_start start_with roll_back
  starts_after_trial f c opens stored marked erased valid =
      rw
        (init-confirmed crc nvs hostname f c
          (read_blob-some crc nvs hostname f confirmed_key c opens stored valid))
        (elim (Option-cases (read_blob crc nvs f pending_key)) [
          | inl missing ↦ rw (start_with-none crc nvs hostname f c missing) (refl, refl, refl)
          | inr (p, e) ↦ elim (Bool-cases (network_config_mutable_equal p c)) [
            | inl same ↦ rw (e, start_with) (rw (same, start_with) (refl, refl, refl))
            | inr differs ↦
                rw
                  (
                    start_with-some crc nvs hostname f c p e differs,
                    later_trial crc nvs hostname f c p opens marked,
                  )
                  (rw (erased, roll_back) (refl, refl, refl))
          ]
        ])
