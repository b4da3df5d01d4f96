-- ===== src/Network/Store/Invariant.antt =====
-- What holds of the globals between two operations, whatever the storage does.
use std.Path.{subst}
use esp32_p4_bacnet_switches.Base.{
  ℕ, ◌≡◌, refl, Bool, true, false, List, none, some, arith, inl, inr, Option-cases, Bool-cases,
}
use esp32_p4_bacnet_switches.Sdk.{
  Started, started, start_failed, Key, pending_key, confirmed_key, Nvs, is_ok,
}
use esp32_p4_bacnet_switches.Network.Model.{
  NetworkConfig, network_config_validate, network_config_finalize, network_config_is_valid_blob,
  network_config_mutable_equal,
}
use esp32_p4_bacnet_switches.Network.Store.{
  Globals, read_blob, factory_defaults, finish_start, roll_back, start_trial, start_with,
  network_config_store_init, network_config_update, candidate_of, network_config_confirm_trial,
  trial_expired, start_trial_guard, write_single_blob, erase_pending, mark_trial_boot_attempted,
  trial_boot_attempted,
}

-- The three configurations are valid; on trial the active one is the saved one; without a pending one
-- the saved one is the confirmed one, and with one it differs from it.
pub record IsConsistent (crc : List ℕ → ℕ) (g : Globals) : Type 0 where
  pub active_valid : network_config_is_valid_blob crc g.active_config ≡ true
  pub saved_valid : network_config_is_valid_blob crc g.saved_config ≡ true
  pub confirmed_valid : network_config_is_valid_blob crc g.confirmed_config ≡ true
  pub trial_saved : g.trial_active ≡ true → g.active_config ≡ g.saved_config
  pub trial_pending : g.trial_active ≡ true → g.pending_present ≡ true
  pub settled : g.pending_present ≡ false → g.saved_config ≡ g.confirmed_config
  pub differs :
      g.pending_present ≡ true
      → network_config_mutable_equal g.saved_config g.confirmed_config ≡ false

module _ {F : Type 0} (crc : List ℕ → ℕ) (nvs : Nvs F NetworkConfig) where
  read_blob-valid :
      (f : F) (k : Key) {c : NetworkConfig}
      → read_blob crc nvs f k ≡ some c
      → network_config_is_valid_blob crc c ≡ true
  unfolding read_blob
  read_blob-valid f k e = ground arith

  -- A start that succeeds leaves consistent globals.
  abbrev StartsConsistent : Started Globals F → Type 0
  StartsConsistent (started g f) = IsConsistent crc g
  StartsConsistent (start_failed r f) = Unit {0}

  finish_start-none :
      (c : NetworkConfig) (f : F)
      → network_config_is_valid_blob crc c ≡ true
      → StartsConsistent (finish_start crc nvs c none f)
  unfolding finish_start
  finish_start-none c f valid = ground arith

  finish_start-some :
      (c p : NetworkConfig) (f : F)
      → network_config_is_valid_blob crc c ≡ true
      → network_config_is_valid_blob crc p ≡ true
      → network_config_mutable_equal p c ≡ false
      → StartsConsistent (finish_start crc nvs c (some p) f)
  unfolding finish_start
  finish_start-some c p f valid valid' differs = ground arith

  roll_back-consistent :
      (c : NetworkConfig) (f : F)
      → network_config_is_valid_blob crc c ≡ true
      → StartsConsistent (roll_back crc nvs c f)
  unfolding roll_back
  roll_back-consistent c f valid = elim (Bool-cases (is_ok (erase_pending nvs f).0)) [
    | inl done ↦ rw (done, roll_back) (finish_start-none c (erase_pending nvs f).1 valid)
    | inr failed ↦ rw (failed, roll_back) tt
  ]

  start_trial-consistent :
      (c p : NetworkConfig) (f : F)
      → network_config_is_valid_blob crc c ≡ true
      → network_config_is_valid_blob crc p ≡ true
      → network_config_mutable_equal p c ≡ false
      → StartsConsistent (start_trial crc nvs c p f)
  unfolding start_trial
  start_trial-consistent c p f valid valid' differs =
      let g = (mark_trial_boot_attempted nvs f).1 in
      elim (Bool-cases (trial_boot_attempted nvs f)) [
        | inl again ↦ rw (again, start_trial) (roll_back-consistent c f valid)
        | inr first ↦ elim (Bool-cases (is_ok (mark_trial_boot_attempted nvs f).0)) [
          | inl marked ↦
              rw (first, start_trial)
                (rw (marked, start_trial) (finish_start-some c p g valid valid' differs))
          | inr failed ↦
              rw (first, start_trial) (rw (failed, start_trial) (roll_back-consistent c g valid))
        ]
      ]

  start_with-consistent :
      (c : NetworkConfig) (f : F)
      → network_config_is_valid_blob crc c ≡ true
      → StartsConsistent (start_with crc nvs c f)
  unfolding start_with
  start_with-consistent c f valid = elim (Option-cases (read_blob crc nvs f pending_key)) [
    | inl none_pending ↦ rw (none_pending, start_with) (finish_start-none c f valid)
    | inr (p, e) ↦ elim (Bool-cases (network_config_mutable_equal p c)) [
      | inl same ↦ rw (e, start_with) (rw (same, start_with) (finish_start-none c f valid))
      | inr differs ↦
          rw (e, start_with)
            (rw (differs, start_with)
              (start_trial-consistent c p f valid (read_blob-valid f pending_key e) differs))
    ]
  ]

  factory_defaults-valid :
      (hostname : List ℕ)
      → network_config_validate (factory_defaults hostname crc) ≡ true
      → network_config_is_valid_blob crc (factory_defaults hostname crc) ≡ true
  unfolding factory_defaults network_config_finalize network_config_is_valid_blob
      network_config_validate
  factory_defaults-valid hostname h = ground arith

  init-consistent :
      (hostname : List ℕ) (has_memory : Bool) (f : F)
      → StartsConsistent (network_config_store_init crc nvs hostname has_memory f)
  unfolding network_config_store_init
  init-consistent hostname false f = tt
  init-consistent hostname true f =
      let d = factory_defaults hostname crc in
      let g = (write_single_blob nvs f confirmed_key d).1 in
      elim (Option-cases (read_blob crc nvs f confirmed_key)) [
        | inr (c, e) ↦
            rw (e, network_config_store_init)
              (start_with-consistent c f (read_blob-valid f confirmed_key e))
        | inl e ↦ elim (Bool-cases (network_config_validate d)) [
          | inr bad ↦ rw (e, network_config_store_init) (rw (bad, network_config_store_init) tt)
          | inl good ↦ elim (Bool-cases (is_ok (write_single_blob nvs f confirmed_key d).0)) [
            | inr failed ↦
                rw (e, network_config_store_init)
                  (rw (good, network_config_store_init) (rw (failed, network_config_store_init) tt))
            | inl written ↦
                rw (e, network_config_store_init)
                  (rw (good, network_config_store_init)
                    (rw (written, network_config_store_init)
                      (start_with-consistent d g (factory_defaults-valid hostname good))))
          ]
        ]
      ]

  pub candidate-valid :
      (g : Globals) (c : NetworkConfig)
      → network_config_validate c ≡ true
      → network_config_is_valid_blob crc (candidate_of crc nvs g c) ≡ true
  unfolding network_config_finalize network_config_is_valid_blob network_config_validate
  candidate-valid g c h = ground arith

  pub mutable_equal-candidate :
      (g : Globals) (c d : NetworkConfig)
      → network_config_mutable_equal (candidate_of crc nvs g c) d ≡ network_config_mutable_equal c d
  unfolding network_config_mutable_equal network_config_finalize
  mutable_equal-candidate g c d = refl

  update-IsConsistent :
      (g : Globals) (f : F) (c : NetworkConfig)
      → IsConsistent crc g
      → IsConsistent crc (network_config_update crc nvs g f c).2
  unfolding network_config_update
  update-IsConsistent g f c v = ground (
    arith,
    v.active_valid,
    v.saved_valid,
    v.confirmed_valid,
    v.settled,
    v.differs,
    candidate-valid g c,
    mutable_equal-candidate g c g.confirmed_config,
  )

  confirm-IsConsistent :
      (g : Globals) (f : F)
      → IsConsistent crc g
      → IsConsistent crc (network_config_confirm_trial crc nvs g f).1
  unfolding network_config_confirm_trial
  confirm-IsConsistent g f v =
      ground (arith, v.active_valid, v.saved_valid, v.confirmed_valid, v.settled, v.differs)

  expired-IsConsistent :
      (g : Globals) (f : F) → IsConsistent crc g → IsConsistent crc (trial_expired crc nvs g f).1
  unfolding trial_expired
  expired-IsConsistent g f v =
      ground (arith, v.active_valid, v.saved_valid, v.confirmed_valid, v.settled, v.differs)

  guard-IsConsistent :
      (g : Globals) (now : ℕ) → IsConsistent crc g → IsConsistent crc (start_trial_guard g now)
  unfolding start_trial_guard
  guard-IsConsistent g now v = ground (
    arith, v.active_valid, v.saved_valid, v.confirmed_valid, v.settled, v.differs, v.trial_saved,
    v.trial_pending,
  )

  module _ (hostname : List ℕ) where
    -- One operation. A restart finds the flash in any state: the power may have failed anywhere.
    pub data Step (s : Globals × F) : Globals × F → Type 0 where
      update :
          (c : NetworkConfig)
          → Step s (
            (network_config_update crc nvs s.0 s.1 c).2,
            (network_config_update crc nvs s.0 s.1 c).3,
          )
      confirm : Step s (
        (network_config_confirm_trial crc nvs s.0 s.1).1,
        (network_config_confirm_trial crc nvs s.0 s.1).2,
      )
      expire : Step s ((trial_expired crc nvs s.0 s.1).1, (trial_expired crc nvs s.0 s.1).2)
      arm : (now : ℕ) → Step s (start_trial_guard s.0 now, s.1)
      restart :
          (f : F) (has_memory : Bool) {g' : Globals} {f' : F}
          → network_config_store_init crc nvs hostname has_memory f ≡ started g' f'
          → Step s (g', f')

    -- The states from a first start on.
    pub data Reachable : Globals × F → Type 0 where
      first :
          (f : F) (has_memory : Bool) {g' : Globals} {f' : F}
          → network_config_store_init crc nvs hostname has_memory f ≡ started g' f'
          → Reachable (g', f')
      next : {s t : Globals × F} → Reachable s → Step s t → Reachable t

    pub init-IsConsistent :
        (f : F) (has_memory : Bool) {g' : Globals} {f' : F}
        → network_config_store_init crc nvs hostname has_memory f ≡ started g' f'
        → IsConsistent crc g'
    init-IsConsistent f has_memory e =
        subst StartsConsistent e (init-consistent hostname has_memory f)

    Step-IsConsistent : {s t : Globals × F} → Step s t → IsConsistent crc s.0 → IsConsistent crc t.0
    Step-IsConsistent {s} (update c) v = update-IsConsistent s.0 s.1 c v
    Step-IsConsistent {s} confirm v = confirm-IsConsistent s.0 s.1 v
    Step-IsConsistent {s} expire v = expired-IsConsistent s.0 s.1 v
    Step-IsConsistent {s} (arm now) v = guard-IsConsistent s.0 now v
    Step-IsConsistent (restart f has_memory e) v = init-IsConsistent f has_memory e

    -- After any start on any flash and any updates, confirmations, expiries and restarts on any
    -- flash, whatever the storage answers, the three configurations are valid blobs, a trial is of
    -- the pending saved configuration, without a pending one the saved one is the confirmed one,
    -- and a pending one differs from it.
    pub Reachable-IsConsistent : {s : Globals × F} → Reachable s → IsConsistent crc s.0
    Reachable-IsConsistent (first f has_memory e) = init-IsConsistent f has_memory e
    Reachable-IsConsistent (next r step) = Step-IsConsistent step (Reachable-IsConsistent r)
