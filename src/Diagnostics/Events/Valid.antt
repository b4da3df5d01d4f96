-- ===== src/Diagnostics/Events/Valid.antt =====
-- What holds of the log in memory after a start from any flash, and while events are recorded.
use std.Path.{subst}
use esp32_p4_bacnet_switches.Base.{
  ℕ, suc, ◌≡◌, ap, ◌∙◌, refl, ◌&&◌, List, [], ◌∷◌, Option, none, some, ◌==◌, length, arith,
  Bool-cases, Option-cases, inl, inr,
}
use esp32_p4_bacnet_switches.Sdk.{Nvs, Key, log_key, legacy_log_key}
use esp32_p4_bacnet_switches.Input.Clock.{ClockStamp}
use esp32_p4_bacnet_switches.Diagnostics.Log.{
  FaultEvent, PersistentState, diagnostics_log_decode, diagnostics_log_reconcile, take_stamps,
  is_newer,
}
use esp32_p4_bacnet_switches.Diagnostics.Log.Decode.{diagnostics_log_decode-IsLog}
use esp32_p4_bacnet_switches.Diagnostics.Events.{
  LogBlob, Recorder, ResetReason, Partitions, abnormal_reset, append_event, booted_recorder,
  save_persistent_locked, record_event_locked, note_rollback, load_log_blob, load_persistent_state,
  load_or_empty, init_log, event_boot, event_abnormal_reset, event_ota_rolled_back, ota_code,
  ota_rolled_back, ota_accepted,
}
use esp32_p4_bacnet_switches.Diagnostics.Events.Ring.{IsRing, append_event-IsRing}

length-take_stamps :
    (events olds : List FaultEvent) → length (take_stamps events olds) ≡ length events
length-take_stamps [] olds = refl
length-take_stamps (event ∷ events) olds = ap suc (length-take_stamps events olds)

reconcile-IsRing :
    (s legacy : PersistentState)
    → IsRing s
    → IsRing legacy
    → IsRing (diagnostics_log_reconcile s legacy)
unfolding diagnostics_log_reconcile
reconcile-IsRing s legacy ring ring' = elim (Bool-cases (is_newer legacy s)) [
  | inl newer ↦ rw newer (record {
    head_inside = ring'.head_inside;
    count_inside = ring'.count_inside;
    all_events = length-take_stamps legacy.events s.events ∙ ring'.all_events;
  })
  | inr older ↦ rw older ring
]

module _ {F : Type 0} (nvs : Nvs F LogBlob) where
  save-persistent :
      (r : Recorder) (f : F) → (save_persistent_locked nvs r f).0.persistent ≡ r.persistent
  unfolding save_persistent_locked
  save-persistent r f = ground arith

  record_event_locked-IsRing :
      (r : Recorder) (f : F) (stamp : ClockStamp) (type_code code : ℕ)
      → IsRing r.persistent
      → IsRing (record_event_locked nvs r f stamp type_code code).0.persistent
  unfolding record_event_locked
  record_event_locked-IsRing r f stamp type_code code ring =
      rw
        (save-persistent (record r { persistent = append_event r.persistent stamp type_code code })
          f)
        (append_event-IsRing r.persistent stamp type_code code ring)

  note_rollback-IsRing :
      (r : Recorder) (f : F) (stamp : ClockStamp) (partitions : Partitions)
      → IsRing r.persistent
      → IsRing (note_rollback nvs r f stamp partitions).0.persistent
  unfolding note_rollback
  note_rollback-IsRing r f stamp partitions ring =
      elim (Bool-cases
        (r.persistent.last_ota_result == ota_code ota_accepted && partitions.running_settled)) [
          | inr h ↦ rw h ring
          | inl h ↦ rw h (elim (Option-cases (partitions.failed_state)) [
            | inl e ↦ rw e ring
            | inr (state, e) ↦ rw e (
                record_event_locked-IsRing
                  (record r {
                    persistent = record (r.persistent) {
                      last_ota_result = ota_code ota_rolled_back;
                    };
                  })
                  f stamp event_ota_rolled_back state
                  (record {
                    head_inside = ring.head_inside;
                    count_inside = ring.count_inside;
                    all_events = ring.all_events;
                  }))
          ])
        ]

  module _ (bytes_of : LogBlob → List ℕ) where
    -- A log that is read back is a ring.
    abbrev GivesRing : Option PersistentState → Type 0
    GivesRing none = Unit {0}
    GivesRing (some s) = IsRing s

    load_log_blob-IsRing :
        (f : F) (key : Key) {s : PersistentState}
        → load_log_blob nvs bytes_of f key ≡ some s
        → IsRing s
    unfolding load_log_blob
    load_log_blob-IsRing f key {s} e = elim (Option-cases (nvs.get_blob f key)) [
      | inl missing ↦ absurd (ground arith)
      | inr (blob, stored) ↦
          let decoded : diagnostics_log_decode (bytes_of blob) ≡ some s = ground arith in
          let l = diagnostics_log_decode-IsLog (bytes_of blob) decoded in
          record {
            head_inside = l.head_inside;
            count_inside = l.count_inside;
            all_events = l.all_events;
          }
    ]

    load_persistent_state-GivesRing : (f : F) → GivesRing (load_persistent_state nvs bytes_of f)
    unfolding load_persistent_state
    load_persistent_state-GivesRing f = elim (Option-cases (load_log_blob nvs bytes_of f log_key)) [
      | inl e ↦
          rw (e, load_persistent_state)
            (elim (Option-cases (load_log_blob nvs bytes_of f legacy_log_key)) [
              | inl e' ↦ rw (e', load_persistent_state) tt
              | inr (legacy, e') ↦
                  rw (e', load_persistent_state) (load_log_blob-IsRing f legacy_log_key e')
            ])
      | inr (s, e) ↦
          rw (e, load_persistent_state)
            (elim (Option-cases (load_log_blob nvs bytes_of f legacy_log_key)) [
              | inl e' ↦ rw (e', load_persistent_state) (load_log_blob-IsRing f log_key e)
              | inr (legacy, e') ↦
                  rw (e', load_persistent_state)
                    (reconcile-IsRing s legacy (load_log_blob-IsRing f log_key e)
                      (load_log_blob-IsRing f legacy_log_key e'))
            ])
    ]

    load_or_empty-IsRing : (f : F) → IsRing (load_or_empty nvs bytes_of f)
    unfolding load_or_empty
    load_or_empty-IsRing f = elim (Option-cases (load_persistent_state nvs bytes_of f)) [
      | inl e ↦
          rw (e, load_or_empty)
            (record { head_inside = omega arith; count_inside = omega arith; all_events = refl })
      | inr (s, e) ↦ rw (e, load_or_empty) (subst GivesRing e (load_persistent_state-GivesRing f))
    ]

    pub init_log-IsRing :
        (reason_code : ResetReason → ℕ) (f : F) (stamp1 stamp2 stamp3 : ClockStamp)
        (reason : ResetReason) (partitions : Partitions)
        → IsRing
            (init_log nvs bytes_of reason_code f stamp1 stamp2 stamp3 reason
              partitions).0.persistent
    unfolding init_log
    init_log-IsRing reason_code f stamp1 stamp2 stamp3 reason partitions =
        let code = reason_code reason in
        let loaded = load_or_empty-IsRing f in
        let booted = booted_recorder (load_or_empty nvs bytes_of f) in
        let first = record_event_locked nvs booted f stamp1 event_boot code in
        let first_ring = record_event_locked-IsRing booted f stamp1 event_boot code (record {
          head_inside = loaded.head_inside;
          count_inside = loaded.count_inside;
          all_events = loaded.all_events;
        }) in
        let second = record_event_locked nvs first.0 first.1 stamp2 event_abnormal_reset code in
        elim (Bool-cases (abnormal_reset reason)) [
          | inr normal ↦
              rw normal (note_rollback-IsRing first.0 first.1 stamp3 partitions first_ring)
          | inl abnormal ↦ rw abnormal (
              note_rollback-IsRing second.0 second.1 stamp3 partitions (
                record_event_locked-IsRing first.0 first.1 stamp2 event_abnormal_reset code
                  first_ring))
        ]
