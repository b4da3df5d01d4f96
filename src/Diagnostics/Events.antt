-- ===== src/Diagnostics/Events.antt =====
-- main/diagnostics.c: the log of events in memory and in the flash. `F` is the content of the flash,
-- and a blob is the structure that is written; `bytes_of` stands for its layout. Reading the clock and
-- the states of the partitions gives arguments. A mutex is waited for without limit, so taking it
-- succeeds.
pub mod Ring
pub mod Valid
use esp32_p4_bacnet_switches.Base.{
  ℕ, ◌+◌, ◌-◌, ◌%◌, Bool, true, false, not, ◌||◌, ◌&&◌, List, [], ◌∷◌, Option, none, some, ltb,
  ◌==◌, if◌then◌else◌, get_or, set, replicate, uint32_max, as_u16, as_u32,
}
use esp32_p4_bacnet_switches.Sdk.{
  EspErr, esp_ok, is_ok, Nvs, Key, log_key, legacy_log_key, and_then,
}
use esp32_p4_bacnet_switches.Input.Clock.{ClockStamp}
use esp32_p4_bacnet_switches.Diagnostics.Log.{
  FaultEvent, PersistentState, PersistentStateV2, no_fault, log_capacity, persistent_magic,
  persistent_version, diagnostics_log_decode, diagnostics_log_to_v2, diagnostics_log_reconcile,
}

-- `diagnostics_event_type_t`, those that this part names.
abbrev pub event_boot : ℕ
event_boot = 1

abbrev pub event_abnormal_reset : ℕ
event_abnormal_reset = 2

abbrev pub event_ota_accepted : ℕ
event_ota_accepted = 5

abbrev pub event_ota_failed : ℕ
event_ota_failed = 6

abbrev pub event_ota_validated : ℕ
event_ota_validated = 7

abbrev pub event_ota_rolled_back : ℕ
event_ota_rolled_back = 15

-- `diagnostics_ota_result_t`
pub data OtaResult : Type 0 where
  ota_none ota_accepted ota_failed ota_validated ota_rolled_back : OtaResult

abbrev pub ota_code : OtaResult → ℕ
ota_code ota_none = 0
ota_code ota_accepted = 1
ota_code ota_failed = 2
ota_code ota_validated = 3
ota_code ota_rolled_back = 4

-- `esp_reset_reason_t` of the SDK.
pub data ResetReason : Type 0 where
  rst_unknown rst_poweron rst_ext rst_sw rst_panic rst_int_wdt rst_task_wdt rst_wdt : ResetReason
  rst_deepsleep rst_brownout rst_sdio rst_usb rst_jtag rst_efuse rst_pwr_glitch : ResetReason
  rst_cpu_lockup : ResetReason

unfoldable pub abnormal_reset : ResetReason → Bool
abnormal_reset rst_panic = true
abnormal_reset rst_int_wdt = true
abnormal_reset rst_task_wdt = true
abnormal_reset rst_wdt = true
abnormal_reset rst_brownout = true
abnormal_reset rst_efuse = true
abnormal_reset rst_pwr_glitch = true
abnormal_reset rst_cpu_lockup = true
abnormal_reset rst_unknown = false
abnormal_reset rst_poweron = false
abnormal_reset rst_ext = false
abnormal_reset rst_sw = false
abnormal_reset rst_deepsleep = false
abnormal_reset rst_sdio = false
abnormal_reset rst_usb = false
abnormal_reset rst_jtag = false

pub data LogBlob : Type 0 where
  blob_v3 : PersistentState → LogBlob
  blob_v2 : PersistentStateV2 → LogBlob

-- The globals that the log stands in.
pub record Recorder : Type 0 where
  pub persistent : PersistentState
  pub nvs_ready : Bool
  pub persistent_write_failure_count : ℕ
  pub persistent_last_write_error : EspErr

-- The event in the slot of the head, and the ring moved on.
unfoldable pub append_event : PersistentState → ClockStamp → ℕ → ℕ → PersistentState
append_event s stamp type_code code = record s {
  events = set s.events s.event_head (record {
    sequence = s.next_sequence;
    boot_count = s.boot_count;
    uptime_ms = stamp.uptime_ms;
    utc_unix_ms = stamp.unix_ms;
    type_code = as_u16 type_code;
    code = as_u16 code;
    clock_quality = stamp.quality % 256;
  });
  next_sequence =
      if not (s.next_sequence == uint32_max) then s.next_sequence + 1 else s.next_sequence;
  event_head = (s.event_head + 1) % log_capacity;
  event_count = if ltb s.event_count log_capacity then s.event_count + 1 else s.event_count;
}

abbrev pub empty_log : PersistentState
empty_log = record {
  magic = persistent_magic;
  version = persistent_version;
  boot_count = 0;
  next_sequence = 1;
  event_head = 0;
  event_count = 0;
  last_ota_result = 0;
  events = replicate log_capacity no_fault;
}

-- What is known of the partitions when it is asked whether an update was taken back: whether the state
-- of the running one was read and is neither new nor pending, and the state of another one that was
-- read and is invalid or aborted, as its number.
pub record Partitions : Type 0 where
  pub running_settled : Bool
  pub failed_state : Option ℕ

-- The globals of a start with this log, its boot counted.
abbrev pub booted_recorder : PersistentState → Recorder
booted_recorder loaded = record {
  persistent = record loaded { boot_count = as_u32 (loaded.boot_count + 1) };
  nvs_ready = true;
  persistent_write_failure_count = 0;
  persistent_last_write_error = esp_ok;
}

module _ {F : Type 0} (nvs : Nvs F LogBlob) where
  unfoldable pub save_persistent_locked : Recorder → F → Recorder × F
  save_persistent_locked r f =
      if not r.nvs_ready
      then (r, f)
      else (let (result, g) =
            and_then
              (and_then (nvs.set_blob f log_key (blob_v3 r.persistent))
                (λ g. nvs.set_blob g legacy_log_key (blob_v2 (diagnostics_log_to_v2 r.persistent))))
              nvs.commit in
          if is_ok result then (r, g) else (
            record r {
              persistent_write_failure_count = as_u32 (r.persistent_write_failure_count + 1);
              persistent_last_write_error = result;
            },
            g,
          ))

  unfoldable pub record_event_locked : Recorder → F → ClockStamp → ℕ → ℕ → Recorder × F
  record_event_locked r f stamp type_code code =
      save_persistent_locked
        (record r { persistent = append_event r.persistent stamp type_code code }) f

  unfoldable pub diagnostics_record_ota_result :
      Recorder → F → ClockStamp → OtaResult → ℕ → Recorder × F
  diagnostics_record_ota_result r f stamp result code =
      let marked = record r {
        persistent = record (r.persistent) { last_ota_result = ota_code result };
      } in
      record_event_locked marked f stamp
        (elim result [
          | ota_accepted ↦ event_ota_accepted
          | ota_validated ↦ event_ota_validated
          | ota_rolled_back ↦ event_ota_rolled_back
          | ota_none ↦ event_ota_failed
          | ota_failed ↦ event_ota_failed
        ])
        code

  -- An update was rolled back if the last result was an acceptance and the partitions say so.
  unfoldable pub note_rollback : Recorder → F → ClockStamp → Partitions → Recorder × F
  note_rollback r f stamp partitions =
      if r.persistent.last_ota_result == ota_code ota_accepted && partitions.running_settled
      then (elim (partitions.failed_state) [
        | none ↦ (r, f)
        | some state ↦
            record_event_locked
              (record r {
                persistent = record (r.persistent) { last_ota_result = ota_code ota_rolled_back };
              })
              f stamp event_ota_rolled_back state
      ])
      else (r, f)

  module _ (bytes_of : LogBlob → List ℕ) where
    unfoldable pub load_log_blob : F → Key → Option PersistentState
    load_log_blob f key = elim (nvs.get_blob f key) [
      | none ↦ none
      | some blob ↦ diagnostics_log_decode (bytes_of blob)
    ]

    unfoldable pub load_persistent_state : F → Option PersistentState
    load_persistent_state f = elim (load_log_blob f log_key) [
      | some current ↦ elim (load_log_blob f legacy_log_key) [
        | some legacy ↦ some (diagnostics_log_reconcile current legacy)
        | none ↦ some current
      ]
      | none ↦ load_log_blob f legacy_log_key
    ]

    -- The log of this start before anything is recorded.
    unfoldable pub load_or_empty : F → PersistentState
    load_or_empty f = elim (load_persistent_state f) [ some s ↦ s | none ↦ empty_log ]

    -- The part of `diagnostics_init` that is about the log, when the flash is open; each recording
    -- reads the clock anew.
    unfoldable pub init_log :
        (ResetReason → ℕ)
        → F
        → ClockStamp
        → ClockStamp
        → ClockStamp
        → ResetReason
        → Partitions
        → Recorder × F
    init_log reason_code f stamp1 stamp2 stamp3 reason partitions =
        let (r1, f1) =
          record_event_locked (booted_recorder (load_or_empty f)) f stamp1 event_boot
            (reason_code reason) in
        let (r2, f2) =
          if abnormal_reset reason
          then record_event_locked r1 f1 stamp2 event_abnormal_reset (reason_code reason)
          else (r1, f1) in
        note_rollback r2 f2 stamp3 partitions
