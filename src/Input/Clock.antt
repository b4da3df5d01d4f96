-- ===== src/Input/Clock.antt =====
-- main/clock_model.h and main/clock_model.c, lines 1-43: wall-clock time from the last synchronisation.
pub mod ServerName
use esp32_p4_bacnet_switches.Base.{
  ℕ, ◌+◌, ◌-◌, Bool, true, false, not, ◌||◌, ◌&&◌, ltb, leb, ◌==◌, if◌then◌else◌, uint32_max,
}

abbrev pub clock_stale_after_ms : ℕ
clock_stale_after_ms = 7200000

abbrev pub clock_min_unix_ms : ℕ
clock_min_unix_ms = 1577836800000

abbrev pub clock_max_unix_ms : ℕ
clock_max_unix_ms = 4102444800000

abbrev pub clock_unsynchronized : ℕ
clock_unsynchronized = 0

abbrev pub clock_synchronized : ℕ
clock_synchronized = 1

abbrev pub clock_stale : ℕ
clock_stale = 2

-- `clock_model_t`
pub record ClockModel : Type 0 where
  pub last_sync_uptime_ms : ℕ
  pub last_sync_unix_ms : ℕ
  pub sync_count : ℕ
  pub rejected_sync_count : ℕ

-- `clock_stamp_t`
pub record ClockStamp : Type 0 where
  pub uptime_ms : ℕ
  pub unix_ms : ℕ
  pub quality : ℕ

abbrev pub count_up : ℕ → ℕ
count_up n = if n == uint32_max then n else n + 1

unfoldable pub clock_model_sync : ClockModel → ℕ → ℕ → ClockModel × Bool
clock_model_sync clock uptime_ms unix_ms =
    if ltb unix_ms clock_min_unix_ms
      || leb clock_max_unix_ms unix_ms
      || (not (clock.sync_count == 0) && ltb uptime_ms clock.last_sync_uptime_ms)
    then (record clock { rejected_sync_count = count_up clock.rejected_sync_count }, false)
    else (
      record clock {
        last_sync_uptime_ms = uptime_ms;
        last_sync_unix_ms = unix_ms;
        sync_count = count_up clock.sync_count;
      },
      true,
    )

abbrev pub unknown_time : ℕ → ClockStamp
unknown_time uptime_ms = record {
  uptime_ms = uptime_ms;
  unix_ms = 0;
  quality = clock_unsynchronized;
}

unfoldable pub clock_model_stamp : ClockModel → ℕ → ClockStamp
clock_model_stamp clock uptime_ms =
    if clock.sync_count == 0
      || ltb uptime_ms clock.last_sync_uptime_ms
      || ltb clock.last_sync_unix_ms clock_min_unix_ms
      || leb clock_max_unix_ms clock.last_sync_unix_ms
    then unknown_time uptime_ms
    else (let age = uptime_ms - clock.last_sync_uptime_ms in
        if leb (clock_max_unix_ms - clock.last_sync_unix_ms) age
        then unknown_time uptime_ms
        else record {
          uptime_ms = uptime_ms;
          unix_ms = clock.last_sync_unix_ms + age;
          quality = if ltb clock_stale_after_ms age then clock_stale else clock_synchronized;
        })
