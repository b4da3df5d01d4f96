-- ===== src/Diagnostics/Time.antt =====
-- main/diagnostics_time.c: ages and heartbeats; main/diagnostics_metrics.c: how many events the log
-- has seen and lost. The temperatures of the latter are left out, as floating-point numbers.
use esp32_p4_bacnet_switches.Base.{
  ℕ, suc, ◌+◌, ◌-◌, ◌/◌, ◌<◌, ◌≡◌, Bool, ◌&&◌, List, [], ◌∷◌, ltb, leb, ◌==◌, if◌then◌else◌, length,
  min, arith, uint32_max,
}
use esp32_p4_bacnet_switches.Input.Clock.{ClockStamp}
use esp32_p4_bacnet_switches.Diagnostics.Log.{PersistentState}
use esp32_p4_bacnet_switches.Diagnostics.Events.{append_event, empty_log}

-- A signed count of microseconds is its sign and its size.
unfoldable pub milliseconds_from_microseconds : Bool → ℕ → ℕ
milliseconds_from_microseconds is_negative size = if is_negative then 0 else size / 1000

unfoldable pub elapsed_milliseconds : ℕ → ℕ → ℕ
elapsed_milliseconds now_ms since_ms = if leb since_ms now_ms then now_ms - since_ms else 0

unfoldable pub heartbeat_is_healthy : Bool → ℕ → ℕ → ℕ → Bool
heartbeat_is_healthy subscribed now_ms last_heartbeat_ms maximum_age_ms =
    subscribed && leb last_heartbeat_ms now_ms && leb (now_ms - last_heartbeat_ms) maximum_age_ms

-- `diagnostics_fault_log_metrics_t`
pub record FaultLogMetrics : Type 0 where
  pub total_event_count : ℕ
  pub overwritten_event_count : ℕ

unfoldable pub fault_log_metrics : ℕ → ℕ → FaultLogMetrics
fault_log_metrics next_sequence retained_count =
    let total = if next_sequence == 0 then uint32_max else next_sequence - 1 in
    let retained = if ltb uint32_max retained_count then uint32_max else retained_count in
    record {
      total_event_count = total;
      overwritten_event_count = if ltb retained total then total - retained else 0;
    }

-- The log after these events, each with its stamp, type and code.
abbrev pub append_events : PersistentState → List (ClockStamp × ℕ × ℕ) → PersistentState
append_events s [] = s
append_events s ((stamp, type_code, code) ∷ rest) =
    append_events (append_event s stamp type_code code) rest

-- The counters of a log that started empty and has seen so many events.
abbrev HasSeen : PersistentState → ℕ → Type 0
HasSeen s n = (s.next_sequence ≡ n + 1) × (s.event_count ≡ min n 16)

append_event-HasSeen :
    (s : PersistentState) (n : ℕ) (stamp : ClockStamp) (type_code code : ℕ)
    → HasSeen s n
    → n + 1 < 4294967295
    → HasSeen (append_event s stamp type_code code) (n + 1)
unfolding append_event
append_event-HasSeen s n stamp type_code code (next, count) few = (ground arith, ground arith)

append_events-HasSeen :
    (s : PersistentState) (n : ℕ) (events : List (ClockStamp × ℕ × ℕ))
    → HasSeen s n
    → n + length events < 4294967295
    → HasSeen (append_events s events) (n + length events)
append_events-HasSeen s n [] (next, count) few = (omega (arith, next), omega (arith, count))
append_events-HasSeen s n ((stamp, type_code, code) ∷ rest) seen few =
    let sum : n + suc (length rest) ≡ (n + 1) + length rest = omega arith in
    rw sum (
      append_events-HasSeen (append_event s stamp type_code code) (n + 1) rest
        (append_event-HasSeen s n stamp type_code code seen (omega arith)) (omega arith))

-- After any fewer than 2^32 - 1 events are recorded in an empty log, it retains as many of them as
-- there are, at most 16, the reported total is their number, and so is the number reported as
-- overwritten with those retained.
pub fault_log_metrics-append_events :
    (events : List (ClockStamp × ℕ × ℕ))
    → length events < 4294967295
    → let s = append_events empty_log events in
      let m = fault_log_metrics s.next_sequence s.event_count in
      (s.event_count ≡ min (length events) 16)
      × (m.total_event_count ≡ length events)
      × (m.overwritten_event_count + s.event_count ≡ length events)
unfolding fault_log_metrics
fault_log_metrics-append_events events few =
    let start : 0 + length events ≡ length events = omega arith in
    let (next, count) =
      append_events-HasSeen empty_log 0 events (omega arith, omega arith) (omega arith) in
    (ground (arith, count), ground (arith, next), ground (arith, next, count))
