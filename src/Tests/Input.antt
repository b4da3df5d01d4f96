-- ===== src/Tests/Input.antt =====
-- The input filter and the event ring at concrete inputs.
use esp32_p4_bacnet_switches.Base.{
  ◌+◌, ◌≡◌, refl, true, false, [], ◌∷◌, ◌++◌, some, arith, if◌then◌else◌, ◌==◌, set, length, all_of,
  ℕ, List, ◌≤◌, replicate,
}
use esp32_p4_bacnet_switches.Input.Clock.{ClockModel, ClockStamp}
use esp32_p4_bacnet_switches.Input.Clock.ServerName.{
  server_max_length, clock_server_name_valid, check_name, is_bad_byte, alphanumeric, is_name_byte,
  clock_server_name_valid-safe,
}
use esp32_p4_bacnet_switches.Input.Debounce.{initial_debounce, input_debounce_sample}
use esp32_p4_bacnet_switches.Input.Debounce.Valid.{is_valid, input_debounce_sample-is_valid}
use esp32_p4_bacnet_switches.Input.Debounce.Hold.{lasted, hold, hold-accepts}
use esp32_p4_bacnet_switches.Input.History.{
  History, empty_history, new_event, input_history_record, input_history_get,
}
use esp32_p4_bacnet_switches.Input.History.Laws.{empty_history-IsRing, input_history_get-record}
use esp32_p4_bacnet_switches.Input.Poll.{Wiring, Inputs, no_state, start_inputs, poll_turn}
use esp32_p4_bacnet_switches.Input.Poll.Served.{IsServed, begun, turned, Running-IsServed}
use esp32_p4_bacnet_switches.Base.{not, ◌&&◌}
use esp32_p4_bacnet_switches.Input.SelfTest.{
  LineTrial, sample_gpio_level, test_line, test_line-passed,
}

-- Three samples of 10 ms do not reach 35 ms, and the fourth does.
hold-accepts_example :
    ((hold (initial_debounce false 0) true 10 35 (10 ∷ 20 ∷ 30 ∷ [])).stable ≡ false)
    × ((hold (initial_debounce false 0) true 10 35 ((10 ∷ 20 ∷ 30 ∷ []) ++ (40 ∷ []))).stable
        ≡ true)
unfolding lasted
hold-accepts_example =
    hold-accepts true 10 35 (initial_debounce false 0) (10 ∷ 20 ∷ 30 ∷ []) 40 refl refl
      (omega arith) (omega arith) (omega arith)

input_debounce_sample-is_valid_example :
    is_valid (input_debounce_sample (initial_debounce false 0) true 10 35 10).0 ≡ true
unfolding is_valid
input_debounce_sample-is_valid_example =
    input_debounce_sample-is_valid (initial_debounce false 0) true 10 35 10 refl (omega arith)
      (omega arith)

abbrev no_time : ClockStamp
no_time = record { uptime_ms = 5; unix_ms = 0; quality = 0 }

abbrev one_event : History
one_event = record {
  events = set empty_history.events 0 (record {
    sequence = 1;
    uptime_ms = 5;
    utc_unix_ms = 0;
    clock_quality = 0;
    pulse_width_ms = 0;
    gpio = 20;
    kind = 2;
    active = true;
  });
  head = 1;
  count = 1;
  total_events = 1;
}

record_one : input_history_record empty_history 20 2 true 9 no_time ≡ some one_event
unfolding input_history_record
record_one = refl

input_history_get-record_example : input_history_get one_event 0 ≡ (
    if 0 + 1 == one_event.count
    then some (new_event empty_history 20 2 true 9 no_time)
    else input_history_get empty_history (if empty_history.count == 64 then 0 + 1 else 0))
input_history_get-record_example =
    input_history_get-record empty_history 20 2 true 9 no_time 0 record_one empty_history-IsRing
      (omega arith)

abbrev clock : ClockModel
clock = record {
  last_sync_uptime_ms = 1000;
  last_sync_unix_ms = 1700000000000;
  sync_count = 1;
  rejected_sync_count = 0;
}

-- `a-1.b`
abbrev server : List ℕ
server = 97 ∷ 45 ∷ 49 ∷ 46 ∷ 98 ∷ []

server_valid : clock_server_name_valid server ≡ true
unfolding clock_server_name_valid check_name is_bad_byte alphanumeric
server_valid = refl

clock_server_name_valid-safe_example :
    (length server ≤ server_max_length) × (all_of is_name_byte server ≡ true)
clock_server_name_valid-safe_example = clock_server_name_valid-safe server server_valid

-- Three lines, the second active when it is low.
abbrev wiring : Wiring
wiring = record {
  gpios = 20 ∷ 21 ∷ 22 ∷ [];
  active_low = false ∷ true ∷ false ∷ [];
  debounce_ms = 30;
}

abbrev at_reset : Inputs
at_reset = record {
  states = replicate 3 no_state;
  history = empty_history;
  stable_bits = true ∷ true ∷ true ∷ [];
}

abbrev at_start : ℕ → ClockStamp
at_start index = record { uptime_ms = 5; unix_ms = 0; quality = 0 }

abbrev started_inputs : Inputs
started_inputs = start_inputs wiring at_reset (false ∷ true ∷ false ∷ []) at_start 3

Running-IsServed_example :
    IsServed 3 (poll_turn wiring started_inputs false (true ∷ true ∷ false ∷ []) 15 (at_start 0))
Running-IsServed_example = Running-IsServed wiring (
    turned (begun at_reset (false ∷ true ∷ false ∷ []) at_start refl refl) false
      (true ∷ true ∷ false ∷ []) 15 (at_start 0))

-- A line that is open: low against the pull-down, high against the pull-up but once.
abbrev open_line : LineTrial
open_line = record {
  direction_ok = true;
  pull_down_ok = true;
  pull_up_ok = true;
  restore_ok = true;
  pulled_down = replicate 8 false;
  pulled_up = false ∷ replicate 7 true;
}

test_line-passed_example :
    (test_line open_line).passed
    ≡ (true && true && true && true && true && true && not (false && not true))
unfolding sample_gpio_level
test_line-passed_example = test_line-passed open_line
