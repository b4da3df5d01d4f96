-- ===== src/Input/Poll.antt =====
-- main/switch_inputs.c, lines 109-221: the task that samples the switch inputs. The raw levels, the
-- clock's values and the GPIO numbers are arguments; the bits of `stable_input_bits` are a list of
-- flags, one for each input. A turn is one step, since only this task writes what it changes.
pub mod Served
use esp32_p4_bacnet_switches.Base.{
  ℕ, zero, suc, ◌+◌, Bool, true, false, not, List, [], ◌∷◌, Option, none, some, if◌then◌else◌,
  get_or, set, same_bool,
}
use esp32_p4_bacnet_switches.Input.Clock.{ClockStamp}
use esp32_p4_bacnet_switches.Input.Debounce.{
  DebounceState, DebounceResult, initial_debounce, input_debounce_sample,
}
use esp32_p4_bacnet_switches.Input.History.{
  History, input_history_record, history_initial, history_rejected_pulse, history_chatter_started,
}

abbrev pub switch_input_count : ℕ
switch_input_count = 3

abbrev pub input_poll_ms : ℕ
input_poll_ms = 10

abbrev pub history_transition : ℕ
history_transition = 2

-- The globals that the task changes.
pub record Inputs : Type 0 where
  pub states : List DebounceState
  pub history : History
  pub stable_bits : List Bool

-- What does not change after `switch_inputs_init`.
pub record Wiring : Type 0 where
  pub gpios : List ℕ
  pub active_low : List Bool
  pub debounce_ms : ℕ

abbrev pub no_state : DebounceState
no_state = record (initial_debounce false 0) { initialized = false }

-- `read_input_bits`: a line that is active is high, or low if it is active low.
unfoldable pub read_input_bits : List Bool → List Bool → List Bool
read_input_bits [] active_low = []
read_input_bits (raw ∷ raws) [] = raw ∷ read_input_bits raws []
read_input_bits (raw ∷ raws) (low ∷ lows) = not (same_bool raw low) ∷ read_input_bits raws lows

-- `(void)input_history_record(…)`
unfoldable pub remember : History → ℕ → ℕ → Bool → ℕ → ClockStamp → History
remember h gpio kind active width stamp =
    elim (input_history_record h gpio kind active width stamp) [ none ↦ h | some changed ↦ changed ]

-- The events of a sample's result.
unfoldable pub remember_result : History → ℕ → DebounceState → DebounceResult → ClockStamp → History
remember_result h gpio state result stamp =
    let h1 =
      if result.accepted_transition
      then remember h gpio history_transition result.level 0 stamp
      else h in
    let h2 =
      if result.rejected_pulse
      then remember h1 gpio history_rejected_pulse result.level state.last_rejected_pulse_width_ms
          stamp
      else h1 in
    if result.chatter_started
    then remember h2 gpio history_chatter_started result.level 0 stamp
    else h2

-- The body of the task's loop over the inputs.
unfoldable pub poll_input : Wiring → Inputs → ℕ → Bool → ℕ → ClockStamp → Inputs
poll_input wiring inputs index sampled uptime_ms stamp =
    let (state, result) =
      input_debounce_sample (get_or inputs.states index no_state) sampled input_poll_ms
        wiring.debounce_ms uptime_ms in
    record {
      states = set inputs.states index state;
      history = remember_result inputs.history (get_or wiring.gpios index 0) state result stamp;
      stable_bits =
          if result.accepted_transition
          then set inputs.stable_bits index result.level
          else inputs.stable_bits;
    }

-- The first `count` inputs.
unfoldable pub poll_inputs : Wiring → Inputs → List Bool → ℕ → ClockStamp → ℕ → Inputs
poll_inputs wiring inputs sampled uptime_ms stamp zero = inputs
poll_inputs wiring inputs sampled uptime_ms stamp (suc index) =
    poll_input wiring (poll_inputs wiring inputs sampled uptime_ms stamp index) index
      (get_or sampled index false) uptime_ms stamp

-- A turn of the task's loop, which rests while the self-test runs.
unfoldable pub poll_turn : Wiring → Inputs → Bool → List Bool → ℕ → ClockStamp → Inputs
poll_turn wiring inputs self_test_active raws uptime_ms stamp =
    if self_test_active
    then inputs
    else poll_inputs wiring inputs (read_input_bits raws wiring.active_low) uptime_ms stamp
        switch_input_count

-- The body of the first loop, before the task's own.
unfoldable pub start_input : Wiring → Inputs → ℕ → Bool → ClockStamp → Inputs
start_input wiring inputs index initial stamp = record {
  states = set inputs.states index (initial_debounce initial stamp.uptime_ms);
  history = remember inputs.history (get_or wiring.gpios index 0) history_initial initial 0 stamp;
  stable_bits = set inputs.stable_bits index initial;
}

unfoldable pub start_inputs : Wiring → Inputs → List Bool → (ℕ → ClockStamp) → ℕ → Inputs
start_inputs wiring inputs initial stamp_at zero = inputs
start_inputs wiring inputs initial stamp_at (suc index) =
    start_input wiring (start_inputs wiring inputs initial stamp_at index) index
      (get_or initial index false) (stamp_at index)

-- `switch_input_get`
unfoldable pub switch_input_get : Inputs → ℕ → Bool
switch_input_get inputs index = get_or inputs.stable_bits index false
