-- ===== src/Input/Debounce.antt =====
-- main/input_debounce.h and main/input_debounce.c: the debouncer of one input, with the count of
-- rejected pulses that tells a chattering contact.
pub mod Valid
pub mod Hold
use esp32_p4_bacnet_switches.Base.{
  ℕ, zero, suc, ◌+◌, ◌-◌, ◌%◌, Bool, true, false, not, ◌||◌, ◌&&◌, List, [], ◌∷◌, ltb, leb, ◌==◌,
  if◌then◌else◌, same_bool, get_or, set, replicate, uint32_max, uint64_max,
}

abbrev pub chatter_rejection_threshold : ℕ
chatter_rejection_threshold = 4

abbrev pub chatter_window_ms : ℕ
chatter_window_ms = 2000

abbrev pub chatter_hold_ms : ℕ
chatter_hold_ms = 5000

-- `input_debounce_state_t`
pub record DebounceState : Type 0 where
  pub initialized : Bool
  pub stable : Bool
  pub raw : Bool
  pub candidate_active : Bool
  pub candidate_level : Bool
  pub candidate_age_ms : ℕ
  pub raw_edge_count : ℕ
  pub accepted_transition_count : ℕ
  pub rejected_pulse_count : ℕ
  pub chatter_event_count : ℕ
  pub rejection_window_count : ℕ
  pub rejection_history_count : ℕ
  pub rejection_history_next : ℕ
  pub last_rejected_pulse_width_ms : ℕ
  pub initial_observation_uptime_ms : ℕ
  pub last_raw_edge_uptime_ms : ℕ
  pub last_accepted_transition_uptime_ms : ℕ
  pub last_rejected_pulse_uptime_ms : ℕ
  pub chattering_until_uptime_ms : ℕ
  pub rejection_uptime_history : List ℕ

-- `input_debounce_result_t`; `stable` of the result is the field `level`.
pub record DebounceResult : Type 0 where
  pub raw_edge : Bool
  pub accepted_transition : Bool
  pub rejected_pulse : Bool
  pub chatter_started : Bool
  pub level : Bool

unfoldable pub increment_saturating : ℕ → ℕ
increment_saturating value = if ltb value uint32_max then value + 1 else value

unfoldable pub add_saturating : ℕ → ℕ → ℕ
add_saturating left right = if ltb (uint32_max - left) right then uint32_max else left + right

unfoldable pub add_uptime_saturating : ℕ → ℕ → ℕ
add_uptime_saturating left right =
    if ltb (uint64_max - left) right then uint64_max else left + right

abbrev pub initial_debounce : Bool → ℕ → DebounceState
initial_debounce initial_level uptime_ms = record {
  initialized = true;
  stable = initial_level;
  raw = initial_level;
  candidate_active = false;
  candidate_level = initial_level;
  candidate_age_ms = 0;
  raw_edge_count = 0;
  accepted_transition_count = 0;
  rejected_pulse_count = 0;
  chatter_event_count = 0;
  rejection_window_count = 0;
  rejection_history_count = 0;
  rejection_history_next = 0;
  last_rejected_pulse_width_ms = 0;
  initial_observation_uptime_ms = uptime_ms;
  last_raw_edge_uptime_ms = 0;
  last_accepted_transition_uptime_ms = 0;
  last_rejected_pulse_uptime_ms = 0;
  chattering_until_uptime_ms = 0;
  rejection_uptime_history = replicate chatter_rejection_threshold 0;
}

unfoldable pub transition_age_ms : DebounceState → ℕ → ℕ
transition_age_ms state uptime_ms =
    if not state.initialized
    then 0
    else (let since =
          if not (state.accepted_transition_count == 0)
          then state.last_accepted_transition_uptime_ms
          else state.initial_observation_uptime_ms in
        if leb since uptime_ms then uptime_ms - since else 0)

unfoldable pub is_chattering : DebounceState → ℕ → Bool
is_chattering state uptime_ms = ltb uptime_ms state.chattering_until_uptime_ms

abbrev pub is_recent : ℕ → ℕ → Bool
is_recent uptime_ms rejection_ms =
    leb rejection_ms uptime_ms && leb (uptime_ms - rejection_ms) chatter_window_ms

-- The first `count` entries of the history that are recent, from `index` on.
unfoldable pub recent_rejections : List ℕ → ℕ → ℕ → ℕ → ℕ
recent_rejections history uptime_ms index zero = 0
recent_rejections history uptime_ms index (suc count) =
    (if is_recent uptime_ms (get_or history index 0) then 1 else 0)
    + recent_rejections history uptime_ms (index + 1) count

unfoldable pub rejection_count_in_window : DebounceState → ℕ → ℕ
unfolding recent_rejections
rejection_count_in_window state uptime_ms =
    recent_rejections state.rejection_uptime_history uptime_ms 0 state.rejection_history_count

-- The part of `record_rejected_pulse` before the test of the threshold.
unfoldable pub note_rejection : DebounceState → ℕ → DebounceState
unfolding increment_saturating rejection_count_in_window
note_rejection state uptime_ms =
    let noted = record state {
      rejection_uptime_history =
          set state.rejection_uptime_history state.rejection_history_next uptime_ms;
      rejection_history_next = (state.rejection_history_next + 1) % chatter_rejection_threshold;
      rejection_history_count =
          if ltb state.rejection_history_count chatter_rejection_threshold
          then state.rejection_history_count + 1
          else state.rejection_history_count;
    } in
    record noted {
      rejection_window_count = rejection_count_in_window noted uptime_ms;
      last_rejected_pulse_width_ms = state.candidate_age_ms;
      last_rejected_pulse_uptime_ms = uptime_ms;
      rejected_pulse_count = increment_saturating state.rejected_pulse_count;
    }

unfoldable pub record_rejected_pulse :
    DebounceState → ℕ → DebounceResult → DebounceState × DebounceResult
unfolding note_rejection add_uptime_saturating is_chattering
record_rejected_pulse state uptime_ms result =
    let noted = note_rejection state uptime_ms in
    let started = not (is_chattering state uptime_ms) in
    if leb chatter_rejection_threshold noted.rejection_window_count
    then (
      record noted {
        chatter_event_count =
            if started
            then increment_saturating noted.chatter_event_count
            else noted.chatter_event_count;
        chattering_until_uptime_ms = add_uptime_saturating uptime_ms chatter_hold_ms;
      },
      record result { rejected_pulse = true; chatter_started = started || result.chatter_started },
    )
    else (noted, record result { rejected_pulse = true })

abbrev pub no_result : DebounceResult
no_result = record {
  raw_edge = false;
  accepted_transition = false;
  rejected_pulse = false;
  chatter_started = false;
  level = false;
}

-- The edge of the raw level.
unfoldable pub note_edge : DebounceState → Bool → ℕ → DebounceState × DebounceResult
unfolding increment_saturating
note_edge state sampled_level uptime_ms =
    if same_bool sampled_level state.raw then (state, no_result) else (
      record state {
        raw = sampled_level;
        last_raw_edge_uptime_ms = uptime_ms;
        raw_edge_count = increment_saturating state.raw_edge_count;
      },
      record no_result { raw_edge = true },
    )

-- The sample agrees with the stable level: a candidate that was there is a rejected pulse.
unfoldable pub sample_agrees : DebounceState → DebounceResult → ℕ → DebounceState × DebounceResult
unfolding record_rejected_pulse
sample_agrees state result uptime_ms =
    let (s, r) =
      if state.candidate_active
      then record_rejected_pulse state uptime_ms result
      else (state, result) in
    (
      record s { candidate_active = false; candidate_level = state.stable; candidate_age_ms = 0 },
      record r { level = state.stable },
    )

-- The sample differs from it: the candidate's age, started or added to.
unfoldable pub candidate_age : DebounceState → Bool → ℕ → ℕ
unfolding add_saturating
candidate_age state sampled_level sample_period_ms =
    if not state.candidate_active || not (same_bool state.candidate_level sampled_level)
    then sample_period_ms
    else add_saturating state.candidate_age_ms sample_period_ms

unfoldable pub sample_differs :
    DebounceState → DebounceResult → Bool → ℕ → ℕ → ℕ → DebounceState × DebounceResult
unfolding candidate_age increment_saturating
sample_differs state result sampled_level sample_period_ms debounce_ms uptime_ms =
    let age = candidate_age state sampled_level sample_period_ms in
    if leb debounce_ms age
    then (
      record state {
        stable = sampled_level;
        candidate_active = false;
        candidate_level = sampled_level;
        candidate_age_ms = 0;
        last_accepted_transition_uptime_ms = uptime_ms;
        rejection_window_count = 0;
        rejection_history_count = 0;
        rejection_history_next = 0;
        accepted_transition_count = increment_saturating state.accepted_transition_count;
      },
      record result { accepted_transition = true; level = sampled_level },
    )
    else (
      record state {
        candidate_active = true;
        candidate_level = sampled_level;
        candidate_age_ms = age;
      },
      record result { level = state.stable },
    )

unfoldable pub input_debounce_sample :
    DebounceState → Bool → ℕ → ℕ → ℕ → DebounceState × DebounceResult
unfolding note_edge sample_agrees sample_differs
input_debounce_sample state sampled_level sample_period_ms debounce_ms uptime_ms =
    if not state.initialized
    then (initial_debounce sampled_level uptime_ms, record no_result { level = sampled_level })
    else (let (s, r) = note_edge state sampled_level uptime_ms in
        if same_bool sampled_level s.stable
        then sample_agrees s r uptime_ms
        else sample_differs s r sampled_level sample_period_ms debounce_ms uptime_ms)
