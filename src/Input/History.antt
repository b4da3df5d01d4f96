-- ===== src/Input/History.antt =====
-- main/input_history.h and main/input_history.c: the ring of the last 64 input events. The clock's
-- stamp is the one of main/clock_model.h. A GPIO number is natural here: the refusal of a negative one
-- is left out.
pub mod Laws
use esp32_p4_bacnet_switches.Base.{
  ℕ, zero, suc, ◌+◌, ◌-◌, ◌%◌, Bool, true, false, not, ◌||◌, ◌&&◌, List, [], ◌∷◌, Option, none,
  some, ltb, leb, ◌==◌, if◌then◌else◌, get_or, set, replicate, uint64_max,
}
use esp32_p4_bacnet_switches.Input.Clock.{
  ClockStamp, clock_unsynchronized, clock_stale, clock_min_unix_ms, clock_max_unix_ms,
}

abbrev pub history_capacity : ℕ
history_capacity = 64

abbrev pub history_initial : ℕ
history_initial = 1

abbrev pub history_rejected_pulse : ℕ
history_rejected_pulse = 3

abbrev pub history_chatter_started : ℕ
history_chatter_started = 4

-- `input_history_event_t`
pub record HistoryEvent : Type 0 where
  pub sequence : ℕ
  pub uptime_ms : ℕ
  pub utc_unix_ms : ℕ
  pub clock_quality : ℕ
  pub pulse_width_ms : ℕ
  pub gpio : ℕ
  pub kind : ℕ
  pub active : Bool

abbrev pub no_event : HistoryEvent
no_event = record {
  sequence = 0;
  uptime_ms = 0;
  utc_unix_ms = 0;
  clock_quality = 0;
  pulse_width_ms = 0;
  gpio = 0;
  kind = 0;
  active = false;
}

-- `input_history_t`
pub record History : Type 0 where
  pub events : List HistoryEvent
  pub head : ℕ
  pub count : ℕ
  pub total_events : ℕ

abbrev pub empty_history : History
empty_history = record {
  events = replicate history_capacity no_event;
  head = 0;
  count = 0;
  total_events = 0;
}

-- What `input_history_record` refuses of the history itself.
unfoldable pub is_damaged : History → Bool
is_damaged h =
    leb history_capacity h.head || ltb history_capacity h.count || h.total_events == uint64_max

unfoldable pub is_bad_stamp : ClockStamp → Bool
is_bad_stamp stamp =
    ltb clock_stale stamp.quality
    || (stamp.quality == clock_unsynchronized && not (stamp.unix_ms == 0))
    || (not (stamp.quality == clock_unsynchronized)
        && (ltb stamp.unix_ms clock_min_unix_ms || leb clock_max_unix_ms stamp.unix_ms))

unfoldable pub new_event : History → ℕ → ℕ → Bool → ℕ → ClockStamp → HistoryEvent
new_event h gpio kind active pulse_width_ms stamp = record {
  sequence = h.total_events + 1;
  uptime_ms = stamp.uptime_ms;
  utc_unix_ms = stamp.unix_ms;
  clock_quality = stamp.quality;
  pulse_width_ms = if kind == history_rejected_pulse then pulse_width_ms else 0;
  gpio = gpio;
  kind = kind;
  active = active;
}

-- `none` is the answer `false`, which leaves the history as it is.
unfoldable pub input_history_record : History → ℕ → ℕ → Bool → ℕ → ClockStamp → Option History
unfolding is_damaged is_bad_stamp new_event
input_history_record h gpio kind active pulse_width_ms stamp =
    if ltb 54 gpio
      || ltb kind history_initial
      || ltb history_chatter_started kind
      || is_damaged h
      || is_bad_stamp stamp
    then none
    else some (record {
      events = set h.events h.head (new_event h gpio kind active pulse_width_ms stamp);
      head = (h.head + 1) % history_capacity;
      count = if ltb h.count history_capacity then h.count + 1 else h.count;
      total_events = h.total_events + 1;
    })

unfoldable pub input_history_get : History → ℕ → Option HistoryEvent
input_history_get h oldest_index =
    if leb history_capacity h.head || ltb history_capacity h.count || leb h.count oldest_index
    then none
    else (let oldest = (h.head + history_capacity - h.count) % history_capacity in
        some (get_or h.events ((oldest + oldest_index) % history_capacity) no_event))
