-- ===== src/Input/Debounce/Valid.antt =====
-- The bounds of the debouncer's state.
use esp32_p4_bacnet_switches.Base.{
  ℕ, zero, suc, ◌+◌, ◌≤◌, ◌≡◌, refl, Bool, true, ◌&&◌, List, arith, ltb, leb, ◌==◌, Bool-cases, inl,
  inr, length, length-set, set, uint32_max, uint64_max,
}
use esp32_p4_bacnet_switches.Input.Debounce.{
  DebounceState, DebounceResult, initial_debounce, chatter_hold_ms, increment_saturating,
  add_saturating, add_uptime_saturating, is_chattering, recent_rejections,
  rejection_count_in_window, note_rejection, record_rejected_pulse, note_edge, sample_agrees,
  sample_differs, candidate_age, input_debounce_sample, chatter_rejection_threshold,
}

-- The fields keep their widths, and the ring of rejection times its four entries.
unfoldable pub is_valid : DebounceState → Bool
is_valid s =
    length s.rejection_uptime_history == chatter_rejection_threshold
    && ltb s.rejection_history_next chatter_rejection_threshold
    && leb s.rejection_history_count chatter_rejection_threshold
    && leb s.rejection_window_count s.rejection_history_count
    && leb s.candidate_age_ms uint32_max
    && leb s.raw_edge_count uint32_max
    && leb s.accepted_transition_count uint32_max
    && leb s.rejected_pulse_count uint32_max
    && leb s.chatter_event_count uint32_max
    && leb s.last_rejected_pulse_width_ms uint32_max
    && leb s.chattering_until_uptime_ms uint64_max

recent_rejections-bound :
    (history : List ℕ) (uptime index count : ℕ)
    → recent_rejections history uptime index count ≤ count
unfolding recent_rejections
recent_rejections-bound history uptime index zero = omega arith
recent_rejections-bound history uptime index (suc count) =
    ground (arith, recent_rejections-bound history uptime (index + 1) count)

note_rejection-is_valid :
    (s : DebounceState) (uptime : ℕ) → is_valid s ≡ true → is_valid (note_rejection s uptime) ≡ true
unfolding is_valid note_rejection increment_saturating rejection_count_in_window
note_rejection-is_valid s uptime valid =
    let next = set s.rejection_uptime_history s.rejection_history_next uptime in
    ground (
      arith,
      length-set s.rejection_uptime_history s.rejection_history_next uptime,
      recent_rejections-bound next uptime 0 (s.rejection_history_count + 1),
      recent_rejections-bound next uptime 0 s.rejection_history_count,
    )

-- The start or the extension of the chattering time.
alarm-is_valid :
    (n : DebounceState) (count until : ℕ)
    → is_valid n ≡ true
    → count ≤ uint32_max
    → until ≤ uint64_max
    → is_valid (record n { chatter_event_count = count; chattering_until_uptime_ms = until }) ≡ true
unfolding is_valid
alarm-is_valid n count until valid few soon = ground arith

increment_saturating-bound : (n : ℕ) → n ≤ uint32_max → increment_saturating n ≤ uint32_max
unfolding increment_saturating
increment_saturating-bound n h = ground arith

add_uptime_saturating-bound : (a b : ℕ) → a ≤ uint64_max → add_uptime_saturating a b ≤ uint64_max
unfolding add_uptime_saturating
add_uptime_saturating-bound a b h = ground arith

chatter_event_count-bound :
    (n : DebounceState) → is_valid n ≡ true → n.chatter_event_count ≤ uint32_max
unfolding is_valid
chatter_event_count-bound n valid = ground arith

pub record_rejected_pulse-is_valid :
    (s : DebounceState) (uptime : ℕ) (r : DebounceResult)
    → is_valid s ≡ true
    → uptime ≤ uint64_max
    → is_valid (record_rejected_pulse s uptime r).0 ≡ true
unfolding record_rejected_pulse
record_rejected_pulse-is_valid s uptime r valid soon =
    let n = note_rejection s uptime in
    let v = note_rejection-is_valid s uptime valid in
    let few = chatter_event_count-bound n v in
    let count = increment_saturating n.chatter_event_count in
    let until = add_uptime_saturating uptime chatter_hold_ms in
    let bound = add_uptime_saturating-bound uptime chatter_hold_ms soon in
    let again = alarm-is_valid n n.chatter_event_count until v few bound in
    let first =
      alarm-is_valid n count until v (increment_saturating-bound n.chatter_event_count few) bound in
    elim (Bool-cases (leb chatter_rejection_threshold n.rejection_window_count)) [
      | inr calm ↦ rw (calm, record_rejected_pulse) v
      | inl many ↦ elim (Bool-cases (is_chattering s uptime)) [
        | inl before ↦ rw (many, record_rejected_pulse) (rw (before, record_rejected_pulse) again)
        | inr new ↦ rw (many, record_rejected_pulse) (rw (new, record_rejected_pulse) first)
      ]
    ]

sample_agrees-is_valid :
    (s : DebounceState) (r : DebounceResult) (uptime : ℕ)
    → is_valid s ≡ true
    → uptime ≤ uint64_max
    → is_valid (sample_agrees s r uptime).0 ≡ true
unfolding is_valid sample_agrees
sample_agrees-is_valid s r uptime valid soon =
    ground (arith, record_rejected_pulse-is_valid s uptime r valid soon)

sample_differs-is_valid :
    (s : DebounceState) (r : DebounceResult) (level : Bool) (period debounce uptime : ℕ)
    → is_valid s ≡ true
    → period ≤ uint32_max
    → is_valid (sample_differs s r level period debounce uptime).0 ≡ true
unfolding is_valid sample_differs candidate_age add_saturating increment_saturating
sample_differs-is_valid s r level period debounce uptime valid small = ground arith

initial_debounce-is_valid :
    (level : Bool) (uptime : ℕ) → is_valid (initial_debounce level uptime) ≡ true
unfolding is_valid
initial_debounce-is_valid level uptime = refl

note_edge-is_valid :
    (s : DebounceState) (level : Bool) (uptime : ℕ)
    → is_valid s ≡ true
    → is_valid (note_edge s level uptime).0 ≡ true
unfolding is_valid note_edge increment_saturating
note_edge-is_valid s level uptime valid = ground arith

-- A sample with a period of 32 bits and an uptime of 64 bits keeps the counters of a valid
-- debouncer within their widths, and the indices of the ring of rejection times inside it.
pub input_debounce_sample-is_valid :
    (s : DebounceState) (level : Bool) (period debounce uptime : ℕ)
    → is_valid s ≡ true
    → period ≤ uint32_max
    → uptime ≤ uint64_max
    → is_valid (input_debounce_sample s level period debounce uptime).0 ≡ true
unfolding input_debounce_sample
input_debounce_sample-is_valid s level period debounce uptime valid small soon =
    let edge = note_edge s level uptime in
    let v = note_edge-is_valid s level uptime valid in
    ground (
      arith,
      initial_debounce-is_valid level uptime,
      sample_agrees-is_valid edge.0 edge.1 uptime v soon,
      sample_differs-is_valid edge.0 edge.1 level period debounce uptime v small,
    )
