-- ===== src/Diagnostics/Log/Decode.antt =====
-- What a log that is read back is like.
use std.Path.{subst}
use esp32_p4_bacnet_switches.Base.{
  ℕ, zero, suc, ◌+◌, ◌-◌, ◌%◌, ◌<◌, ◌≤◌, ◌≡◌, ◌≢◌, refl, true, false, ◌||◌, ◌&&◌, List, Option,
  none, some, ◌==◌, length, get_or, arith, ltb, Bool-cases, inl, inr,
}
use esp32_p4_bacnet_switches.Diagnostics.Log.{
  FaultEvent, PersistentState, no_fault, read_events, read_state, is_bad_event, all_stamped,
  retained_event, header_word, is_bad_header, diagnostics_log_decode, event_v1, event_v2, event_v3,
}

-- A log that the rest of the firmware can use.
pub record IsLog (s : PersistentState) : Type 0 where
  pub right_version : s.version ≡ 3
  pub has_sequence : s.next_sequence ≢ 0
  pub head_inside : s.event_head < 16
  pub count_inside : s.event_count ≤ 16
  pub all_events : length s.events ≡ 16
  pub stamped : (index : ℕ) → index < s.event_count → is_bad_event (retained_event s index) ≡ false

all_stamped-lookup :
    (s : PersistentState) (count index : ℕ)
    → all_stamped s count ≡ true
    → index < count
    → is_bad_event (retained_event s index) ≡ false
unfolding all_stamped
all_stamped-lookup s zero index h below = absurd (omega arith)
all_stamped-lookup s (suc count) index h below = ground (arith, all_stamped-lookup s count index)

-- A property of all events that a reader gives, and of no event.
get_or-read_events :
    (P : FaultEvent → Type 0) (read_one : ℕ → FaultEvent) (from count index : ℕ)
    → ((i : ℕ) → P (read_one i))
    → P no_fault
    → P (get_or (read_events read_one from count) index no_fault)
get_or-read_events P read_one from zero index each none_too = none_too
get_or-read_events P read_one from (suc count) zero each none_too = each from
get_or-read_events P read_one from (suc count) (suc index) each none_too =
    get_or-read_events P read_one (from + 1) count index each none_too

abbrev IsStamped : FaultEvent → Type 0
IsStamped event = is_bad_event event ≡ false

unsynchronized_v1 : (bytes : List ℕ) (i : ℕ) → IsStamped (event_v1 bytes i)
unfolding event_v1 is_bad_event
unsynchronized_v1 bytes i = refl

unsynchronized_v2 : (bytes : List ℕ) (i : ℕ) → IsStamped (event_v2 bytes i)
unfolding event_v2 is_bad_event
unsynchronized_v2 bytes i = refl

no_fault-IsStamped : IsStamped no_fault
unfolding is_bad_event
no_fault-IsStamped = refl

-- A log of a checked header whose retained events are stamped.
read_state-IsLog :
    (bytes : List ℕ) (read_one : ℕ → FaultEvent)
    → is_bad_header bytes ≡ false
    → ((index : ℕ)
        → index < header_word bytes 5
        → IsStamped (retained_event (read_state bytes read_one) index))
    → IsLog (read_state bytes read_one)
unfolding is_bad_header
read_state-IsLog bytes read_one good stamped = record {
  right_version = refl;
  has_sequence = ground arith;
  head_inside = ground arith;
  count_inside = ground arith;
  all_events = refl;
  stamped = stamped;
}

abbrev GivesLog : Option PersistentState → Type 0
GivesLog none = Unit {0}
GivesLog (some s) = IsLog s

v1-IsLog :
    (bytes : List ℕ) → is_bad_header bytes ≡ false → IsLog (read_state bytes (event_v1 bytes))
v1-IsLog bytes good = read_state-IsLog bytes (event_v1 bytes) good (λ index below.
    get_or-read_events IsStamped (event_v1 bytes) 0 16
      ((header_word bytes 4 + 16 - header_word bytes 5 + index) % 16) (unsynchronized_v1 bytes)
      no_fault-IsStamped)

v2-IsLog :
    (bytes : List ℕ) → is_bad_header bytes ≡ false → IsLog (read_state bytes (event_v2 bytes))
v2-IsLog bytes good = read_state-IsLog bytes (event_v2 bytes) good (λ index below.
    get_or-read_events IsStamped (event_v2 bytes) 0 16
      ((header_word bytes 4 + 16 - header_word bytes 5 + index) % 16) (unsynchronized_v2 bytes)
      no_fault-IsStamped)

v3-IsLog :
    (bytes : List ℕ)
    → is_bad_header bytes ≡ false
    → all_stamped (read_state bytes (event_v3 bytes)) (header_word bytes 5) ≡ true
    → IsLog (read_state bytes (event_v3 bytes))
v3-IsLog bytes good stamped =
    let s = read_state bytes (event_v3 bytes) in
    read_state-IsLog bytes (event_v3 bytes) good
      (λ index below. all_stamped-lookup s (header_word bytes 5) index stamped below)

-- The three layouts, one after the other, behind the check of the header.
decode-GivesLog : (bytes : List ℕ) → GivesLog (diagnostics_log_decode bytes)
unfolding diagnostics_log_decode
decode-GivesLog bytes =
    let refused = ltb (length bytes) 28 || is_bad_header bytes in
    let is_v3 = header_word bytes 1 == 3 && (length bytes == 544) in
    let is_v1 = header_word bytes 1 == 1 && (length bytes == 284) in
    let is_v2 = header_word bytes 1 == 2 && (length bytes == 416) in
    let stamped = all_stamped (read_state bytes (event_v3 bytes)) (header_word bytes 5) in
    elim (Bool-cases refused) [
      | inl h ↦ rw h tt
      | inr accepted ↦
          let good : is_bad_header bytes ≡ false = ground arith in
          rw accepted (elim (Bool-cases is_v3) [
            | inl v3 ↦ rw v3 (elim (Bool-cases stamped) [
              | inl h ↦ rw h (v3-IsLog bytes good h)
              | inr h ↦ rw h tt
            ])
            | inr not_v3 ↦ rw not_v3 (elim (Bool-cases is_v1) [
              | inl v1 ↦ rw v1 (v1-IsLog bytes good)
              | inr not_v1 ↦ rw not_v1 (elim (Bool-cases is_v2) [
                | inl v2 ↦ rw v2 (v2-IsLog bytes good)
                | inr not_v2 ↦ rw not_v2 tt
              ])
            ])
          ])
    ]

-- A log that is decoded from any bytes has version 3, a next sequence that is not 0, a head below
-- 16, at most 16 retained of its 16 events, and each retained event has a stamp that the clock can
-- give.
pub diagnostics_log_decode-IsLog :
    (bytes : List ℕ) {s : PersistentState} → diagnostics_log_decode bytes ≡ some s → IsLog s
diagnostics_log_decode-IsLog bytes e = subst GivesLog e (decode-GivesLog bytes)
