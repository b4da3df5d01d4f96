-- ===== src/Diagnostics/Log.antt =====
-- main/diagnostics_log_model.h and main/diagnostics_log_model.c: the stored log in its three layouts. A
-- blob is its bytes, lowest first; the signed code of an event is its 16 bits, which are only copied.
pub mod Decode
pub mod Reconcile
use esp32_p4_bacnet_switches.Base.{
  ℕ, zero, suc, ◌+◌, ◌-◌, ◌*◌, ◌%◌, Bool, true, false, not, ◌||◌, ◌&&◌, List, [], ◌∷◌, Option, none,
  some, ltb, leb, ◌==◌, if◌then◌else◌, length, get_or, map,
}
use esp32_p4_bacnet_switches.Input.Clock.{
  clock_unsynchronized, clock_stale, clock_min_unix_ms, clock_max_unix_ms,
}

abbrev pub log_capacity : ℕ
log_capacity = 16

abbrev pub persistent_magic : ℕ
persistent_magic = 0x44494147

abbrev pub persistent_version : ℕ
persistent_version = 3

-- `sizeof` of the three layouts.
abbrev pub state_v1_size : ℕ
state_v1_size = 284

abbrev pub state_v2_size : ℕ
state_v2_size = 416

abbrev pub state_v3_size : ℕ
state_v3_size = 544

-- `diagnostics_fault_event_t`
pub record FaultEvent : Type 0 where
  pub sequence : ℕ
  pub boot_count : ℕ
  pub uptime_ms : ℕ
  pub utc_unix_ms : ℕ
  pub type_code : ℕ
  pub code : ℕ
  pub clock_quality : ℕ

-- `diagnostics_persistent_state_t`
pub record PersistentState : Type 0 where
  pub magic : ℕ
  pub version : ℕ
  pub boot_count : ℕ
  pub next_sequence : ℕ
  pub event_head : ℕ
  pub event_count : ℕ
  pub last_ota_result : ℕ
  pub events : List FaultEvent

-- `diagnostics_fault_event_v2_t`
pub record FaultEventV2 : Type 0 where
  pub sequence : ℕ
  pub boot_count : ℕ
  pub uptime_ms : ℕ
  pub type_code : ℕ
  pub code : ℕ

-- `diagnostics_persistent_state_v2_t`
pub record PersistentStateV2 : Type 0 where
  pub magic : ℕ
  pub version : ℕ
  pub boot_count : ℕ
  pub next_sequence : ℕ
  pub event_head : ℕ
  pub event_count : ℕ
  pub last_ota_result : ℕ
  pub events : List FaultEventV2

abbrev pub no_fault : FaultEvent
no_fault = record {
  sequence = 0;
  boot_count = 0;
  uptime_ms = 0;
  utc_unix_ms = 0;
  type_code = 0;
  code = 0;
  clock_quality = 0;
}

-- A number of so many bytes at an offset.
abbrev pub read_le : ℕ → List ℕ → ℕ → ℕ
read_le zero bytes offset = 0
read_le (suc width) bytes offset = get_or bytes offset 0 + 256 * read_le width bytes (offset + 1)

-- `header[index]`
abbrev pub header_word : List ℕ → ℕ → ℕ
header_word bytes index = read_le 4 bytes (4 * index)

unfoldable pub event_v1 : List ℕ → ℕ → FaultEvent
event_v1 bytes index =
    let start = 28 + 16 * index in
    record {
      sequence = read_le 4 bytes start;
      boot_count = read_le 4 bytes (start + 4);
      uptime_ms = read_le 4 bytes (start + 8);
      utc_unix_ms = 0;
      type_code = read_le 2 bytes (start + 12);
      code = read_le 2 bytes (start + 14);
      clock_quality = 0;
    }

unfoldable pub event_v2 : List ℕ → ℕ → FaultEvent
event_v2 bytes index =
    let start = 32 + 24 * index in
    record {
      sequence = read_le 4 bytes start;
      boot_count = read_le 4 bytes (start + 4);
      uptime_ms = read_le 8 bytes (start + 8);
      utc_unix_ms = 0;
      type_code = read_le 2 bytes (start + 16);
      code = read_le 2 bytes (start + 18);
      clock_quality = 0;
    }

-- An event as the copy of the whole structure puts it.
unfoldable pub event_v3 : List ℕ → ℕ → FaultEvent
event_v3 bytes index =
    let start = 32 + 32 * index in
    record {
      sequence = read_le 4 bytes start;
      boot_count = read_le 4 bytes (start + 4);
      uptime_ms = read_le 8 bytes (start + 8);
      utc_unix_ms = read_le 8 bytes (start + 16);
      type_code = read_le 2 bytes (start + 24);
      code = read_le 2 bytes (start + 26);
      clock_quality = get_or bytes (start + 28) 0;
    }

-- The events from `index` on.
abbrev pub read_events : (ℕ → FaultEvent) → ℕ → ℕ → List FaultEvent
read_events read_one index zero = []
read_events read_one index (suc count) = read_one index ∷ read_events read_one (index + 1) count

-- The header, under the present version, with these events.
abbrev pub read_state : List ℕ → (ℕ → FaultEvent) → PersistentState
read_state bytes read_one = record {
  magic = header_word bytes 0;
  version = persistent_version;
  boot_count = header_word bytes 2;
  next_sequence = header_word bytes 3;
  event_head = header_word bytes 4;
  event_count = header_word bytes 5;
  last_ota_result = header_word bytes 6;
  events = read_events read_one 0 log_capacity;
}

unfoldable pub is_bad_event : FaultEvent → Bool
is_bad_event event =
    ltb clock_stale event.clock_quality
    || (event.clock_quality == clock_unsynchronized && not (event.utc_unix_ms == 0))
    || (not (event.clock_quality == clock_unsynchronized)
        && (ltb event.utc_unix_ms clock_min_unix_ms || leb clock_max_unix_ms event.utc_unix_ms))

-- The retained event of this age, the oldest first.
abbrev pub retained_event : PersistentState → ℕ → FaultEvent
retained_event s index =
    get_or s.events ((s.event_head + log_capacity - s.event_count + index) % log_capacity) no_fault

-- The loop over the first `count` retained events.
unfoldable pub all_stamped : PersistentState → ℕ → Bool
all_stamped s zero = true
all_stamped s (suc index) = all_stamped s index && not (is_bad_event (retained_event s index))

unfoldable pub is_bad_header : List ℕ → Bool
is_bad_header bytes =
    not (header_word bytes 0 == persistent_magic)
    || (header_word bytes 3 == 0)
    || leb log_capacity (header_word bytes 4)
    || ltb log_capacity (header_word bytes 5)

unfoldable pub diagnostics_log_decode : List ℕ → Option PersistentState
diagnostics_log_decode bytes =
    if ltb (length bytes) 28 || is_bad_header bytes
    then none
    else if header_word bytes 1 == 3 && (length bytes == state_v3_size)
    then (let state = read_state bytes (event_v3 bytes) in
        if all_stamped state state.event_count then some state else none)
    else if header_word bytes 1 == 1 && (length bytes == state_v1_size)
    then some (read_state bytes (event_v1 bytes))
    else if header_word bytes 1 == 2 && (length bytes == state_v2_size)
    then some (read_state bytes (event_v2 bytes))
    else none

abbrev pub event_to_v2 : FaultEvent → FaultEventV2
event_to_v2 event = record {
  sequence = event.sequence;
  boot_count = event.boot_count;
  uptime_ms = event.uptime_ms;
  type_code = event.type_code;
  code = event.code;
}

unfoldable pub diagnostics_log_to_v2 : PersistentState → PersistentStateV2
diagnostics_log_to_v2 s = record {
  magic = s.magic;
  version = 2;
  boot_count = s.boot_count;
  next_sequence = s.next_sequence;
  event_head = s.event_head;
  event_count = s.event_count;
  last_ota_result = s.last_ota_result;
  events = map event_to_v2 s.events;
}

unfoldable pub is_same_event : FaultEvent → FaultEvent → Bool
is_same_event event old =
    not (event.sequence == 0)
    && (event.sequence == old.sequence)
    && (event.boot_count == old.boot_count)
    && (event.uptime_ms == old.uptime_ms)
    && (event.type_code == old.type_code)
    && (event.code == old.code)

-- The inner loop: the stamp of the first event that is the same.
unfoldable pub take_stamp : FaultEvent → List FaultEvent → FaultEvent
take_stamp event [] = event
take_stamp event (old ∷ olds) =
    let later = take_stamp event olds in
    if is_same_event event old
    then (record event { utc_unix_ms = old.utc_unix_ms; clock_quality = old.clock_quality })
    else later

abbrev pub take_stamps : List FaultEvent → List FaultEvent → List FaultEvent
take_stamps [] olds = []
take_stamps (event ∷ events) olds = take_stamp event olds ∷ take_stamps events olds

unfoldable pub is_newer : PersistentState → PersistentState → Bool
is_newer legacy s = not (
    ltb legacy.boot_count s.boot_count
    || (legacy.boot_count == s.boot_count && leb legacy.next_sequence s.next_sequence))

unfoldable pub diagnostics_log_reconcile : PersistentState → PersistentState → PersistentState
diagnostics_log_reconcile s legacy =
    if is_newer legacy s then (record legacy { events = take_stamps legacy.events s.events }) else s
