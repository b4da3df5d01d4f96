-- ===== src/Diagnostics/Events/Ring.antt =====
-- The ring of events: what is in it after an event is recorded.
use esp32_p4_bacnet_switches.Base.{
  ℕ, ◌+◌, ◌-◌, ◌%◌, ◌<◌, ◌≤◌, ◌≡◌, ◌≢◌, ap, ◌∙◌, length, length-set, get_or-set_self, get_or-set_ne,
  arith, as_u16, get_or,
}
use esp32_p4_bacnet_switches.Input.Clock.{ClockStamp}
use esp32_p4_bacnet_switches.Diagnostics.Log.{FaultEvent, PersistentState, retained_event, no_fault}
use esp32_p4_bacnet_switches.Diagnostics.Events.{append_event}

-- A ring of sixteen slots.
pub record IsRing (s : PersistentState) : Type 0 where
  pub head_inside : s.event_head < 16
  pub count_inside : s.event_count ≤ 16
  pub all_events : length s.events ≡ 16

abbrev pub recorded : PersistentState → ClockStamp → ℕ → ℕ → FaultEvent
recorded s stamp type_code code = record {
  sequence = s.next_sequence;
  boot_count = s.boot_count;
  uptime_ms = stamp.uptime_ms;
  utc_unix_ms = stamp.unix_ms;
  type_code = as_u16 type_code;
  code = as_u16 code;
  clock_quality = stamp.quality % 256;
}

pub append_event-IsRing :
    (s : PersistentState) (stamp : ClockStamp) (type_code code : ℕ)
    → IsRing s
    → IsRing (append_event s stamp type_code code)
unfolding append_event
append_event-IsRing s stamp type_code code ring = record {
  head_inside = omega arith;
  count_inside = ground (arith, ring.count_inside);
  all_events =
      ground (
        arith,
        ring.all_events,
        length-set s.events s.event_head (recorded s stamp type_code code),
      );
}

-- The slots, with `count` events before and `next_count` after.
newest_slot :
    (head next_count : ℕ)
    → head < 16
    → 1 ≤ next_count
    → next_count ≤ 16
    → ((head + 1) % 16 + 16 - next_count + (next_count - 1)) % 16 ≡ head
newest_slot head next_count inside some_event few = omega arith

older_slot :
    (head count next_count index : ℕ)
    → head < 16
    → count ≤ 16
    → count ≤ next_count
    → next_count ≤ count + 1
    → next_count ≤ 16
    → index + 1 < next_count
    → let slot = ((head + 1) % 16 + 16 - next_count + index) % 16 in
      (head ≢ slot) × (slot ≡ (head + 16 - count + (index + (count + 1 - next_count))) % 16)
older_slot head count next_count index inside few grows by_one few' below =
    (omega arith, omega arith)

pub next_count_bounds :
    (s : PersistentState) (stamp : ClockStamp) (type_code code : ℕ)
    → s.event_count ≤ 16
    → let n = (append_event s stamp type_code code).event_count in
      (1 ≤ n) × (n ≤ 16) × (s.event_count ≤ n) × (n ≤ s.event_count + 1)
unfolding append_event
next_count_bounds s stamp type_code code few =
    (ground arith, ground arith, ground arith, ground arith)

-- After an event is recorded in a ring of 16 slots, the newest retained event is that event, and
-- the others are those that were retained, in order, the oldest left out if the ring was full.
pub retained_event-append_event :
    (s : PersistentState) (stamp : ClockStamp) (type_code code index : ℕ)
    → let t = append_event s stamp type_code code in
      IsRing s
      → (retained_event t (t.event_count - 1) ≡ recorded s stamp type_code code)
        × (index + 1 < t.event_count
            → retained_event t index
              ≡ retained_event s (index + (s.event_count + 1 - t.event_count)))
unfolding append_event
retained_event-append_event s stamp type_code code index ring =
    let e = recorded s stamp type_code code in
    let n = (append_event s stamp type_code code).event_count in
    let (some_event, few, grows, by_one) =
      next_count_bounds s stamp type_code code ring.count_inside in
    (
      rw (newest_slot s.event_head n ring.head_inside some_event few) (
          get_or-set_self s.events s.event_head e no_fault
            (omega (arith, ring.head_inside, ring.all_events))),
      λ inside.
          let (apart, same) =
            older_slot s.event_head s.event_count n index ring.head_inside ring.count_inside grows
              by_one few inside in
          get_or-set_ne s.events s.event_head (((s.event_head + 1) % 16 + 16 - n + index) % 16) e
            no_fault apart
          ∙ ap (λ slot. get_or s.events slot no_fault) same,
    )
