-- ===== src/Tests/Diagnostics.antt =====
-- The log of events at concrete inputs.
use esp32_p4_bacnet_switches.Base.{
  ℕ, ◌+◌, ◌-◌, ◌<◌, ◌≡◌, refl, List, [], ◌∷◌, ◌++◌, le_bytes, replicate, arith, min,
}
use esp32_p4_bacnet_switches.Input.Clock.{ClockStamp}
use esp32_p4_bacnet_switches.Diagnostics.Log.{
  PersistentState, read_state, event_v1, is_bad_header, diagnostics_log_decode, retained_event,
  diagnostics_log_reconcile, diagnostics_log_to_v2,
}
use esp32_p4_bacnet_switches.Diagnostics.Log.Decode.{IsLog, diagnostics_log_decode-IsLog}
use esp32_p4_bacnet_switches.Diagnostics.Log.Reconcile.{IsBefore, reconcile-newer}
use esp32_p4_bacnet_switches.Diagnostics.Events.{empty_log, append_event}
use esp32_p4_bacnet_switches.Diagnostics.Events.Ring.{IsRing, recorded, retained_event-append_event}
use esp32_p4_bacnet_switches.Diagnostics.Time.{
  append_events, fault_log_metrics, fault_log_metrics-append_events,
}

-- A log of the first layout, with one event in the first slot.
abbrev old_log : List ℕ
old_log =
    le_bytes 4 0x44494147
    ++ (le_bytes 4 1
        ++ (le_bytes 4 7
            ++ (le_bytes 4 2
                ++ (le_bytes 4 1
                    ++ (le_bytes 4 1
                        ++ (le_bytes 4 0
                            ++ (le_bytes 4 1
                                ++ (le_bytes 4 7
                                    ++ (le_bytes 4 1500
                                        ++ (le_bytes 2 1
                                            ++ (le_bytes 2 3 ++ replicate 240 0)))))))))))

diagnostics_log_decode-IsLog_example : IsLog (read_state old_log (event_v1 old_log))
unfolding diagnostics_log_decode is_bad_header
diagnostics_log_decode-IsLog_example = diagnostics_log_decode-IsLog old_log refl

abbrev later_log : PersistentState
later_log = record empty_log { boot_count = 1 }

reconcile-newer_example :
    let r = diagnostics_log_reconcile empty_log later_log in
    (IsBefore empty_log later_log → diagnostics_log_to_v2 r ≡ diagnostics_log_to_v2 later_log)
    × (¬ IsBefore empty_log later_log → r ≡ empty_log)
reconcile-newer_example = reconcile-newer empty_log later_log

abbrev stamp : ClockStamp
stamp = record { uptime_ms = 1500; unix_ms = 0; quality = 0 }

abbrev one_event : PersistentState
one_event = append_event empty_log stamp 1 3

one_event-IsRing : IsRing one_event
unfolding append_event
one_event-IsRing = record {
  head_inside = omega arith;
  count_inside = omega arith;
  all_events = refl;
}

retained_event-append_event_example :
    let t = append_event one_event stamp 4 0 in
    (retained_event t (t.event_count - 1) ≡ recorded one_event stamp 4 0)
    × (0 + 1 < t.event_count
        → retained_event t 0
          ≡ retained_event one_event (0 + (one_event.event_count + 1 - t.event_count)))
retained_event-append_event_example =
    retained_event-append_event one_event stamp 4 0 0 one_event-IsRing

abbrev three_events : List (ClockStamp × ℕ × ℕ)
three_events = (stamp, 1, 3) ∷ (stamp, 4, 0) ∷ (stamp, 2, 1) ∷ []

fault_log_metrics-append_events_example :
    let s = append_events empty_log three_events in
    let m = fault_log_metrics s.next_sequence s.event_count in
    (s.event_count ≡ min 3 16)
    × (m.total_event_count ≡ 3)
    × (m.overwritten_event_count + s.event_count ≡ 3)
fault_log_metrics-append_events_example = fault_log_metrics-append_events three_events (omega arith)
