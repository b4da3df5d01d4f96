-- ===== src/Diagnostics/Log/Reconcile.antt =====
-- The log after the firmware was rolled back and forth: the newer of the two logs, with its stamps.
use esp32_p4_bacnet_switches.Base.{
  ◌<◌, ◌≡◌, refl, true, false, List, [], ◌∷◌, map, arith, All, Bool-cases, inl, inr, ◌⊎◌, ◌↔◌,
}
use esp32_p4_bacnet_switches.Diagnostics.Log.{
  FaultEvent, PersistentState, event_to_v2, diagnostics_log_to_v2, is_bad_event, take_stamp,
  take_stamps, is_newer, diagnostics_log_reconcile,
}

take_stamp-event :
    (event : FaultEvent) (olds : List FaultEvent)
    → event_to_v2 (take_stamp event olds) ≡ event_to_v2 event
unfolding take_stamp
take_stamp-event event [] = refl
take_stamp-event event (old ∷ olds) = ground (arith, take_stamp-event event olds)

take_stamps-events :
    (events olds : List FaultEvent)
    → map event_to_v2 (take_stamps events olds) ≡ map event_to_v2 events
take_stamps-events [] olds = refl
take_stamps-events (event ∷ events) olds =
    rw (take_stamp-event event olds, take_stamps-events events olds) refl

take_stamp-stamped :
    (event : FaultEvent) (olds : List FaultEvent)
    → is_bad_event event ≡ false
    → All (λ old. is_bad_event old ≡ false) olds
    → is_bad_event (take_stamp event olds) ≡ false
unfolding take_stamp is_bad_event
take_stamp-stamped event [] good all = good
take_stamp-stamped event (old ∷ olds) good (first, rest) =
    ground (arith, take_stamp-stamped event olds good rest)

take_stamps-stamped :
    (events olds : List FaultEvent)
    → All (λ event. is_bad_event event ≡ false) events
    → All (λ old. is_bad_event old ≡ false) olds
    → All (λ event. is_bad_event event ≡ false) (take_stamps events olds)
take_stamps-stamped [] olds good all = tt
take_stamps-stamped (event ∷ events) olds (first, rest) all =
    (take_stamp-stamped event olds first all, take_stamps-stamped events olds rest all)

-- All events have a stamp that the clock can give.
abbrev pub IsStamped : PersistentState → Type 0
IsStamped s = All (λ event. is_bad_event event ≡ false) s.events

pub reconcile-IsStamped :
    (s legacy : PersistentState)
    → IsStamped s
    → IsStamped legacy
    → IsStamped (diagnostics_log_reconcile s legacy)
unfolding diagnostics_log_reconcile
reconcile-IsStamped s legacy stamped stamped' = elim (Bool-cases (is_newer legacy s)) [
  | inl newer ↦ rw newer (take_stamps-stamped legacy.events s.events stamped' stamped)
  | inr older ↦ rw older stamped
]

-- The order of logs: by the boots, then by the events.
abbrev pub IsBefore : PersistentState → PersistentState → Type 0
IsBefore s t =
    (s.boot_count < t.boot_count)
    ⊎ ((s.boot_count ≡ t.boot_count) × (s.next_sequence < t.next_sequence))

is_newer-IsBefore : (legacy s : PersistentState) → (is_newer legacy s ≡ true) ↔ IsBefore s legacy
unfolding is_newer
is_newer-IsBefore legacy s = (λ h. ground arith, λ before. ground arith)

-- If the legacy log is later by its boots or, with equal boots, by its next sequence, the
-- reconciled log equals it in all that the legacy layout holds; otherwise the log stays as it was.
pub reconcile-newer :
    (s legacy : PersistentState)
    → let r = diagnostics_log_reconcile s legacy in
      (IsBefore s legacy → diagnostics_log_to_v2 r ≡ diagnostics_log_to_v2 legacy)
      × (¬ IsBefore s legacy → r ≡ s)
unfolding diagnostics_log_reconcile diagnostics_log_to_v2
reconcile-newer s legacy =
    let order = is_newer-IsBefore legacy s in
    (
      λ before. rw (order.1 before) (rw (take_stamps-events legacy.events s.events) refl),
      λ not_before. elim (Bool-cases (is_newer legacy s)) [
        | inl newer ↦ absurd (not_before (order.0 newer))
        | inr older ↦ rw older refl
      ],
    )
