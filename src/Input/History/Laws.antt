-- ===== src/Input/History/Laws.antt =====
-- The ring as the list of the latest events, and the stamps that the clock gives it.
use esp32_p4_bacnet_switches.Base.{
  ℕ, ◌+◌, ◌-◌, ◌%◌, ◌<◌, ◌≡◌, refl, Bool, false, some, arith, length, length-set, get_or-set_self,
  get_or-set_ne, ltb, ◌==◌, if◌then◌else◌,
}
use esp32_p4_bacnet_switches.Input.Clock.{ClockModel, ClockStamp, clock_model_stamp}
use esp32_p4_bacnet_switches.Input.History.{
  History, no_event, empty_history, history_capacity, is_bad_stamp, new_event, input_history_record,
  input_history_get,
}

-- Head, count and total belong together.
pub record IsRing (h : History) : Type 0 where
  pub events : length h.events ≡ history_capacity
  pub head : h.head ≡ h.total_events % history_capacity
  pub count :
      h.count ≡ (if ltb h.total_events history_capacity then h.total_events else history_capacity)

pub empty_history-IsRing : IsRing empty_history
empty_history-IsRing = record { events = refl; head = refl; count = refl }

module _ (h : History) (gpio kind : ℕ) (active : Bool) (width : ℕ) (stamp : ClockStamp) where
  -- Recording an event in a ring whose events are 64 and whose head and count follow from the total
  -- keeps these so.
  pub input_history_record-IsRing :
      {h' : History}
      → input_history_record h gpio kind active width stamp ≡ some h'
      → IsRing h
      → IsRing h'
  unfolding input_history_record
  input_history_record-IsRing {h'} e v = record {
    events =
        ground
          (arith, length-set h.events h.head (new_event h gpio kind active width stamp), v.events);
    head = ground (arith, v.head);
    count = ground (arith, v.count);
  }

  -- After an event is recorded in a ring whose head, count and total belong together, the newest
  -- entry is that event, and the others are the entries that were there, the oldest left out if the
  -- ring was full.
  pub input_history_get-record :
      {h' : History} (i : ℕ)
      → input_history_record h gpio kind active width stamp ≡ some h'
      → IsRing h
      → i < h'.count
      → input_history_get h' i ≡ (
          if i + 1 == h'.count
          then some (new_event h gpio kind active width stamp)
          else input_history_get h (if h.count == history_capacity then i + 1 else i))
  unfolding input_history_record input_history_get
  input_history_get-record {h'} i e v below =
      let new = new_event h gpio kind active width stamp in
      let at =
        (((h.head + 1) % 64 + 64 - (if ltb h.count 64 then h.count + 1 else h.count)) % 64 + i)
        % 64 in
      ground (
        arith,
        get_or-set_self h.events h.head new no_event,
        get_or-set_ne h.events h.head at new no_event,
        v.events,
        v.head,
        v.count,
      )

-- Every stamp that the clock gives, at any uptime, is one that the history takes.
pub is_bad_stamp-clock_model_stamp :
    (clock : ClockModel) (uptime : ℕ) → is_bad_stamp (clock_model_stamp clock uptime) ≡ false
unfolding is_bad_stamp clock_model_stamp
is_bad_stamp-clock_model_stamp clock uptime = ground arith
