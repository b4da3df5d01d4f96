-- ===== src/Input/Poll/Served.antt =====
-- The bit that is served for an input is the stable level of its debouncer.
use esp32_p4_bacnet_switches.Base.{
  ℕ, zero, suc, ◌<◌, ◌≤◌, ◌≡◌, ◌≢◌, refl, sym, ap, ◌∙◌, Bool, true, false, List, [], ◌∷◌, length,
  get_or, set, get_or-set_self, get_or-set_ne, length-set, arith, Bool-cases, inl, inr, ◌==◌,
  ==_iff, if◌then◌else◌,
}
use esp32_p4_bacnet_switches.Input.Clock.{ClockStamp}
use esp32_p4_bacnet_switches.Input.Debounce.{
  DebounceState, DebounceResult, initial_debounce, input_debounce_sample, note_edge, sample_agrees,
  sample_differs, record_rejected_pulse, note_rejection,
}
use esp32_p4_bacnet_switches.Input.Poll.{
  Inputs, Wiring, no_state, poll_input, poll_inputs, poll_turn, start_input, start_inputs,
  switch_input_get, read_input_bits,
}

-- The new stable level, by what the result says.
abbrev Follows : DebounceState → DebounceState × DebounceResult → Type 0
Follows s (t, r) =
    (t.initialized ≡ s.initialized)
    × (t.stable ≡ (if r.accepted_transition then r.level else s.stable))

record_rejected_pulse-keeps :
    (s : DebounceState) (uptime : ℕ) (r : DebounceResult)
    → let p = record_rejected_pulse s uptime r in
      (p.0.initialized ≡ s.initialized)
      × (p.0.stable ≡ s.stable)
      × (p.1.accepted_transition ≡ r.accepted_transition)
unfolding record_rejected_pulse note_rejection
record_rejected_pulse-keeps s uptime r = (ground arith, ground arith, ground arith)

note_edge-keeps :
    (s : DebounceState) (level : Bool) (uptime : ℕ)
    → let p = note_edge s level uptime in
      (p.0.initialized ≡ s.initialized)
      × (p.0.stable ≡ s.stable)
      × (p.1.accepted_transition ≡ false)
unfolding note_edge
note_edge-keeps s level uptime = (ground arith, ground arith, ground arith)

sample_agrees-Follows :
    (s : DebounceState) (r : DebounceResult) (uptime : ℕ)
    → r.accepted_transition ≡ false
    → Follows s (sample_agrees s r uptime)
unfolding sample_agrees
sample_agrees-Follows s r uptime new =
    let keeps = record_rejected_pulse-keeps s uptime r in
    (ground (arith, keeps), ground (arith, keeps))

sample_differs-Follows :
    (s : DebounceState) (r : DebounceResult) (level : Bool) (period debounce uptime : ℕ)
    → r.accepted_transition ≡ false
    → Follows s (sample_differs s r level period debounce uptime)
unfolding sample_differs
sample_differs-Follows s r level period debounce uptime new = (ground arith, ground arith)

sample-Follows :
    (s : DebounceState) (level : Bool) (period debounce uptime : ℕ)
    → s.initialized ≡ true
    → Follows s (input_debounce_sample s level period debounce uptime)
unfolding input_debounce_sample
sample-Follows s level period debounce uptime ready =
    let e = note_edge s level uptime in
    let keeps = note_edge-keeps s level uptime in
    let agrees = sample_agrees-Follows e.0 e.1 uptime keeps.2 in
    let differs = sample_differs-Follows e.0 e.1 level period debounce uptime keeps.2 in
    (ground (arith, keeps, agrees, differs), ground (arith, keeps, agrees, differs))

-- The first `count` inputs are sampled, and what is served for them is what their debouncers hold.
pub record IsServed (count : ℕ) (inputs : Inputs) : Type 0 where
  pub three_states : length inputs.states ≡ 3
  pub three_bits : length inputs.stable_bits ≡ 3
  pub ready : (i : ℕ) → i < count → (get_or inputs.states i no_state).initialized ≡ true
  pub served :
      (i : ℕ) → i < count → switch_input_get inputs i ≡ (get_or inputs.states i no_state).stable

ne_of : {i j : ℕ} → (i == j) ≡ false → i ≢ j
ne_of {i} {j} test e = ground arith

-- One entry of each list changed, in step.
changed-IsServed :
    (count : ℕ) (inputs : Inputs) (changed : Inputs) (index : ℕ) (state : DebounceState)
    (bits : Bool)
    → length inputs.states ≡ 3
    → length inputs.stable_bits ≡ 3
    → index < 3
    → changed.states ≡ set inputs.states index state
    → changed.stable_bits ≡ set inputs.stable_bits index bits
    → state.initialized ≡ true
    → state.stable ≡ bits
    → ((i : ℕ)
        → i < count
        → i ≢ index
        → ((get_or inputs.states i no_state).initialized ≡ true)
          × (switch_input_get inputs i ≡ (get_or inputs.states i no_state).stable))
    → IsServed count changed
unfolding switch_input_get
changed-IsServed count inputs changed index state bits len_states len_bits inside e_states e_bits
      ready same others =
    record {
      three_states = ap length e_states ∙ length-set inputs.states index state ∙ len_states;
      three_bits = ap length e_bits ∙ length-set inputs.stable_bits index bits ∙ len_bits;
      ready = λ i below. rw e_states (elim (Bool-cases (i == index)) [
        | inl here ↦
            let e : i ≡ index = (==_iff i index).0 here in
            rw e (
              ap (λ s. s.initialized)
                (get_or-set_self inputs.states index state no_state (omega (arith, len_states)))
              ∙ ready)
        | inr there ↦
            let apart : index ≢ i = λ e. ne_of there (sym e) in
            ap (λ s. s.initialized) (get_or-set_ne inputs.states index i state no_state apart)
            ∙ (others i below (λ e. ne_of there e)).0
      ]);
      served = λ i below.
          rw (e_states, e_bits)
            (elim (Bool-cases (i == index)) [
              | inl here ↦
                  let e : i ≡ index = (==_iff i index).0 here in
                  rw e (
                    get_or-set_self inputs.stable_bits index bits false (omega (arith, len_bits))
                    ∙ sym same
                    ∙ sym (
                        ap (λ s. s.stable)
                          (get_or-set_self inputs.states index state no_state
                            (omega (arith, len_states)))))
              | inr there ↦
                  let apart : index ≢ i = λ e. ne_of there (sym e) in
                  get_or-set_ne inputs.stable_bits index i bits false apart
                  ∙ (others i below (λ e. ne_of there e)).1
                  ∙ sym (
                      ap (λ s. s.stable) (get_or-set_ne inputs.states index i state no_state apart))
            ]);
    }

-- A write of what is there changes nothing.
set-get_or : (bits : List Bool) (i : ℕ) → set bits i (get_or bits i false) ≡ bits
set-get_or [] i = refl
set-get_or (b ∷ bs) zero = refl
set-get_or (b ∷ bs) (suc i) = ap (λ rest. b ∷ rest) (set-get_or bs i)

module _ (wiring : Wiring) (uptime_ms : ℕ) (stamp : ClockStamp) where
  poll_input-IsServed :
      (inputs : Inputs) (index : ℕ) (sampled : Bool)
      → index < 3
      → IsServed 3 inputs
      → IsServed 3 (poll_input wiring inputs index sampled uptime_ms stamp)
  unfolding poll_input switch_input_get
  poll_input-IsServed inputs index sampled inside v =
      let s = get_or inputs.states index no_state in
      let p = input_debounce_sample s sampled 10 wiring.debounce_ms uptime_ms in
      let old = get_or inputs.stable_bits index false in
      let follows =
        sample-Follows s sampled 10 wiring.debounce_ms uptime_ms (v.ready index inside) in
      changed-IsServed 3 inputs (poll_input wiring inputs index sampled uptime_ms stamp) index p.0
        (if p.1.accepted_transition then p.1.level else old) v.three_states v.three_bits inside refl
        (elim (Bool-cases p.1.accepted_transition) [
          | inl accepted ↦ rw accepted refl
          | inr kept ↦ rw kept (sym (set-get_or inputs.stable_bits index))
        ])
        (follows.0 ∙ v.ready index inside)
        (follows.1
          ∙ ap (λ (b : Bool). if p.1.accepted_transition then p.1.level else b)
              (sym (v.served index inside)))
        (λ i below apart. (v.ready i below, v.served i below))

  poll_inputs-IsServed :
      (inputs : Inputs) (sampled : List Bool) (count : ℕ)
      → count ≤ 3
      → IsServed 3 inputs
      → IsServed 3 (poll_inputs wiring inputs sampled uptime_ms stamp count)
  unfolding poll_inputs
  poll_inputs-IsServed inputs sampled zero few v = v
  poll_inputs-IsServed inputs sampled (suc index) few v =
      poll_input-IsServed (poll_inputs wiring inputs sampled uptime_ms stamp index) index
        (get_or sampled index false) (omega arith)
        (poll_inputs-IsServed inputs sampled index (omega arith) v)

  poll_turn-IsServed :
      (inputs : Inputs) (self_test_active : Bool) (raws : List Bool)
      → IsServed 3 inputs
      → IsServed 3 (poll_turn wiring inputs self_test_active raws uptime_ms stamp)
  unfolding poll_turn
  poll_turn-IsServed inputs true raws v = v
  poll_turn-IsServed inputs false raws v =
      poll_inputs-IsServed inputs (read_input_bits raws wiring.active_low) 3 (omega arith) v

start_inputs-IsServed :
    (wiring : Wiring) (inputs : Inputs) (initial : List Bool) (stamp_at : ℕ → ClockStamp)
    (count : ℕ)
    → count ≤ 3
    → length inputs.states ≡ 3
    → length inputs.stable_bits ≡ 3
    → IsServed count (start_inputs wiring inputs initial stamp_at count)
unfolding start_inputs start_input
start_inputs-IsServed wiring inputs initial stamp_at zero few states bits = record {
  three_states = states;
  three_bits = bits;
  ready = λ i below. absurd (omega arith);
  served = λ i below. absurd (omega arith);
}
start_inputs-IsServed wiring inputs initial stamp_at (suc index) few states bits =
    let before = start_inputs wiring inputs initial stamp_at index in
    let v = start_inputs-IsServed wiring inputs initial stamp_at index (omega arith) states bits in
    let level = get_or initial index false in
    changed-IsServed (suc index) before (start_input wiring before index level (stamp_at index))
      index (initial_debounce level (stamp_at index).uptime_ms) level v.three_states v.three_bits
      (omega arith) refl refl refl refl
      (λ i below apart.
        let earlier : i < index = ground (arith, apart) in (v.ready i earlier, v.served i earlier))

-- The states of the task from its first loop on.
pub data Running (wiring : Wiring) : Inputs → Type 0 where
  begun :
      (inputs : Inputs) (initial : List Bool) (stamp_at : ℕ → ClockStamp)
      → length inputs.states ≡ 3
      → length inputs.stable_bits ≡ 3
      → Running wiring (start_inputs wiring inputs initial stamp_at 3)
  turned :
      {inputs : Inputs}
      → Running wiring inputs
      → (self_test_active : Bool) (raws : List Bool) (uptime_ms : ℕ) (stamp : ClockStamp)
      → Running wiring (poll_turn wiring inputs self_test_active raws uptime_ms stamp)

-- From the first loop of the sampling task on, after any turns, with any levels, times and self-
-- tests, the bit that is served for each of the three inputs is the stable level of its debouncer,
-- which is initialized.
pub Running-IsServed :
    (wiring : Wiring) {inputs : Inputs} → Running wiring inputs → IsServed 3 inputs
Running-IsServed wiring (begun inputs initial stamp_at states bits) =
    start_inputs-IsServed wiring inputs initial stamp_at 3 (omega arith) states bits
Running-IsServed wiring (turned {inputs} run self_test_active raws uptime_ms stamp) =
    poll_turn-IsServed wiring uptime_ms stamp inputs self_test_active raws
      (Running-IsServed wiring run)
