-- ===== src/Input/Debounce/Hold.antt =====
-- When the stable level changes.
use esp32_p4_bacnet_switches.Base.{
  ℕ, ◌+◌, ◌*◌, ◌≤◌, ◌<◌, ◌≡◌, refl, ◌∙◌, Bool, true, false, ◌&&◌, List, [], ◌∷◌, ◌++◌, arith,
  if◌then◌else◌, same_bool, length, uint32_max,
}
use esp32_p4_bacnet_switches.Input.Debounce.{
  DebounceState, add_saturating, note_edge, sample_differs, candidate_age, input_debounce_sample,
}

-- The time that a level other than the stable one has lasted.
unfoldable pub lasted : DebounceState → Bool → ℕ
lasted s level =
    if s.candidate_active && same_bool s.candidate_level level then s.candidate_age_ms else 0

-- Samples of one level at these times.
unfoldable pub hold : DebounceState → Bool → ℕ → ℕ → List ℕ → DebounceState
hold s level period debounce [] = s
hold s level period debounce (t ∷ times) =
    hold (input_debounce_sample s level period debounce t).0 level period debounce times

module _ (level : Bool) (period debounce : ℕ) where
  -- A sample of the other level that comes too early only adds to its time.
  early_sample :
      (s : DebounceState) (t : ℕ)
      → s.initialized ≡ true
      → same_bool level s.stable ≡ false
      → lasted s level + period < debounce
      → debounce ≤ uint32_max
      → let after = (input_debounce_sample s level period debounce t).0 in
        (after.initialized ≡ true)
        × (after.stable ≡ s.stable)
        × (lasted after level ≡ lasted s level + period)
  unfolding input_debounce_sample note_edge sample_differs candidate_age add_saturating lasted
  early_sample s t live differs early small = (ground arith, ground arith, ground arith)

  -- The sample with which the other level has lasted long enough.
  last_sample :
      (s : DebounceState) (t : ℕ)
      → s.initialized ≡ true
      → same_bool level s.stable ≡ false
      → debounce ≤ lasted s level + period
      → debounce ≤ uint32_max
      → (input_debounce_sample s level period debounce t).0.stable ≡ level
  unfolding input_debounce_sample note_edge sample_differs candidate_age add_saturating lasted
  last_sample s t live differs late small = ground arith

  -- While the other level has not lasted long enough, the stable level stays.
  held :
      (s : DebounceState) (times : List ℕ)
      → s.initialized ≡ true
      → same_bool level s.stable ≡ false
      → lasted s level + length times * period < debounce
      → debounce ≤ uint32_max
      → let after = hold s level period debounce times in
        (after.initialized ≡ true)
        × (after.stable ≡ s.stable)
        × (lasted after level ≡ lasted s level + length times * period)
  unfolding hold
  held s [] live differs early small = (live, refl, omega arith)
  held s (t ∷ times) live differs early small =
      let (live', kept, longer) = early_sample s t live differs (omega (arith, early)) small in
      let next = (input_debounce_sample s level period debounce t).0 in
      let (live'', kept', longer') =
        held next times live' (rw kept differs) (omega (arith, early, longer)) small in
      (live'', kept' ∙ kept, omega (arith, longer, longer'))

  hold-append :
      (s : DebounceState) (times : List ℕ) (t : ℕ)
      → hold s level period debounce (times ++ (t ∷ []))
        ≡ (input_debounce_sample (hold s level period debounce times) level period debounce t).0
  unfolding hold
  hold-append s [] t = refl
  hold-append s (u ∷ times) t =
      hold-append (input_debounce_sample s level period debounce u).0 times t

  -- On an initialized debouncer, with a debounce time of 32 bits, a level that differs from the
  -- stable one is accepted with the first sample at which it has lasted for the debounce time, and
  -- the stable level stays until then.
  pub hold-accepts :
      (s : DebounceState) (times : List ℕ) (t : ℕ)
      → s.initialized ≡ true
      → same_bool level s.stable ≡ false
      → lasted s level + length times * period < debounce
      → debounce ≤ lasted s level + length times * period + period
      → debounce ≤ uint32_max
      → ((hold s level period debounce times).stable ≡ s.stable)
        × ((hold s level period debounce (times ++ (t ∷ []))).stable ≡ level)
  hold-accepts s times t live differs early late small =
      let (live', kept, longer) = held s times live differs early small in
      let after = hold s level period debounce times in
      (
        kept,
        rw (hold-append s times t)
            (last_sample after t live' (rw kept differs) (omega (arith, late, longer)) small),
      )
