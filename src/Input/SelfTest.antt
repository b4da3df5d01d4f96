-- ===== src/Input/SelfTest.antt =====
-- main/switch_inputs.c, lines 354-445: the test of the input lines with a pull-down and a pull-up. The
-- results of setting the pins and the levels that are read are arguments.
use esp32_p4_bacnet_switches.Base.{
  ℕ, ◌+◌, ◌≡◌, Bool, true, false, not, ◌||◌, ◌&&◌, List, [], ◌∷◌, leb, if◌then◌else◌, Option, none,
  some, arith,
}
use esp32_p4_bacnet_switches.Diagnostics.Line.{
  LineClass, unstable, input_line_classify, input_line_classification_valid,
}

-- `gpio_level_sample_t`
pub record LevelSample : Type 0 where
  pub stable : Bool
  pub level : Bool

abbrev pub high_samples : List Bool → ℕ
high_samples [] = 0
high_samples (true ∷ levels) = high_samples levels + 1
high_samples (false ∷ levels) = high_samples levels

-- The levels are the eight that the loop reads.
unfoldable pub sample_gpio_level : List Bool → LevelSample
sample_gpio_level levels = record {
  stable = leb (high_samples levels) 2 || leb 6 (high_samples levels);
  level = leb 6 (high_samples levels);
}

-- What happens on one line: the setting of the direction and of the three pull modes, each a success
-- or not, and the levels read with the pull-down and with the pull-up.
pub record LineTrial : Type 0 where
  pub direction_ok : Bool
  pub pull_down_ok : Bool
  pub pull_up_ok : Bool
  pub restore_ok : Bool
  pub pulled_down : List Bool
  pub pulled_up : List Bool

abbrev no_sample : LevelSample
no_sample = record { stable = false; level = false }

-- What is stored for a line.
pub record LineReport : Type 0 where
  pub pull_down : LevelSample
  pub pull_up : LevelSample
  pub classification : LineClass
  pub passed : Bool

-- The body of the loop of `switch_inputs_run_self_test`.
unfoldable pub test_line : LineTrial → LineReport
test_line trial =
    let down_set = trial.direction_ok && trial.pull_down_ok in
    let up_set = down_set && trial.pull_up_ok in
    let pull_down = if down_set then sample_gpio_level trial.pulled_down else no_sample in
    let pull_up = if up_set then sample_gpio_level trial.pulled_up else no_sample in
    let classification =
      if up_set && trial.restore_ok
      then input_line_classify pull_down.stable pull_down.level pull_up.stable pull_up.level
      else unstable in
    record {
      pull_down = pull_down;
      pull_up = pull_up;
      classification = classification;
      passed = input_line_classification_valid classification;
    }

-- A line passes the self-test exactly if its direction and all three pull modes could be set, both
-- readings were clear, and it was not high against the pull-down and low against the pull-up.
pub test_line-passed :
    (trial : LineTrial)
    → let down = sample_gpio_level trial.pulled_down in
      let up = sample_gpio_level trial.pulled_up in
      (test_line trial).passed ≡ (
        trial.direction_ok
        && trial.pull_down_ok
        && trial.pull_up_ok
        && trial.restore_ok
        && down.stable
        && up.stable
        && not (down.level && not up.level))
unfolding test_line input_line_classify input_line_classification_valid sample_gpio_level
test_line-passed trial = ground arith

-- The bits of the lines that failed, as flags.
unfoldable pub fault_bits : List LineTrial → List Bool
fault_bits [] = []
fault_bits (trial ∷ trials) = not (test_line trial).passed ∷ fault_bits trials

abbrev reports : List LineTrial → List LineReport
reports [] = []
reports (trial ∷ trials) = test_line trial ∷ reports trials

-- The reports and the new faults, or the refusal while a test is running.
unfoldable pub switch_inputs_run_self_test :
    Bool → List LineTrial → Option (List LineReport × List Bool)
switch_inputs_run_self_test self_test_active trials =
    if self_test_active then none else some (reports trials, fault_bits trials)
