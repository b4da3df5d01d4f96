-- ===== src/Diagnostics/Line.antt =====
-- main/input_line_classifier.h and main/input_line_classifier.c: what is on an input line, from its
-- levels with a pull-down and with a pull-up. The names of the classes are left out.
use esp32_p4_bacnet_switches.Base.{Bool, true, false, not, ◌||◌, ◌&&◌, if◌then◌else◌}

pub data LineClass : Type 0 where
  not_tested floating_open externally_low externally_high unstable : LineClass

unfoldable pub input_line_classify : Bool → Bool → Bool → Bool → LineClass
input_line_classify pull_down_sample_stable pull_down_level pull_up_sample_stable pull_up_level =
    if not pull_down_sample_stable || not pull_up_sample_stable
    then unstable
    else if not pull_down_level && pull_up_level
    then floating_open
    else if not pull_down_level && not pull_up_level
    then externally_low
    else if pull_down_level && pull_up_level
    then externally_high
    else unstable

unfoldable pub input_line_classification_valid : LineClass → Bool
input_line_classification_valid floating_open = true
input_line_classification_valid externally_low = true
input_line_classification_valid externally_high = true
input_line_classification_valid not_tested = false
input_line_classification_valid unstable = false
