-- ===== src/Input.antt =====
-- main/input_debounce.c, main/clock_model.c and main/input_history.c: the filter of one switch input,
-- the time, and the events of the inputs with their times; and their use by main/switch_inputs.c.
pub mod Debounce
pub mod Clock
pub mod History
pub mod Poll
pub mod SelfTest
