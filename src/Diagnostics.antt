-- ===== src/Diagnostics.antt =====
-- The diagnostics of main/: the stored log of faults (diagnostics_log_model.c), the recording of events
-- (diagnostics.c), ages and heartbeats (diagnostics_time.c), the counts of the log
-- (diagnostics_metrics.c), and the test of an input line (input_line_classifier.c).
pub mod Log
pub mod Events
pub mod Time
pub mod Line
pub mod Network
