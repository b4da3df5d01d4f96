-- ===== src/Ota.antt =====
-- main/ota_auth.c and main/ota_health.c: who may update the firmware, and when an update is kept.
pub mod Auth
pub mod Health
