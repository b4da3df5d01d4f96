-- ===== src/Settings.antt =====
-- main/config_model.c and main/config_store.c: the BACnet configuration of the device and its storage.
pub mod Model
pub mod Store
