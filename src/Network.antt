-- ===== src/Network.antt =====
-- main/network_config_model.c and main/network_config_store.c: the network configuration, and the
-- trial of a new one.
pub mod Model
pub mod Store
