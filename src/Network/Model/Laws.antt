-- ===== src/Network/Model/Laws.antt =====
-- Configurations with their integrity fields, and the equality of what an operator sets.
use esp32_p4_bacnet_switches.Base.{c_string, ℕ, ◌≡◌, refl, true, List, arith, same_bytes_refl}
use esp32_p4_bacnet_switches.Network.Model.{
  NetworkConfig, network_config_finalize, network_config_is_valid_blob, network_config_validate,
  network_config_mutable_equal,
}

-- A configuration that passes the check is, when finalized, a valid blob, whatever its header was.
pub is_valid_blob-finalize :
    (crc : List ℕ → ℕ) (c : NetworkConfig)
    → network_config_is_valid_blob crc (network_config_finalize crc c) ≡ network_config_validate c
unfolding network_config_is_valid_blob network_config_finalize network_config_validate
is_valid_blob-finalize crc c = ground arith

pub is_valid_blob-validate :
    (crc : List ℕ → ℕ) (c : NetworkConfig)
    → network_config_is_valid_blob crc c ≡ true
    → network_config_validate c ≡ true
unfolding network_config_is_valid_blob
is_valid_blob-validate crc c h = ground arith

pub mutable_equal_refl : (c : NetworkConfig) → network_config_mutable_equal c c ≡ true
unfolding network_config_mutable_equal
mutable_equal_refl c = ground (
  arith,
  same_bytes_refl (c_string c.hostname),
  same_bytes_refl c.ipv4,
  same_bytes_refl c.netmask,
  same_bytes_refl c.gateway,
  same_bytes_refl c.dns,
)

-- The integrity fields and the revision are no part of what an operator sets.
pub mutable_equal-finalize :
    (crc : List ℕ → ℕ) (c d : NetworkConfig)
    → network_config_mutable_equal (network_config_finalize crc c) d
      ≡ network_config_mutable_equal c d
unfolding network_config_mutable_equal network_config_finalize
mutable_equal-finalize crc c d = refl
