-- ===== src/Network/Model.antt =====
-- main/network_config_model.h and main/network_config_model.c: the network configuration, its check,
-- and its integrity. The texts of the reasons are left out: no decision reads them. `crc` stands for
-- the SDK's `esp_crc32_le` from 0 on.
pub mod Netmask
pub mod Laws
use esp32_p4_bacnet_switches.Base.{
  ℕ, zero, suc, ◌+◌, ◌-◌, ◌*◌, ◌/◌, ◌%◌, ◌^◌, bit_and, bit_or, Bool, true, false, not, ◌||◌, ◌&&◌,
  List, [], ◌∷◌, ◌++◌, ltb, leb, ◌==◌, if◌then◌else◌, length, get_or, replicate, c_string,
  has_terminator, le_bytes, same_bytes, all_of, uint32_max, as_u32,
}

abbrev pub network_config_magic : ℕ
network_config_magic = 0x50344E43

abbrev pub network_config_schema : ℕ
network_config_schema = 1

abbrev pub hostname_length : ℕ
hostname_length = 64

-- `sizeof(network_config_t)`
abbrev pub network_config_size : ℕ
network_config_size = 100

abbrev pub address_dhcp : ℕ
address_dhcp = 0

abbrev pub address_static : ℕ
address_static = 1

-- `network_config_t`; the arrays are lists of bytes.
pub record NetworkConfig : Type 0 where
  pub magic : ℕ
  pub schema : ℕ
  pub size : ℕ
  pub revision : ℕ
  pub mode : ℕ
  pub reserved : List ℕ
  pub hostname : List ℕ
  pub ipv4 : List ℕ
  pub netmask : List ℕ
  pub gateway : List ℕ
  pub dns : List ℕ
  pub crc32 : ℕ

unfoldable pub ascii_alphanumeric : ℕ → Bool
ascii_alphanumeric c = (leb 97 c && leb c 122) || (leb 65 c && leb c 90) || (leb 48 c && leb c 57)

unfoldable pub hostname_valid : List ℕ → Bool
unfolding ascii_alphanumeric
hostname_valid hostname =
    let name = c_string hostname in
    let len = length name in
    has_terminator hostname
    && not (len == 0)
    && leb len 63
    && ascii_alphanumeric (get_or name 0 0)
    && ascii_alphanumeric (get_or name (len - 1) 0)
    && all_of (λ c. ascii_alphanumeric c || c == 45) name

unfoldable pub ipv4_value : List ℕ → ℕ
ipv4_value address =
    bit_or
      (bit_or (bit_or (get_or address 0 0 * 2 ^ 24) (get_or address 1 0 * 2 ^ 16))
        (get_or address 2 0 * 2 ^ 8))
      (get_or address 3 0)

unfoldable pub address_is_zero : List ℕ → Bool
unfolding ipv4_value
address_is_zero address = ipv4_value address == 0

unfoldable pub unicast_address : ℕ → Bool
unicast_address address =
    let first = address / 2 ^ 24 % 256 in
    not (address == 0)
    && not (address == uint32_max)
    && not (first == 0)
    && not (first == 127)
    && ltb first 224

-- The test of the mask: not 0, with at least two host bits, which are the lowest.
unfoldable pub netmask_valid : ℕ → Bool
netmask_valid netmask =
    let inverse_mask = uint32_max - netmask in
    not (netmask == 0)
    && not (ltb inverse_mask 3)
    && (bit_and inverse_mask (as_u32 (inverse_mask + 1)) == 0)

-- Neither address is the network or its broadcast, and both are of one network.
unfoldable pub gateway_valid : ℕ → ℕ → ℕ → Bool
gateway_valid address netmask gateway =
    let network = bit_and address netmask in
    let broadcast = bit_or network (uint32_max - netmask) in
    not (address == network)
    && not (address == broadcast)
    && (bit_and gateway netmask == network)
    && not (gateway == network)
    && not (gateway == broadcast)
    && not (gateway == address)

unfoldable pub static_addresses_valid : NetworkConfig → Bool
unfolding unicast_address netmask_valid gateway_valid
static_addresses_valid config =
    let address = ipv4_value config.ipv4 in
    let netmask = ipv4_value config.netmask in
    let gateway = ipv4_value config.gateway in
    let dns = ipv4_value config.dns in
    unicast_address address
    && unicast_address gateway
    && netmask_valid netmask
    && gateway_valid address netmask gateway
    && (dns == 0 || unicast_address dns)

unfoldable pub network_config_validate : NetworkConfig → Bool
unfolding hostname_valid address_is_zero static_addresses_valid
network_config_validate config =
    if not (hostname_valid config.hostname)
    then false
    else if config.mode == address_dhcp
    then address_is_zero config.ipv4
      && address_is_zero config.netmask
      && address_is_zero config.gateway
      && address_is_zero config.dns
    else if config.mode == address_static
    then static_addresses_valid config
    else false

-- The bytes of the structure before its field `crc32`.
unfoldable pub covered_bytes : NetworkConfig → List ℕ
covered_bytes c =
    le_bytes 4 c.magic
    ++ (le_bytes 2 c.schema
        ++ (le_bytes 2 c.size
            ++ (le_bytes 4 c.revision
                ++ (le_bytes 1 c.mode
                    ++ (c.reserved
                        ++ (c.hostname ++ (c.ipv4 ++ (c.netmask ++ (c.gateway ++ c.dns)))))))))

module _ (crc : List ℕ → ℕ) where
  unfoldable pub network_config_crc32 : NetworkConfig → ℕ
  unfolding covered_bytes
  network_config_crc32 config = crc (covered_bytes config)

  unfoldable pub network_config_finalize : NetworkConfig → NetworkConfig
  unfolding network_config_crc32
  network_config_finalize config =
      let stamped = record config {
        magic = network_config_magic;
        schema = network_config_schema;
        size = network_config_size;
        reserved = 0 ∷ 0 ∷ 0 ∷ [];
      } in
      record stamped { crc32 = network_config_crc32 stamped }

  unfoldable pub network_config_is_valid_blob : NetworkConfig → Bool
  unfolding network_config_crc32
  network_config_is_valid_blob config =
      config.magic == network_config_magic
      && (config.schema == network_config_schema)
      && (config.size == network_config_size)
      && (config.crc32 == network_config_crc32 config)
      && network_config_validate config

unfoldable pub network_config_mutable_equal : NetworkConfig → NetworkConfig → Bool
network_config_mutable_equal left right =
    left.mode == right.mode
    && same_bytes (c_string left.hostname) (c_string right.hostname)
    && same_bytes left.ipv4 right.ipv4
    && same_bytes left.netmask right.netmask
    && same_bytes left.gateway right.gateway
    && same_bytes left.dns right.dns
