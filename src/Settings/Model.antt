-- ===== src/Settings/Model.antt =====
-- main/config_model.h and main/config_model.c: the BACnet configuration, its check, and its integrity.
-- The texts of the reasons are left out: no decision reads them. `crc` stands for the SDK's
-- `esp_crc32_le` from 0 on.
pub mod Names
pub mod Laws
use esp32_p4_bacnet_switches.Base.{
  ℕ, zero, suc, ◌+◌, ◌-◌, ◌%◌, Bool, true, false, not, ◌||◌, ◌&&◌, List, [], ◌∷◌, ◌++◌, ltb, leb,
  ◌==◌, if◌then◌else◌, get_or, same_bytes, all_of, any_of, codes, c_string, has_terminator,
  le_bytes,
}

abbrev pub firmware_config_magic : ℕ
firmware_config_magic = 0x50344346

abbrev pub firmware_config_schema : ℕ
firmware_config_schema = 1

abbrev pub input_count : ℕ
input_count = 3

-- `sizeof(firmware_config_t)`
abbrev pub firmware_config_size : ℕ
firmware_config_size = 456

-- `firmware_config_t`; the arrays of characters are lists of bytes.
pub record FirmwareConfig : Type 0 where
  pub magic : ℕ
  pub schema : ℕ
  pub size : ℕ
  pub device_instance : ℕ
  pub database_revision : ℕ
  pub input_instances : List ℕ
  pub bacnet_port : ℕ
  pub vendor_identifier : ℕ
  pub debounce_ms : ℕ
  pub input_active_low_mask : ℕ
  pub reserved : ℕ
  pub device_name : List ℕ
  pub vendor_name : List ℕ
  pub location : List ℕ
  pub input_names : List (List ℕ)
  pub crc32 : ℕ

unfoldable pub printable_text : List ℕ → Bool → Bool
printable_text text allow_empty =
    has_terminator text
    && (allow_empty || not (get_or text 0 0 == 0))
    && all_of (λ c. leb 0x20 c && leb c 0x7e) (c_string text)

-- The byte as `strcasecmp` sees it, in the C locale.
abbrev pub lower_case : ℕ → ℕ
lower_case c = if leb 65 c && leb c 90 then c + 32 else c

-- `strcasecmp(a, b) == 0`, on the bytes before the terminators.
abbrev pub same_text : List ℕ → List ℕ → Bool
same_text [] [] = true
same_text [] (y ∷ ys) = false
same_text (x ∷ xs) [] = false
same_text (x ∷ xs) (y ∷ ys) = (lower_case x == lower_case y) && same_text xs ys

-- The names of the objects that no configuration changes.
abbrev pub fixed_names : List (List ℕ)
fixed_names =
    codes "Status Ethernet Link"
    ∷ codes "Status IPv4 Assigned"
    ∷ codes "Chip Temperature"
    ∷ codes "System Uptime"
    ∷ codes "Free Heap"
    ∷ codes "Minimum Free Heap"
    ∷ codes "Ethernet Link Losses"
    ∷ codes "Ethernet Reconnects"
    ∷ codes "BACnet RX Packets"
    ∷ codes "BACnet Protocol Errors"
    ∷ codes "Last Reset Reason"
    ∷ codes "Active COV Subscriptions"
    ∷ codes "Boot Count"
    ∷ codes "GPIO20 Chatter"
    ∷ codes "GPIO20 Rejected Pulses"
    ∷ codes "GPIO20 Transition Age"
    ∷ codes "GPIO21 Chatter"
    ∷ codes "GPIO21 Rejected Pulses"
    ∷ codes "GPIO21 Transition Age"
    ∷ codes "GPIO22 Chatter"
    ∷ codes "GPIO22 Rejected Pulses"
    ∷ codes "GPIO22 Transition Age"
    ∷ codes "BACnet/IP Ethernet"
    ∷ []

abbrev pub input_name : FirmwareConfig → ℕ → List ℕ
input_name config index = get_or config.input_names index []

abbrev pub input_instance : FirmwareConfig → ℕ → ℕ
input_instance config index = get_or config.input_instances index 0

-- The names of all objects of the device.
unfoldable pub object_names : FirmwareConfig → List (List ℕ)
object_names config =
    c_string config.device_name
    ∷ c_string (input_name config 0)
    ∷ c_string (input_name config 1)
    ∷ c_string (input_name config 2)
    ∷ fixed_names

-- The two loops: each name against those after it.
unfoldable pub all_unique : List (List ℕ) → Bool
all_unique [] = true
all_unique (name ∷ names) = not (any_of (same_text name) names) && all_unique names

unfoldable pub object_names_unique : FirmwareConfig → Bool
unfolding object_names all_unique
object_names_unique config = all_unique (object_names config)

-- The loop over the inputs before `index`.
unfoldable pub differs_from_prior : FirmwareConfig → ℕ → ℕ → Bool
differs_from_prior config index zero = true
differs_from_prior config index (suc prior) =
    differs_from_prior config index prior
    && not (input_instance config index == input_instance config prior)

unfoldable pub input_valid : FirmwareConfig → ℕ → Bool
unfolding differs_from_prior
input_valid config index =
    let instance_number = input_instance config index in
    not (instance_number == 1001)
    && not (instance_number == 1002)
    && ltb instance_number 4194303
    && printable_text (input_name config index) false
    && differs_from_prior config index index

-- The first `count` inputs.
unfoldable pub inputs_valid : FirmwareConfig → ℕ → Bool
unfolding input_valid
inputs_valid config zero = true
inputs_valid config (suc index) = inputs_valid config index && input_valid config index

-- A mask of at most three bits is below 8.
unfoldable pub config_model_validate : FirmwareConfig → Bool
unfolding inputs_valid object_names_unique
config_model_validate config =
    not (leb 4194303 config.device_instance)
    && not (config.bacnet_port == 0)
    && not (ltb config.debounce_ms 10)
    && not (ltb 500 config.debounce_ms)
    && not (leb 8 config.input_active_low_mask)
    && printable_text config.device_name false
    && printable_text config.vendor_name false
    && printable_text config.location true
    && inputs_valid config input_count
    && object_names_unique config

abbrev pub joined : List (List ℕ) → List ℕ
joined [] = []
joined (bytes ∷ rest) = bytes ++ joined rest

abbrev pub le_words : List ℕ → List ℕ
le_words [] = []
le_words (word ∷ words) = le_bytes 4 word ++ le_words words

-- The bytes of the structure before its field `crc32`.
unfoldable pub covered_bytes : FirmwareConfig → List ℕ
covered_bytes c =
    le_bytes 4 c.magic
    ++ (le_bytes 2 c.schema
        ++ (le_bytes 2 c.size
            ++ (le_bytes 4 c.device_instance
                ++ (le_bytes 4 c.database_revision
                    ++ (le_words c.input_instances
                        ++ (le_bytes 2 c.bacnet_port
                            ++ (le_bytes 2 c.vendor_identifier
                                ++ (le_bytes 2 c.debounce_ms
                                    ++ (le_bytes 1 c.input_active_low_mask
                                        ++ (le_bytes 1 c.reserved
                                            ++ (c.device_name
                                                ++ (c.vendor_name
                                                    ++ (c.location
                                                        ++ joined c.input_names)))))))))))))

module _ (crc : List ℕ → ℕ) where
  unfoldable pub config_model_crc32 : FirmwareConfig → ℕ
  unfolding covered_bytes
  config_model_crc32 config = crc (covered_bytes config)

  unfoldable pub config_model_finalize : FirmwareConfig → FirmwareConfig
  unfolding config_model_crc32
  config_model_finalize config =
      let stamped = record config {
        magic = firmware_config_magic;
        schema = firmware_config_schema;
        size = firmware_config_size;
        reserved = 0;
      } in
      record stamped { crc32 = config_model_crc32 stamped }

  unfoldable pub config_model_is_valid_blob : FirmwareConfig → Bool
  unfolding config_model_crc32
  config_model_is_valid_blob config =
      config.magic == firmware_config_magic
      && (config.schema == firmware_config_schema)
      && (config.size == firmware_config_size)
      && (config.crc32 == config_model_crc32 config)
      && config_model_validate config

-- The loop over the inputs, which stops at the first that differs.
unfoldable pub same_inputs : FirmwareConfig → FirmwareConfig → ℕ → Bool
same_inputs left right zero = true
same_inputs left right (suc index) =
    same_inputs left right index
    && (input_instance left index == input_instance right index)
    && same_bytes (c_string (input_name left index)) (c_string (input_name right index))

unfoldable pub config_model_mutable_equal : FirmwareConfig → FirmwareConfig → Bool
unfolding same_inputs
config_model_mutable_equal left right =
    left.device_instance == right.device_instance
    && (left.bacnet_port == right.bacnet_port)
    && (left.vendor_identifier == right.vendor_identifier)
    && (left.debounce_ms == right.debounce_ms)
    && (left.input_active_low_mask == right.input_active_low_mask)
    && same_bytes (c_string left.device_name) (c_string right.device_name)
    && same_bytes (c_string left.vendor_name) (c_string right.vendor_name)
    && same_bytes (c_string left.location) (c_string right.location)
    && same_inputs left right input_count
