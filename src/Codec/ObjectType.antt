-- ===== src/Codec/ObjectType.antt =====
-- main/bacnet_codec.c, lines 12-15: the object types that the device has.
use esp32_p4_bacnet_switches.Base.{ℕ}

abbrev pub analog_value : ℕ
analog_value = 2

abbrev pub binary_input : ℕ
binary_input = 3

abbrev pub device : ℕ
device = 8

abbrev pub network_port : ℕ
network_port = 56
