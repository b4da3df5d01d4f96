-- ===== src/Codec.antt =====
-- main/bacnet_codec.c: the BACnet/IP frames that the device reads and writes.
pub mod Writer
pub mod Tags
pub mod Requests
pub mod Multiple
pub mod Npdu
pub mod Property
pub mod ObjectType
pub mod State
pub mod Arrays
pub mod Values
pub mod Port
pub mod Objects
pub mod Service
pub mod Frames
pub mod Handle
