-- ===== src/Codec/Frames/Announce.antt =====
-- The octets of an I-Am, written out: how the device announces itself.
use esp32_p4_bacnet_switches.Base.{
  ℕ, ◌+◌, ◌*◌, ◌≤◌, ◌<◌, ◌≡◌, refl, Bool, true, false, List, [], ◌∷◌, ◌++◌, arith, length, leb,
  append_assoc,
}
use esp32_p4_bacnet_switches.Codec.State.{DeviceState}
use esp32_p4_bacnet_switches.Codec.Writer.{
  Writer, fresh, write_u8, write_be16, unsigned_length, object_identifier, encode_tag,
  encode_unsigned_body, encode_application_object_id, encode_application_unsigned,
  encode_application_enumerated,
}
use esp32_p4_bacnet_switches.Codec.Writer.Laws.{
  Writes, Writes-nil, Writes-u8, Writes-be32, Writes-short_tag, Writes-unsigned_body, be_octets,
  unsigned_length_bounds,
}
use esp32_p4_bacnet_switches.Codec.Tags.RoundTrip.{object_identifier_lem, length-be_octets}
use esp32_p4_bacnet_switches.Codec.Npdu.{start_bvlc, finish_bvlc}
use esp32_p4_bacnet_switches.Codec.Frames.{encode_i_am}

-- The service: the device's identifier, the largest APDU of 1476 octets, no segmentation, the vendor.
abbrev pub i_am_apdu : DeviceState → List ℕ
i_am_apdu s =
    0x10
    ∷ 0x00
    ∷ 0xC4
    ∷ (be_octets (8 * 4194304 + s.device_instance) 4
        ++ (0x22
            ∷ 0x05
            ∷ 0xC4
            ∷ 0x91
            ∷ 0x03
            ∷ (0x20 + unsigned_length s.vendor_identifier)
            ∷ be_octets s.vendor_identifier (unsigned_length s.vendor_identifier)))

-- The frame: to one device, or to all devices of all networks.
abbrev pub i_am_frame : DeviceState → Bool → List ℕ
i_am_frame s false = 0x81 ∷ 0x0A ∷ 0 ∷ (length (i_am_apdu s) + 6) ∷ 1 ∷ 0 ∷ i_am_apdu s
i_am_frame s true =
    0x81 ∷ 0x0B ∷ 0 ∷ (length (i_am_apdu s) + 10) ∷ 1 ∷ 0x20 ∷ 0xFF ∷ 0xFF ∷ 0 ∷ 0xFF ∷ i_am_apdu s

abbrev header_octets : Bool → List ℕ
header_octets false = 0x81 ∷ 0x0A ∷ 0 ∷ 0 ∷ 1 ∷ 0 ∷ []
header_octets true = 0x81 ∷ 0x0B ∷ 0 ∷ 0 ∷ 1 ∷ 0x20 ∷ 0xFF ∷ 0xFF ∷ 0 ∷ 0xFF ∷ []

Writes-start_bvlc : (n : ℕ) (b : Bool) → Writes (fresh n) (header_octets b) (start_bvlc (fresh n) b)
unfolding start_bvlc write_be16
Writes-start_bvlc n false = Writes-u8 _ _ (
    Writes-u8 _ _
      (Writes-u8 _ _ (Writes-u8 _ _ (Writes-u8 _ _ (Writes-u8 _ _ (Writes-nil (fresh n)))))))
Writes-start_bvlc n true = Writes-u8 _ _ (
    Writes-u8 _ _ (
      Writes-u8 _ _ (
        Writes-u8 _ _ (
          Writes-u8 _ _ (
            Writes-u8 _ _ (
              Writes-u8 _ _
                (Writes-u8 _ _ (Writes-u8 _ _ (Writes-u8 _ _ (Writes-nil (fresh n)))))))))))

module _ {w : Writer} {bs : List ℕ} where
  Writes-tagged :
      (u : Writer) (tag value : ℕ)
      → tag < 15
      → Writes w bs u
      → Writes w
          (bs ++ ((tag * 16 + 0 + unsigned_length value) ∷ be_octets value (unsigned_length value)))
          (encode_unsigned_body
            (encode_tag u tag false (unsigned_length value))
            value
            (unsigned_length value))
  Writes-tagged u tag value h p =
      let (_, short, _) = unsigned_length_bounds value in
      rw
        (← append_assoc bs ((tag * 16 + 0 + unsigned_length value) ∷ [])
          (be_octets value (unsigned_length value)))
        (Writes-unsigned_body _ value (unsigned_length value)
          (Writes-short_tag tag false (unsigned_length value) h short p))

  Writes-application_object_id :
      (u : Writer) (object_type inst : ℕ)
      → Writes w bs u
      → Writes w
          (bs ++ (0xC4 ∷ be_octets (object_identifier object_type inst) 4))
          (encode_application_object_id u object_type inst)
  unfolding encode_application_object_id
  Writes-application_object_id u object_type inst p =
      rw (← append_assoc bs (0xC4 ∷ []) (be_octets (object_identifier object_type inst) 4)) (
        Writes-be32 _ (object_identifier object_type inst)
          (Writes-short_tag 12 false 4 (omega arith) (omega arith) p))

-- The frame before its length is filled in.
abbrev unfinished : DeviceState → Bool → ℕ → Writer
unfinished s b n =
    let w0 = start_bvlc (fresh n) b in
    let w1 = write_u8 (write_u8 w0 0x10) 0 in
    let w2 = encode_application_object_id w1 8 s.device_instance in
    let w3 = encode_application_unsigned w2 1476 in
    let w4 = encode_application_enumerated w3 3 in
    encode_application_unsigned w4 s.vendor_identifier

Writes-unfinished :
    (s : DeviceState) (b : Bool) (n : ℕ)
    → s.device_instance < 4194303
    → Writes (fresh n) (header_octets b ++ i_am_apdu s) (unfinished s b n)
unfolding encode_application_unsigned encode_application_enumerated unsigned_length
Writes-unfinished s false n small =
    rw (← object_identifier_lem 8 s.device_instance (omega arith) (omega arith)) (
      Writes-tagged _ 2 s.vendor_identifier (omega arith) (
        Writes-tagged _ 9 3 (omega arith) (
          Writes-tagged _ 2 1476 (omega arith) (
            Writes-application_object_id _ 8 s.device_instance
              (Writes-u8 _ 0 (Writes-u8 _ 0x10 (Writes-start_bvlc n false)))))))
Writes-unfinished s true n small =
    rw (← object_identifier_lem 8 s.device_instance (omega arith) (omega arith)) (
      Writes-tagged _ 2 s.vendor_identifier (omega arith) (
        Writes-tagged _ 9 3 (omega arith) (
          Writes-tagged _ 2 1476 (omega arith) (
            Writes-application_object_id _ 8 s.device_instance
              (Writes-u8 _ 0 (Writes-u8 _ 0x10 (Writes-start_bvlc n true)))))))

length-i_am_apdu : (s : DeviceState) → s.vendor_identifier < 65536 → length (i_am_apdu s) ≤ 15
unfolding unsigned_length
length-i_am_apdu s small =
    ground (arith, length-be_octets s.vendor_identifier (unsigned_length s.vendor_identifier))

finish_bvlc-i_am :
    (w : Writer) (s : DeviceState) (b : Bool)
    → s.vendor_identifier < 65536
    → w.failed ≡ false
    → w.bytes ≡ header_octets b ++ i_am_apdu s
    → finish_bvlc w ≡ i_am_frame s b
unfolding finish_bvlc
finish_bvlc-i_am w s false small ok e = rw (ok, e) (ground (arith, length-i_am_apdu s small))
finish_bvlc-i_am w s true small ok e = rw (ok, e) (ground (arith, length-i_am_apdu s small))

length-header :
    (s : DeviceState) (b : Bool)
    → length (header_octets b ++ i_am_apdu s) ≤ 10 + length (i_am_apdu s)
length-header s false = omega arith
length-header s true = omega arith

-- A device with a proper instance and a 16-bit vendor identifier fits its I-Am in 25 octets.
pub encode_i_am-frame :
    (s : DeviceState) (b : Bool) (n : ℕ)
    → s.device_instance < 4194303
    → s.vendor_identifier < 65536
    → 25 ≤ n
    → encode_i_am s b n ≡ i_am_frame s b
unfolding encode_i_am
encode_i_am-frame s b n small_instance small room =
    let p = Writes-unfinished s b n small_instance in
    let fit : 0 + length (header_octets b ++ i_am_apdu s) ≤ n =
      omega (arith, length-header s b, length-i_am_apdu s small) in
    let proper : leb 4194303 s.device_instance ≡ false = ground arith in
    rw proper
      (finish_bvlc-i_am (unfinished s b n) s b small (p.not_failed refl fit) (p.appended refl fit))
