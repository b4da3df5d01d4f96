-- ===== src/Codec/Handle/Laws.antt =====
-- `bacnet_handle_packet` on any input.
use esp32_p4_bacnet_switches.Base.{
  ℕ, ◌≤◌, ◌≡◌, Bool, true, false, List, [], arith, length, inl, inr, ◌⊎◌, refl, drop, get_or, ◌≢◌,
}
use esp32_p4_bacnet_switches.Codec.State.{DeviceState}
use esp32_p4_bacnet_switches.Codec.Service
use esp32_p4_bacnet_switches.Codec.Npdu.{ApplicationNpdu}
use esp32_p4_bacnet_switches.Codec.Requests.{Parsed, parsed, rejected, parse_read_property}
use esp32_p4_bacnet_switches.Codec.Multiple.{parse_read_property_multiple}
use esp32_p4_bacnet_switches.Codec.Frames.Bounds.{
  encode_i_am-Fits, encode_i_have-Fits, encode_wrapped_short_apdu-Fits, encode_error-Fits,
  encode_read_property_response-Fits, encode_read_property_multiple_response-Fits,
}
use esp32_p4_bacnet_switches.Codec.Handle.{
  handle_who_is, handle_who_has, handle_read_property, handle_read_property_multiple,
  handle_subscribe_cov, handle_service, handle_apdu, handle_packet, cov_ack, is_unconfirmed,
}

Parsed-cases {ℓ} :
    {A : Type ℓ} (p : Parsed A) → ((a : A) × (p ≡ parsed a)) ⊎ ((r : ℕ) × (p ≡ rejected r))
Parsed-cases (parsed a) = inl (a, refl)
Parsed-cases (rejected r) = inr (r, refl)

module _ (s : DeviceState) (n : ℕ) where
  who_is-fits : (b : Bool) (payload : List ℕ) → length (handle_who_is s b payload n).response ≤ n
  unfolding handle_who_is
  who_is-fits b payload = ground (arith, encode_i_am-Fits s b n)

  who_has-fits : (b : Bool) (payload : List ℕ) → length (handle_who_has s b payload n).response ≤ n
  unfolding handle_who_has
  who_has-fits b payload = grind (arith, encode_i_have-Fits)

  read_property-fits :
      (i : ℕ) (payload : List ℕ) → length (handle_read_property s i payload n).response ≤ n
  unfolding handle_read_property
  read_property-fits i payload = elim (Parsed-cases (parse_read_property payload)) [
    | inl (r, e) ↦ rw (e, handle_read_property) (encode_read_property_response-Fits i r s n).within
    | inr (r, e) ↦ rw (e, handle_read_property) (encode_wrapped_short_apdu-Fits 0x60 i r n).within
  ]

  multiple-fits :
      (i : ℕ) (payload : List ℕ) → length (handle_read_property_multiple s i payload n).response ≤ n
  unfolding handle_read_property_multiple
  multiple-fits i payload = elim (Parsed-cases (parse_read_property_multiple payload)) [
    | inl (r, e) ↦
        rw (e, handle_read_property_multiple)
          (encode_read_property_multiple_response-Fits i r s n).within
    | inr (r, e) ↦
        rw (e, handle_read_property_multiple) (encode_wrapped_short_apdu-Fits 0x60 i r n).within
  ]

  subscribe_cov-fits :
      (i : ℕ) (payload : List ℕ) → length (handle_subscribe_cov s i payload n).response ≤ n
  unfolding handle_subscribe_cov
  subscribe_cov-fits i payload = grind (arith, encode_error-Fits, encode_wrapped_short_apdu-Fits)

  service-fits : (apdu : List ℕ) → length (handle_service s apdu n).response ≤ n
  unfolding handle_service
  service-fits apdu =
      grind (
        arith, encode_wrapped_short_apdu-Fits, read_property-fits, multiple-fits,
        subscribe_cov-fits,
      )

  apdu-fits : (b : Bool) (npdu : ApplicationNpdu) → length (handle_apdu s b npdu n).response ≤ n
  unfolding handle_apdu
  apdu-fits b npdu = ground (
    arith,
    who_is-fits b (drop 2 npdu.apdu),
    who_has-fits b (drop 2 npdu.apdu),
    service-fits npdu.apdu,
  )

-- For every frame, device state and buffer size, the response is no longer than the response
-- buffer.
pub handle_packet-fits :
    (frame : List ℕ) (s : DeviceState) (n : ℕ) → length (handle_packet frame s n).response ≤ n
unfolding handle_packet
handle_packet-fits frame s n = grind (arith, apdu-fits)

-- No handler of a request takes it for an acknowledgement.
module _ (s : DeviceState) (n : ℕ) where
  who_is-kind : (b : Bool) (p : List ℕ) → (handle_who_is s b p n).kind ≢ cov_ack
  unfolding handle_who_is
  who_is-kind b p = ground arith

  who_has-kind : (b : Bool) (p : List ℕ) → (handle_who_has s b p n).kind ≢ cov_ack
  unfolding handle_who_has
  who_has-kind b p = ground arith

  read_property-kind : (i : ℕ) (p : List ℕ) → (handle_read_property s i p n).kind ≢ cov_ack
  unfolding handle_read_property
  read_property-kind i p = ground arith

  multiple-kind : (i : ℕ) (p : List ℕ) → (handle_read_property_multiple s i p n).kind ≢ cov_ack
  unfolding handle_read_property_multiple
  multiple-kind i p = ground arith

  subscribe_cov-kind : (i : ℕ) (p : List ℕ) → (handle_subscribe_cov s i p n).kind ≢ cov_ack
  unfolding handle_subscribe_cov
  subscribe_cov-kind i p = ground arith

  service-kind : (apdu : List ℕ) → (handle_service s apdu n).kind ≢ cov_ack
  unfolding handle_service
  service-kind apdu = ground (
    arith,
    read_property-kind (get_or apdu 2 0) (drop 4 apdu),
    multiple-kind (get_or apdu 2 0) (drop 4 apdu),
    subscribe_cov-kind (get_or apdu 2 0) (drop 4 apdu),
  )

  -- An application PDU that is neither Who-Is nor Who-Has gets no response when it is taken for an
  -- acknowledgement or comes through a router.
  pub handle_apdu-silent :
      (b : Bool) (npdu : ApplicationNpdu)
      → ((handle_apdu s b npdu n).kind ≡ cov_ack) ⊎ (npdu.routed_source ≡ true)
      → is_unconfirmed Service.who_is npdu.apdu ≡ false
      → is_unconfirmed Service.who_has npdu.apdu ≡ false
      → (handle_apdu s b npdu n).response ≡ []
  unfolding handle_apdu
  handle_apdu-silent b npdu h not_who_is not_who_has = ground (arith, service-kind npdu.apdu)
