-- ===== src/Codec/Frames/Bounds.antt =====
-- Every frame that the device sends fits the response buffer.
use esp32_p4_bacnet_switches.Base.{
  ℕ, ◌≤◌, ◌≡◌, Bool, true, false, List, [], ◌∷◌, arith, length, inl, inr, Option-cases,
  if◌then◌else◌, take, drop, ◌⊎◌, refl,
}
use esp32_p4_bacnet_switches.Codec.Writer.{
  Writer, fresh, write_bytes, encode_opening_tag, encode_closing_tag, encode_context_object_id,
}
use esp32_p4_bacnet_switches.Codec.Writer.Grows.{Grows, encoders, if-Grows}
use esp32_p4_bacnet_switches.Codec.State.{DeviceState, max_apdu}
use esp32_p4_bacnet_switches.Codec.Npdu.{finish_bvlc}
use esp32_p4_bacnet_switches.Codec.Npdu.Laws.{start_bvlc-Grows, finish_bvlc-fits}
use esp32_p4_bacnet_switches.Codec.Requests.{ReadPropertyRequest}
use esp32_p4_bacnet_switches.Codec.Multiple.{MultipleRequest, ObjectEntry}
use esp32_p4_bacnet_switches.Codec.Arrays.{
  PropertyResult, property_ok, property_error, error_class_property, error_unknown_property,
}
use esp32_p4_bacnet_switches.Codec.Objects.{encode_object_property}
use esp32_p4_bacnet_switches.Codec.Frames.{
  encode_i_am, encode_i_have, encode_wrapped_short_apdu, encode_error, read_property_ack,
  encode_read_property_response, selected_property_list, encode_rpm_error,
  encode_rpm_property_result, encode_selected, encode_reference, encode_references, encode_objects,
  encode_read_property_multiple_response, cov_header, encode_cov_notification,
}

ruleset frame_parts = (encoders, start_bvlc-Grows)

-- A frame fits a response buffer of `n` octets.
pub record Fits (n : ℕ) (frame : List ℕ) : Type 0 where
  pub within : length frame ≤ n

Fits-if : {n : ℕ} (t : Bool) {a b : List ℕ} → Fits n a → Fits n b → Fits n (if t then a else b)
Fits-if true p q = p
Fits-if false p q = q

Fits-nil : {n : ℕ} → Fits n []
Fits-nil = record { within = omega arith }

Fits-finish : {n : ℕ} (w : Writer) → Grows (fresh n) w → Fits n (finish_bvlc w)
Fits-finish w g = record { within = finish_bvlc-fits w g }

-- The two outcomes of reading a property.
pub PropertyResult-cases :
    (r : PropertyResult)
    → ((w : Writer) × (r ≡ property_ok w)) ⊎ ((c : ℕ) × (e : ℕ) × (r ≡ property_error c e))
PropertyResult-cases (property_ok w) = inl (w, refl)
PropertyResult-cases (property_error c e) = inr (c, e, refl)

pub encode_i_am-Fits : (s : DeviceState) (b : Bool) (n : ℕ) → Fits n (encode_i_am s b n)
unfolding encode_i_am
encode_i_am-Fits s b n = Fits-if _ Fits-nil (Fits-finish _ (search frame_parts depth 12))

pub encode_i_have-Fits :
    (s : DeviceState) (t i : ℕ) (name : List ℕ) (b : Bool) (n : ℕ)
    → Fits n (encode_i_have s t i name b n)
unfolding encode_i_have
encode_i_have-Fits s t i name b n = Fits-finish _ (search frame_parts depth 12)

pub encode_wrapped_short_apdu-Fits : (a b c n : ℕ) → Fits n (encode_wrapped_short_apdu a b c n)
unfolding encode_wrapped_short_apdu
encode_wrapped_short_apdu-Fits a b c n = Fits-finish _ (search frame_parts depth 12)

pub encode_error-Fits : (a b c d n : ℕ) → Fits n (encode_error a b c d n)
unfolding encode_error
encode_error-Fits a b c d n = Fits-finish _ (search frame_parts depth 12)

read_property_ack-Grows :
    (i : ℕ) (r : ReadPropertyRequest) (value : List ℕ) (n : ℕ)
    → Grows (fresh n) (read_property_ack i r value n)
unfolding read_property_ack
read_property_ack-Grows i r value n = search frame_parts depth 16

pub encode_read_property_response-Fits :
    (i : ℕ) (r : ReadPropertyRequest) (s : DeviceState) (n : ℕ)
    → Fits n (encode_read_property_response i r s n)
unfolding encode_read_property_response
encode_read_property_response-Fits i r s n =
    elim (PropertyResult-cases (encode_object_property (fresh max_apdu) s r)) [
      | inl (value, e) ↦
          rw (e, encode_read_property_response)
            (Fits-if _ (encode_wrapped_short_apdu-Fits 0x71 i 4 n)
              (Fits-finish _ (read_property_ack-Grows i r value.bytes n)))
      | inr (c, k, e) ↦ rw (e, encode_read_property_response) (encode_error-Fits i 12 c k n)
    ]

module _ {w : Writer} where
  encode_rpm_error-Grows : (u : Writer) (c e : ℕ) → Grows w u → Grows w (encode_rpm_error u c e)
  unfolding encode_rpm_error
  encode_rpm_error-Grows u c e g = search encoders

  rpm_value-Grows :
      (u : Writer) (value : Writer)
      → Grows w u
      → Grows w (
          if value.failed
          then encode_rpm_error u error_class_property error_unknown_property
          else encode_closing_tag (write_bytes (encode_opening_tag u 4) value.bytes) 4)
  rpm_value-Grows u value g = search (encoders, encode_rpm_error-Grows)

  encode_rpm_property_result-Grows :
      (u : Writer) (s : DeviceState) (r : ReadPropertyRequest)
      → Grows w u
      → Grows w (encode_rpm_property_result u s r)
  unfolding encode_rpm_property_result
  encode_rpm_property_result-Grows u s r g =
      elim (PropertyResult-cases (encode_object_property (fresh 512) s r)) [
        | inl (value, e) ↦
            rw (e, encode_rpm_property_result) (rpm_value-Grows _ value (search encoders))
        | inr (c, k, e) ↦
            rw (e, encode_rpm_property_result) (encode_rpm_error-Grows _ c k (search encoders))
      ]

  encode_selected-Grows :
      (u : Writer) (s : DeviceState) (r : ReadPropertyRequest) (ps : List ℕ)
      → Grows w u
      → Grows w (encode_selected u s r ps)
  unfolding encode_selected
  encode_selected-Grows u s r [] g = g
  encode_selected-Grows u s r (p ∷ ps) g =
      encode_selected-Grows (encode_rpm_property_result u s (record r { property_identifier = p }))
        s r ps (encode_rpm_property_result-Grows u s _ g)

  encode_reference-Grows :
      (u : Writer) (s : DeviceState) (r : ReadPropertyRequest)
      → Grows w u
      → Grows w (encode_reference u s r)
  unfolding encode_reference
  encode_reference-Grows u s r g =
      elim (Option-cases (selected_property_list r.object_type r.property_identifier)) [
        | inl e ↦ rw (e, encode_reference) (encode_rpm_property_result-Grows u s r g)
        | inr (ps, e) ↦
            rw (e, encode_reference)
              (if-Grows _ (encode_rpm_property_result-Grows u s r g)
                (encode_selected-Grows u s r ps g))
      ]

  encode_references-Grows :
      (u : Writer) (s : DeviceState) (rs : List ReadPropertyRequest)
      → Grows w u
      → Grows w (encode_references u s rs)
  unfolding encode_references
  encode_references-Grows u s [] g = g
  encode_references-Grows u s (r ∷ rs) g =
      encode_references-Grows (encode_reference u s r) s rs (encode_reference-Grows u s r g)

ruleset rpm_parts = (encoders, encode_references-Grows)

-- One object of the answer.
abbrev object_answer : Writer → DeviceState → List ReadPropertyRequest → ObjectEntry → Writer
object_answer u s rs o =
    encode_closing_tag
      (encode_references
        (encode_opening_tag
          (encode_context_object_id u 0 o.object_id.object_type o.object_id.object_instance) 1)
        s (take o.reference_count (drop o.reference_start rs)))
      1

module _ {w : Writer} where
  encode_objects-Grows :
      (u : Writer) (s : DeviceState) (rs : List ReadPropertyRequest) (os : List ObjectEntry)
      → Grows w u
      → Grows w (encode_objects u s rs os)
  unfolding encode_objects
  encode_objects-Grows u s rs [] g = g
  encode_objects-Grows u s rs (o ∷ os) g =
      encode_objects-Grows (object_answer u s rs o) s rs os (search rpm_parts depth 8)

pub encode_read_property_multiple_response-Fits :
    (i : ℕ) (r : MultipleRequest) (s : DeviceState) (n : ℕ)
    → Fits n (encode_read_property_multiple_response i r s n)
unfolding encode_read_property_multiple_response
encode_read_property_multiple_response-Fits i r s n =
    Fits-if _ (encode_wrapped_short_apdu-Fits 0x71 i 4 n) (
      Fits-finish _ (encode_objects-Grows _ s r.references r.objects (search frame_parts depth 12)))

cov_header-Grows :
    {w : Writer} (u : Writer) (c : Bool) (i : ℕ) → Grows w u → Grows w (cov_header u c i)
unfolding cov_header
cov_header-Grows u c i g = search encoders depth 8

ruleset cov_parts = (frame_parts, cov_header-Grows)

-- For every device state, input, process, remaining time, invoke id and buffer size, a COV
-- notification is no longer than its buffer.
pub encode_cov_notification-Fits :
    (s : DeviceState) (index process remaining : ℕ) (confirmed : Bool) (i n : ℕ)
    → Fits n (encode_cov_notification s index process remaining confirmed i n)
unfolding encode_cov_notification
encode_cov_notification-Fits s index process remaining confirmed i n =
    Fits-if _ Fits-nil (Fits-finish _ (search cov_parts depth 24))
