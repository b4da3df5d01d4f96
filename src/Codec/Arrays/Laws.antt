-- ===== src/Codec/Arrays/Laws.antt =====
-- The arrays: which indices can be read.
use esp32_p4_bacnet_switches.Base.{
  ℕ, ◌≡◌, Bool, true, false, not, ◌||◌, List, [], ◌∷◌, arith, leb, ◌==◌,
}
use esp32_p4_bacnet_switches.Codec.Writer.{Writer}
use esp32_p4_bacnet_switches.Codec.State.{DeviceState}
use esp32_p4_bacnet_switches.Codec.Requests.{ReadPropertyRequest}
use esp32_p4_bacnet_switches.Codec.Arrays.{
  PropertyResult, property_ok, property_error, PropertyListKind, encode_array, array_count,
}

abbrev pub is_ok : PropertyResult → Bool
is_ok (property_ok w) = true
is_ok (property_error c e) = false

abbrev pub contains : List ℕ → ℕ → Bool
contains [] p = false
contains (q ∷ qs) p = (p == q) || contains qs p

-- An array property is read without an error exactly when the request has no index or one from 0 to
-- the number of items.
pub is_ok-encode_array :
    (w : Writer) (s : DeviceState) (r : ReadPropertyRequest) (o : Bool) (k : PropertyListKind)
    → is_ok (encode_array w s r o k)
      ≡ (not r.has_array_index || leb r.array_index (array_count o k))
unfolding encode_array
is_ok-encode_array w s r o k = ground arith
