-- ===== src/Codec/Multiple.antt =====
-- main/bacnet_codec.c, lines 759-847: the ReadPropertyMultiple request. `rest` is the list of the
-- octets from `payload + offset` on. Both loops stop at a table that is full, so they recur on the
-- free slots of that table, and no fuel is needed.
pub mod Laws
use esp32_p4_bacnet_switches.Base.{
  ℕ, zero, suc, ◌+◌, ◌-◌, ◌*◌, ◌/◌, ◌^◌, bit_and, Bool, true, false, not, ◌||◌, ◌&&◌, List, [], ◌∷◌,
  ◌++◌, Option, none, some, ltb, leb, ◌==◌, if◌then◌else◌, length, get_or, drop,
}
use esp32_p4_bacnet_switches.Codec.Tags.{
  ObjectId, decode_context_unsigned, decode_context_object_id, consume_special_tag,
}
use esp32_p4_bacnet_switches.Codec.Requests.{
  Parsed, parsed, rejected, ◌>>=◌, ◌>>◌, or_reject, require, ReadPropertyRequest, buffer_overflow,
  missing_required_parameter,
}

abbrev pub max_objects : ℕ
max_objects = 8

abbrev pub max_references : ℕ
max_references = 48

-- One entry of the four tables `object_*` of the request.
pub record ObjectEntry : Type 0 where
  pub object_id : ObjectId
  pub reference_start : ℕ
  pub reference_count : ℕ

pub record MultipleRequest : Type 0 where
  pub references : List ReadPropertyRequest
  pub objects : List ObjectEntry

abbrev pub no_requests : MultipleRequest
no_requests = record { references = []; objects = [] }

-- The test for an array index behind a property: context tag 1 that is no opening or closing tag.
abbrev pub at_array_index : List ℕ → Bool
at_array_index rest =
    ltb 0 (length rest)
    && (get_or rest 0 0 / 2 ^ 4 == 1)
    && not (bit_and (get_or rest 0 0) 0x08 == 0)
    && leb (bit_and (get_or rest 0 0) 0x07) 5

-- The optional array index, and what follows it.
unfoldable pub parse_reference_index : List ℕ → Parsed (Bool × ℕ × List ℕ)
parse_reference_index rest =
    if at_array_index rest
    then (or_reject (decode_context_unsigned rest 1) missing_required_parameter >>= λ r.
        parsed (true, r.0, drop r.1 rest))
    else parsed (false, 0, rest)

-- One property reference: the request that it stands for, and what follows it.
unfoldable pub parse_reference : List ℕ → ObjectId → Parsed (ReadPropertyRequest × List ℕ)
unfolding parse_reference_index
parse_reference rest object = do
  (property, used) ← or_reject (decode_context_unsigned rest 0) missing_required_parameter
  (has_array_index, array_index, behind) ← parse_reference_index (drop used rest)
  parsed (
    record {
      object_type = object.object_type;
      object_instance = object.object_instance;
      property_identifier = property;
      has_array_index = has_array_index;
      array_index = array_index;
    },
    behind,
  )

-- `while (offset < length && payload[offset] != 0x1F)`
abbrev pub more_references : List ℕ → Bool
more_references rest = ltb 0 (length rest) && not (get_or rest 0 0 == 0x1F)

unfoldable pub parse_references :
    ℕ → List ℕ → ObjectId → List ReadPropertyRequest → Parsed (List ReadPropertyRequest × List ℕ)
parse_references zero rest object references =
    if more_references rest then rejected buffer_overflow else parsed (references, rest)
parse_references (suc slots) rest object references = elim (more_references rest) [
  | false ↦ parsed (references, rest)
  | true ↦ parse_reference rest object >>= λ r.
      parse_references slots r.1 object (references ++ (r.0 ∷ []))
]

-- One object with its references.
unfoldable pub parse_object : List ℕ → MultipleRequest → Parsed (MultipleRequest × List ℕ)
parse_object rest request = do
  (object, used) ← or_reject (decode_context_object_id rest) missing_required_parameter
  let inside = drop used rest
  opened ← or_reject (consume_special_tag inside 1 true) missing_required_parameter
  let start = length request.references
  (references, behind) ←
      parse_references (max_references - start) (drop opened inside) object request.references
  require (not (length references == start)) missing_required_parameter
  closed ← or_reject (consume_special_tag behind 1 false) missing_required_parameter
  let entry : ObjectEntry = record {
    object_id = object;
    reference_start = start;
    reference_count = length references - start;
  }
  parsed (
    record { references = references; objects = request.objects ++ (entry ∷ []) },
    drop closed behind,
  )

unfoldable pub parse_objects : ℕ → List ℕ → MultipleRequest → Parsed MultipleRequest
parse_objects slots [] request = parsed request
parse_objects zero (b ∷ rest) request = rejected buffer_overflow
parse_objects (suc slots) (b ∷ rest) request =
    parse_object (b ∷ rest) request >>= λ r. parse_objects slots r.1 r.0

unfoldable pub parse_read_property_multiple : List ℕ → Parsed MultipleRequest
parse_read_property_multiple payload = do
  request ← parse_objects max_objects payload no_requests
  require (not (length request.objects == 0)) missing_required_parameter
  parsed request
