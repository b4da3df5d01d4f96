-- ===== src/Codec/Requests.antt =====
-- main/bacnet_codec.c, lines 586-912: the parameters of each service request. A parser that sets
-- `*reject_reason` returns it in `rejected`; the others return `none` for false.
use esp32_p4_bacnet_switches.Base.{
  ℕ, ◌+◌, ◌/◌, ◌^◌, bit_and, Bool, true, false, not, ◌||◌, ◌&&◌, List, Option, none, some, ltb, leb,
  ◌==◌, if◌then◌else◌, length, get_or, drop, ◌≡◌, refl,
}
use esp32_p4_bacnet_switches.Codec.Writer.{max_instance}
use esp32_p4_bacnet_switches.Codec.Tags.{
  ObjectId, decode_context_unsigned, decode_context_object_id, decode_context_object_id_tag,
  decode_context_character_string,
}

pub data Parsed {ℓ} (A : Type ℓ) : Type ℓ where
  parsed : A → Parsed A
  rejected : ℕ → Parsed A

infixl 5 ◌>>=◌ ◌>>◌
abbrev pub ◌>>=◌ {ℓ κ} : {A : Type ℓ} {B : Type κ} → Parsed A → (A → Parsed B) → Parsed B
parsed a >>= f = f a
rejected r >>= f = rejected r

abbrev pub ◌>>◌ {ℓ} : {B : Type ℓ} → Parsed (Unit {0}) → Parsed B → Parsed B
m >> k = m >>= λ _. k

abbrev pub or_reject {ℓ} : {A : Type ℓ} → Option A → ℕ → Parsed A
or_reject none r = rejected r
or_reject (some a) r = parsed a

abbrev pub require : Bool → ℕ → Parsed (Unit {0})
require true r = parsed tt
require false r = rejected r

-- Inversion of a chain that succeeds.
pub >>=-eq-parsed {ℓ κ} :
    {A : Type ℓ} {B : Type κ} (m : Parsed A) (f : A → Parsed B) {b : B}
    → (m >>= f) ≡ parsed b
    → (a : A) × (m ≡ parsed a) × (f a ≡ parsed b)
>>=-eq-parsed (parsed a) f h = (a, refl, h)
>>=-eq-parsed (rejected r) f h = cc

pub require-eq-parsed : (t : Bool) (r : ℕ) {u : Unit {0}} → require t r ≡ parsed u → t ≡ true
require-eq-parsed true r h = refl
require-eq-parsed false r h = cc

-- The reject reasons of clause 20: buffer-overflow, missing-required-parameter, too-many-arguments.
abbrev pub buffer_overflow : ℕ
buffer_overflow = 1

abbrev pub missing_required_parameter : ℕ
missing_required_parameter = 4

abbrev pub too_many_arguments : ℕ
too_many_arguments = 7

-- The limits of a Who-Is: `none` when it has none.
unfoldable pub parse_who_is : List ℕ → Option (Option (ℕ × ℕ))
parse_who_is payload =
    if length payload == 0 then some none else elim (decode_context_unsigned payload 0) [
      | none ↦ none
      | some (low_limit, low_used) ↦ elim (decode_context_unsigned (drop low_used payload) 1) [
        | none ↦ none
        | some (high_limit, high_used) ↦
            if not (low_used + high_used == length payload)
              || ltb high_limit low_limit
              || ltb max_instance low_limit
              || ltb max_instance high_limit
            then none
            else some (some (low_limit, high_limit))
      ]
    ]

pub record ReadPropertyRequest : Type 0 where
  pub object_type : ℕ
  pub object_instance : ℕ
  pub property_identifier : ℕ
  pub has_array_index : Bool
  pub array_index : ℕ

-- The optional array index behind the first `consumed` octets: whether there is one, its value,
-- and the octets consumed with it.
unfoldable pub read_array_index : List ℕ → ℕ → Parsed (Bool × ℕ × ℕ)
read_array_index payload consumed =
    if ltb consumed (length payload)
    then (or_reject (decode_context_unsigned (drop consumed payload) 2) missing_required_parameter
        >>= λ r. parsed (true, r.0, consumed + r.1))
    else parsed (false, 0, consumed)

unfoldable pub parse_read_property : List ℕ → Parsed ReadPropertyRequest
unfolding read_array_index
parse_read_property payload = do
  (object, object_used) ← or_reject (decode_context_object_id payload) missing_required_parameter
  (property, property_used) ←
      or_reject (decode_context_unsigned (drop object_used payload) 1) missing_required_parameter
  (has_array_index, array_index, consumed) ← read_array_index payload (object_used + property_used)
  require (consumed == length payload) too_many_arguments
  parsed (record {
    object_type = object.object_type;
    object_instance = object.object_instance;
    property_identifier = property;
    has_array_index = has_array_index;
    array_index = array_index;
  })

-- What a Who-Has asks for: an object, or a name.
pub data WhoHasChoice : Type 0 where
  by_id : ObjectId → WhoHasChoice
  by_name : List ℕ → WhoHasChoice

pub record WhoHasRequest : Type 0 where
  pub limits : Option (ℕ × ℕ)
  pub choice : WhoHasChoice

abbrev pub who_has_name_capacity : ℕ
who_has_name_capacity = 96

-- The optional limits in front, and the octets that they take.
unfoldable pub parse_who_has_limits : List ℕ → Option (Option (ℕ × ℕ) × ℕ)
parse_who_has_limits payload =
    if ltb 0 (length payload)
      && (get_or payload 0 0 / 2 ^ 4 == 0)
      && not (bit_and (get_or payload 0 0) 0x08 == 0)
    then elim (decode_context_unsigned payload 0) [
      | none ↦ none
      | some (low_limit, low_used) ↦ elim (decode_context_unsigned (drop low_used payload) 1) [
        | none ↦ none
        | some (high_limit, high_used) ↦
            if ltb high_limit low_limit || ltb max_instance high_limit
            then none
            else some (some (low_limit, high_limit), low_used + high_used)
      ]
    ]
    else some (none, 0)

-- The object or the name in `rest`, and the octets that it takes.
unfoldable pub parse_who_has_choice : List ℕ → Option (WhoHasChoice × ℕ)
parse_who_has_choice rest =
    let choice_tag = get_or rest 0 0 / 2 ^ 4 in
    if choice_tag == 2
    then elim (decode_context_object_id_tag rest 2) [
      | none ↦ none
      | some (object, used) ↦ some (by_id object, used)
    ]
    else if choice_tag == 3
    then elim (decode_context_character_string rest 3 who_has_name_capacity) [
      | none ↦ none
      | some (name, used) ↦ some (by_name name, used)
    ]
    else none

unfoldable pub parse_who_has : List ℕ → Option WhoHasRequest
unfolding parse_who_has_limits parse_who_has_choice
parse_who_has payload = elim (parse_who_has_limits payload) [
  | none ↦ none
  | some (limits, offset) ↦
      if leb (length payload) offset
      then none
      else elim (parse_who_has_choice (drop offset payload)) [
        | none ↦ none
        | some (choice, used) ↦
            if offset + used == length payload
            then some (record { limits = limits; choice = choice })
            else none
      ]
]

pub record SubscribeCovRequest : Type 0 where
  pub process_id : ℕ
  pub object : ObjectId
  pub has_parameters : Bool
  pub confirmed : Bool
  pub lifetime_seconds : ℕ

-- What follows the object: nothing, which cancels, or the confirmation flag and the lifetime.
unfoldable pub parse_cov_parameters : List ℕ → Parsed (Bool × Bool × ℕ)
parse_cov_parameters rest = if length rest == 0 then parsed (false, false, 0) else do
  (confirmed, used) ← or_reject (decode_context_unsigned rest 2) missing_required_parameter
  require (leb confirmed 1) missing_required_parameter
  (lifetime, lifetime_used) ←
      or_reject (decode_context_unsigned (drop used rest) 3) missing_required_parameter
  require (used + lifetime_used == length rest) too_many_arguments
  parsed (true, not (confirmed == 0), lifetime)

unfoldable pub parse_subscribe_cov : List ℕ → Parsed SubscribeCovRequest
unfolding parse_cov_parameters
parse_subscribe_cov payload = do
  (process_id, process_used) ←
      or_reject (decode_context_unsigned payload 0) missing_required_parameter
  (object, object_used) ←
      or_reject (decode_context_object_id_tag (drop process_used payload) 1)
        missing_required_parameter
  (has_parameters, confirmed, lifetime) ←
      parse_cov_parameters (drop (process_used + object_used) payload)
  parsed (record {
    process_id = process_id;
    object = object;
    has_parameters = has_parameters;
    confirmed = confirmed;
    lifetime_seconds = lifetime;
  })
