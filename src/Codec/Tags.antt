-- ===== src/Codec/Tags.antt =====
-- main/bacnet_codec.c, lines 461-584: reading one tagged value. A pointer with the length behind
-- it is the list of the bytes from there on; `none` is the `return false` of a decoder.
pub mod Bounds
pub mod RoundTrip
use esp32_p4_bacnet_switches.Base.{
  ℕ, zero, suc, ◌+◌, ◌-◌, ◌*◌, ◌/◌, ◌^◌, bit_and, bit_or, Bool, true, false, not, ◌||◌, ◌&&◌, List,
  [], ◌∷◌, Option, none, some, ltb, leb, ◌==◌, if◌then◌else◌, length, get_or, as_u32, ◌>>=◌, ◌>>◌,
  guard,
}
use esp32_p4_bacnet_switches.Codec.Writer.{max_instance}

-- `decoded_tag_t`
pub record DecodedTag : Type 0 where
  pub tag : ℕ
  pub context : Bool
  pub size : ℕ
  pub header_length : ℕ

-- The extended tag number, in a second octet.
abbrev pub is_extended : ℕ → Bool
is_extended first = first / 2 ^ 4 == 0x0F

-- The value length, in an octet of its own when the first octet says 5.
unfoldable pub decode_length : List ℕ → ℕ → Option (ℕ × ℕ)
decode_length octets header_length =
    let value_length = bit_and (get_or octets 0 0) 0x07 in
    if value_length == 6 || value_length == 7
    then none
    else if value_length == 5
    then if leb (length octets) header_length || leb 254 (get_or octets header_length 0)
      then none
      else some (get_or octets header_length 0, header_length + 1)
    else some (value_length, header_length)

unfoldable pub decode_tag : List ℕ → Option DecodedTag
unfolding decode_length
decode_tag octets = do
  guard (not (length octets == 0))
  let first = get_or octets 0 0
  guard (not (is_extended first && ltb (length octets) 2))
  let tag_number = if is_extended first then get_or octets 1 0 else first / 2 ^ 4
  (value_length, header_length) ← decode_length octets (if is_extended first then 2 else 1)
  guard (leb (header_length + value_length) (length octets))
  some (record {
    tag = tag_number;
    context = not (bit_and first 0x08 == 0);
    size = value_length;
    header_length = header_length;
  })

-- The loop of `decode_context_unsigned`: `count` octets from `offset` on.
unfoldable pub decode_octets : List ℕ → ℕ → ℕ → ℕ → ℕ
decode_octets octets offset zero decoded = decoded
decode_octets octets offset (suc count) decoded =
    decode_octets octets (offset + 1) count
      (bit_or (as_u32 (decoded * 2 ^ 8)) (get_or octets offset 0))

-- The value, and the octets used.
unfoldable pub decode_context_unsigned : List ℕ → ℕ → Option (ℕ × ℕ)
unfolding decode_tag decode_octets
decode_context_unsigned octets expected_tag = do
  tag ← decode_tag octets
  guard (tag.tag == expected_tag && tag.context && leb 1 tag.size && leb tag.size 4)
  some (decode_octets octets tag.header_length tag.size 0, tag.header_length + tag.size)

-- Four octets from `offset` on, the highest first.
unfoldable pub read_be32 : List ℕ → ℕ → ℕ
read_be32 octets offset =
    bit_or
      (bit_or (bit_or (get_or octets offset 0 * 2 ^ 24) (get_or octets (offset + 1) 0 * 2 ^ 16))
        (get_or octets (offset + 2) 0 * 2 ^ 8))
      (get_or octets (offset + 3) 0)

pub record ObjectId : Type 0 where
  pub object_type : ℕ
  pub object_instance : ℕ

unfoldable pub decode_context_object_id_tag : List ℕ → ℕ → Option (ObjectId × ℕ)
unfolding decode_tag read_be32
decode_context_object_id_tag octets expected_tag = do
  tag ← decode_tag octets
  guard (tag.tag == expected_tag && tag.context && (tag.size == 4))
  let encoded = read_be32 octets tag.header_length
  some (
    record { object_type = encoded / 2 ^ 22; object_instance = bit_and encoded max_instance },
    tag.header_length + tag.size,
  )

unfoldable pub decode_context_object_id : List ℕ → Option (ObjectId × ℕ)
unfolding decode_tag read_be32
decode_context_object_id octets = do
  tag ← decode_tag octets
  guard (tag.tag == 0 && tag.context && (tag.size == 4))
  let encoded = read_be32 octets tag.header_length
  some (
    record { object_type = encoded / 2 ^ 22; object_instance = bit_and encoded max_instance },
    tag.header_length + tag.size,
  )

-- The octets used, which is one.
unfoldable pub consume_special_tag : List ℕ → ℕ → Bool → Option ℕ
consume_special_tag octets tag opening =
    if length octets == 0 || leb 15 tag
    then none
    else if get_or octets 0 0 == bit_or (tag * 2 ^ 4) (if opening then 0x0E else 0x0F)
    then some 1
    else none

-- The loop over the characters of a string; every one is printable ASCII.
unfoldable pub copy_characters : List ℕ → ℕ → ℕ → Option (List ℕ)
copy_characters octets offset zero = some []
copy_characters octets offset (suc count) =
    let c = get_or octets offset 0 in
    let rest = copy_characters octets (offset + 1) count in
    if ltb c 0x20 || ltb 0x7E c then none else (rest >>= λ text. some (c ∷ text))

unfoldable pub decode_context_character_string : List ℕ → ℕ → ℕ → Option (List ℕ × ℕ)
unfolding decode_tag copy_characters
decode_context_character_string octets expected_tag value_capacity = do
  tag ← decode_tag octets
  guard (tag.tag == expected_tag && tag.context && leb 2 tag.size && leb tag.size value_capacity)
  let encoding = get_or octets tag.header_length 0
  guard (encoding == 0 || encoding == 5)
  text ← copy_characters octets (tag.header_length + 1) (tag.size - 1)
  some (text, tag.header_length + tag.size)
