-- ===== src/Codec/Writer.antt =====
-- main/bacnet_codec.c, lines 188-459: the bounded output buffer and the encoders of BACnet data.
-- A `writer_t` is the bytes that stand in its buffer so far, so `length` is their number.
-- `capacity - length` does not wrap, since no operation takes `length` past `capacity`.
-- A C string is the list of its bytes, and the end of the list is its terminator; NULL is `[]`.
-- A `float` is the 32 bits that `memcpy` reads of it.
pub mod Grows
pub mod Laws
use esp32_p4_bacnet_switches.Base.{
  ℕ, zero, suc, ◌+◌, ◌-◌, ◌*◌, ◌/◌, ◌%◌, ◌^◌, bit_and, bit_or, Bool, true, false, ◌||◌, ◌&&◌, List,
  [], ◌∷◌, ◌++◌, Option, none, some, ltb, leb, ◌==◌, if◌then◌else◌, length, get_or, set, take,
  replicate, as_u8, as_u32,
}

pub record Writer : Type 0 where
  pub bytes : List ℕ
  pub capacity : ℕ
  pub failed : Bool

abbrev pub fresh : ℕ → Writer
fresh capacity = record { bytes = []; capacity = capacity; failed = false }

abbrev pub fail : Writer → Writer
fail w = record w { failed = true }

unfoldable pub write_u8 : Writer → ℕ → Writer
write_u8 w value =
    if w.failed || leb w.capacity (length w.bytes)
    then fail w
    else (record w { bytes = w.bytes ++ (value ∷ []) })

unfoldable pub write_bytes : Writer → List ℕ → Writer
write_bytes w value =
    if w.failed || ltb (w.capacity - length w.bytes) (length value)
    then fail w
    else (record w { bytes = w.bytes ++ value })

unfoldable pub write_be16 : Writer → ℕ → Writer
write_be16 w value = write_u8 (write_u8 w (as_u8 (value / 2 ^ 8))) (as_u8 value)

unfoldable pub write_be32 : Writer → ℕ → Writer
write_be32 w value =
    let w1 = write_u8 w (as_u8 (value / 2 ^ 24)) in
    let w2 = write_u8 w1 (as_u8 (value / 2 ^ 16)) in
    let w3 = write_u8 w2 (as_u8 (value / 2 ^ 8)) in write_u8 w3 (as_u8 value)

unfoldable pub unsigned_length : ℕ → ℕ
unsigned_length value =
    if leb value 0xff
    then 1
    else if leb value 0xffff
    then 2
    else if leb value 0xffffff
    then 3
    else 4

abbrev pub class_bit : Bool → ℕ
class_bit true = 0x08
class_bit false = 0

unfoldable pub encode_tag : Writer → ℕ → Bool → ℕ → Writer
encode_tag w tag context len =
    if leb 15 tag || leb 254 len
    then fail w
    else if leb len 4
    then write_u8 w (as_u8 (bit_or (bit_or (tag * 2 ^ 4) (class_bit context)) len))
    else write_u8 (write_u8 w (as_u8 (bit_or (bit_or (tag * 2 ^ 4) (class_bit context)) 5)))
        (as_u8 len)

-- The loop counts `offset` down from `length`; its body writes byte `offset - 1`.
unfoldable pub encode_unsigned_body : Writer → ℕ → ℕ → Writer
encode_unsigned_body w value zero = w
encode_unsigned_body w value (suc offset) =
    encode_unsigned_body (write_u8 w (as_u8 (value / 2 ^ (offset * 8)))) value offset

unfoldable pub encode_context_unsigned : Writer → ℕ → ℕ → Writer
encode_context_unsigned w tag value =
    let len = unsigned_length value in encode_unsigned_body (encode_tag w tag true len) value len

unfoldable pub encode_application_unsigned : Writer → ℕ → Writer
encode_application_unsigned w value =
    let len = unsigned_length value in encode_unsigned_body (encode_tag w 2 false len) value len

unfoldable pub encode_application_enumerated : Writer → ℕ → Writer
encode_application_enumerated w value =
    let len = unsigned_length value in encode_unsigned_body (encode_tag w 9 false len) value len

unfoldable pub encode_application_boolean : Writer → Bool → Writer
encode_application_boolean w value = write_u8 w (as_u8 (bit_or 0x10 (if value then 1 else 0)))

unfoldable pub encode_application_octet_string : Writer → List ℕ → Writer
encode_application_octet_string w value = write_bytes (encode_tag w 6 false (length value)) value

unfoldable pub encode_application_real : Writer → ℕ → Writer
encode_application_real w bits = write_be32 (encode_tag w 4 false 4) bits

unfoldable pub encode_opening_tag : Writer → ℕ → Writer
encode_opening_tag w tag =
    if leb 15 tag then fail w else write_u8 w (as_u8 (bit_or (tag * 2 ^ 4) 0x0E))

unfoldable pub encode_closing_tag : Writer → ℕ → Writer
encode_closing_tag w tag =
    if leb 15 tag then fail w else write_u8 w (as_u8 (bit_or (tag * 2 ^ 4) 0x0F))

abbrev pub max_instance : ℕ
max_instance = 4194303

unfoldable pub object_identifier : ℕ → ℕ → ℕ
object_identifier object_type inst =
    bit_or (as_u32 (object_type * 2 ^ 22)) (bit_and inst max_instance)

unfoldable pub bounded_string_length : List ℕ → ℕ → ℕ
bounded_string_length [] maximum = 0
bounded_string_length (c ∷ text) zero = 0
bounded_string_length (c ∷ text) (suc maximum) =
    if c == 0 then 0 else suc (bounded_string_length text maximum)

unfoldable pub encode_context_object_id : Writer → ℕ → ℕ → ℕ → Writer
encode_context_object_id w tag object_type inst =
    write_be32 (encode_tag w tag true 4) (object_identifier object_type inst)

unfoldable pub encode_application_object_id : Writer → ℕ → ℕ → Writer
encode_application_object_id w object_type inst =
    write_be32 (encode_tag w 12 false 4) (object_identifier object_type inst)

abbrev pub printable : ℕ → Bool
printable c = leb 0x20 c && leb c 0x7E

-- The loop over the characters of the text.
unfoldable pub write_characters : Writer → List ℕ → Writer
write_characters w [] = w
write_characters w (c ∷ text) = write_characters (write_u8 w (if printable c then c else b'-')) text

unfoldable pub encode_application_character_string : Writer → List ℕ → Writer
encode_application_character_string w text =
    let len = bounded_string_length text 240 in
    write_characters (write_u8 (encode_tag w 7 false (len + 1)) 0) (take len text)

-- The loop over `set_bits`; `none` is the failure on a bit past `bits_used`.
unfoldable pub set_all_bits : ℕ → List ℕ → List ℕ → Option (List ℕ)
set_all_bits bits_used encoded [] = some encoded
set_all_bits bits_used encoded (b ∷ bits) =
    let octet = as_u8 (bit_or (get_or encoded (b / 8) 0) (as_u8 (2 ^ (7 - b % 8)))) in
    let rest = set_all_bits bits_used (set encoded (b / 8) octet) bits in
    if leb bits_used b then none else rest

unfoldable pub encode_application_bit_string : Writer → ℕ → List ℕ → Writer
encode_application_bit_string w bits_used set_bits =
    let byte_count = (bits_used + 7) / 8 in
    if ltb 8 byte_count then fail w else elim (set_all_bits bits_used (replicate 8 0) set_bits) [
      | none ↦ fail w
      | some encoded ↦
          write_bytes
            (write_u8 (encode_tag w 8 false (byte_count + 1)) (as_u8 (byte_count * 8 - bits_used)))
            (take byte_count encoded)
    ]
