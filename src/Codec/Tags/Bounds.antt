-- ===== src/Codec/Tags/Bounds.antt =====
-- How much of their input the decoders report as used. Reads are not modelled as accesses to memory.
use esp32_p4_bacnet_switches.Base.{ℕ, ◌+◌, ◌≤◌, ◌<◌, ◌≡◌, List, some, arith, length}
use esp32_p4_bacnet_switches.Codec.Tags.{DecodedTag, decode_tag, decode_context_unsigned}

abbrev pub IsByte : ℕ → Type 0
IsByte b = b < 256

-- A tag that is decoded has one to three header octets, and its header and value lie within the
-- input.
pub decode_tag_bounds :
    (octets : List ℕ) {t : DecodedTag}
    → decode_tag octets ≡ some t
    → (1 ≤ t.header_length) × (t.header_length ≤ 3) × (t.header_length + t.size ≤ length octets)
unfolding decode_tag
decode_tag_bounds octets h = ground arith

pub decode_context_unsigned_bounds :
    (octets : List ℕ) (tag : ℕ) {v used : ℕ}
    → decode_context_unsigned octets tag ≡ some (v, used)
    → (2 ≤ used) × (used ≤ length octets)
unfolding decode_context_unsigned
decode_context_unsigned_bounds octets tag h = ground arith
