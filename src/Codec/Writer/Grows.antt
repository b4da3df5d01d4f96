-- ===== src/Codec/Writer/Grows.antt =====
-- What every encoder does to the buffer, whatever it is given: it stays inside the capacity, and
-- a failure is final.
use esp32_p4_bacnet_switches.Base.{
  ℕ, zero, suc, ◌≤◌, ◌≡◌, refl, ◌∙◌, Bool, true, false, List, [], ◌∷◌, arith, length, length-append,
  if◌then◌else◌, replicate, Option, none, some, take, as_u8, ◌*◌, ◌/◌, ◌^◌,
}
use esp32_p4_bacnet_switches.Codec.Writer.{
  Writer, fail, write_u8, write_bytes, write_be16, write_be32, encode_tag, encode_unsigned_body,
  encode_context_unsigned, encode_application_unsigned, encode_application_enumerated,
  encode_application_boolean, encode_application_octet_string, encode_application_real,
  encode_opening_tag, encode_closing_tag, encode_context_object_id, encode_application_object_id,
  write_characters, encode_application_character_string, set_all_bits, printable,
  encode_application_bit_string,
}

pub record Grows (w w' : Writer) : Type 0 where
  pub same_capacity : w'.capacity ≡ w.capacity
  pub bounded : length w.bytes ≤ w.capacity → length w'.bytes ≤ w'.capacity
  pub longer : length w.bytes ≤ length w'.bytes
  pub sticky : w.failed ≡ true → w'.failed ≡ true

pub Grows-refl : (w : Writer) → Grows w w
Grows-refl w = record {
  same_capacity = refl;
  bounded = λ h. h;
  longer = omega arith;
  sticky = λ h. h;
}

pub Grows-trans : {u v w : Writer} → Grows u v → Grows v w → Grows u w
Grows-trans p q = record {
  same_capacity = q.same_capacity ∙ p.same_capacity;
  bounded = λ h. q.bounded (p.bounded h);
  longer = omega arith;
  sticky = λ h. q.sticky (p.sticky h);
}

fail_step : (w : Writer) → Grows w (fail w)
fail_step w = record {
  same_capacity = refl;
  bounded = λ h. h;
  longer = omega arith;
  sticky = λ h. refl;
}

write_u8_step : (w : Writer) (b : ℕ) → Grows w (write_u8 w b)
unfolding write_u8
write_u8_step w b = record {
  same_capacity = ground arith;
  bounded = ground (arith, length-append w.bytes (b ∷ []));
  longer = ground (arith, length-append w.bytes (b ∷ []));
  sticky = ground arith;
}

write_bytes_step : (w : Writer) (bs : List ℕ) → Grows w (write_bytes w bs)
unfolding write_bytes
write_bytes_step w bs = record {
  same_capacity = ground arith;
  bounded = ground (arith, length-append w.bytes bs);
  longer = ground (arith, length-append w.bytes bs);
  sticky = ground arith;
}

-- Each encoder extends whatever grew from `w` before it: `search` goes backwards along a chain.
module _ {w : Writer} where
  pub fail-Grows : (u : Writer) → Grows w u → Grows w (fail u)
  fail-Grows u g = Grows-trans g (fail_step u)

  pub write_u8-Grows : (u : Writer) (b : ℕ) → Grows w u → Grows w (write_u8 u b)
  write_u8-Grows u b g = Grows-trans g (write_u8_step u b)

  pub write_bytes-Grows : (u : Writer) (bs : List ℕ) → Grows w u → Grows w (write_bytes u bs)
  write_bytes-Grows u bs g = Grows-trans g (write_bytes_step u bs)

  -- A branch of an encoder.
  pub if-Grows : (t : Bool) {u v : Writer} → Grows w u → Grows w v → Grows w (if t then u else v)
  if-Grows true p q = p
  if-Grows false p q = q

  pub write_be16-Grows : (u : Writer) (v : ℕ) → Grows w u → Grows w (write_be16 u v)
  unfolding write_be16
  write_be16-Grows u v g = search write_u8-Grows

  write_be32-Grows : (u : Writer) (v : ℕ) → Grows w u → Grows w (write_be32 u v)
  unfolding write_be32
  write_be32-Grows u v g = search write_u8-Grows

  encode_tag-Grows :
      (u : Writer) (t : ℕ) (c : Bool) (n : ℕ) → Grows w u → Grows w (encode_tag u t c n)
  unfolding encode_tag
  encode_tag-Grows u t c n g = search (if-Grows, fail-Grows, write_u8-Grows)

  encode_unsigned_body-Grows :
      (u : Writer) (v n : ℕ) → Grows w u → Grows w (encode_unsigned_body u v n)
  unfolding encode_unsigned_body
  encode_unsigned_body-Grows u v zero g = g
  encode_unsigned_body-Grows u v (suc n) g =
      encode_unsigned_body-Grows (write_u8 u (as_u8 (v / 2 ^ (n * 8)))) v n (write_u8-Grows u _ g)

  write_characters-Grows :
      (u : Writer) (text : List ℕ) → Grows w u → Grows w (write_characters u text)
  unfolding write_characters
  write_characters-Grows u [] g = g
  write_characters-Grows u (c ∷ text) g =
      write_characters-Grows (write_u8 u (if printable c then c else b'-')) text
        (write_u8-Grows u _ g)

ruleset parts = (
  fail-Grows, write_u8-Grows, write_bytes-Grows, write_be32-Grows, encode_tag-Grows,
  encode_unsigned_body-Grows, write_characters-Grows, if-Grows,
)

module _ {w : Writer} where
  pub encode_context_unsigned-Grows :
      (u : Writer) (t v : ℕ) → Grows w u → Grows w (encode_context_unsigned u t v)
  unfolding encode_context_unsigned
  encode_context_unsigned-Grows u t v g = search parts

  pub encode_application_unsigned-Grows :
      (u : Writer) (v : ℕ) → Grows w u → Grows w (encode_application_unsigned u v)
  unfolding encode_application_unsigned
  encode_application_unsigned-Grows u v g = search parts

  pub encode_application_enumerated-Grows :
      (u : Writer) (v : ℕ) → Grows w u → Grows w (encode_application_enumerated u v)
  unfolding encode_application_enumerated
  encode_application_enumerated-Grows u v g = search parts

  pub encode_application_boolean-Grows :
      (u : Writer) (b : Bool) → Grows w u → Grows w (encode_application_boolean u b)
  unfolding encode_application_boolean
  encode_application_boolean-Grows u b g = search parts

  pub encode_application_octet_string-Grows :
      (u : Writer) (bs : List ℕ) → Grows w u → Grows w (encode_application_octet_string u bs)
  unfolding encode_application_octet_string
  encode_application_octet_string-Grows u bs g = search parts

  pub encode_application_real-Grows :
      (u : Writer) (v : ℕ) → Grows w u → Grows w (encode_application_real u v)
  unfolding encode_application_real
  encode_application_real-Grows u v g = search parts

  pub encode_opening_tag-Grows : (u : Writer) (t : ℕ) → Grows w u → Grows w (encode_opening_tag u t)
  unfolding encode_opening_tag
  encode_opening_tag-Grows u t g = search parts

  pub encode_closing_tag-Grows : (u : Writer) (t : ℕ) → Grows w u → Grows w (encode_closing_tag u t)
  unfolding encode_closing_tag
  encode_closing_tag-Grows u t g = search parts

  pub encode_context_object_id-Grows :
      (u : Writer) (t o i : ℕ) → Grows w u → Grows w (encode_context_object_id u t o i)
  unfolding encode_context_object_id
  encode_context_object_id-Grows u t o i g = search parts

  pub encode_application_object_id-Grows :
      (u : Writer) (o i : ℕ) → Grows w u → Grows w (encode_application_object_id u o i)
  unfolding encode_application_object_id
  encode_application_object_id-Grows u o i g = search parts

  pub encode_application_character_string-Grows :
      (u : Writer) (text : List ℕ)
      → Grows w u
      → Grows w (encode_application_character_string u text)
  unfolding encode_application_character_string
  encode_application_character_string-Grows u text g = search parts

  bits-Grows :
      (u : Writer) (n m p : ℕ) (o : Option (List ℕ))
      → Grows w u
      → Grows w (elim o [
        | none ↦ fail u
        | some encoded ↦ write_bytes (write_u8 (encode_tag u 8 false n) m) (take p encoded)
      ])
  bits-Grows u n m p none g = fail-Grows u g
  bits-Grows u n m p (some encoded) g = search parts

  pub encode_application_bit_string-Grows :
      (u : Writer) (n : ℕ) (bits : List ℕ)
      → Grows w u
      → Grows w (encode_application_bit_string u n bits)
  unfolding encode_application_bit_string
  encode_application_bit_string-Grows u n bits g =
      if-Grows _ (fail-Grows u g) (bits-Grows u _ _ _ (set_all_bits n (replicate 8 0) bits) g)

-- The encoders, for `search`.
pub ruleset encoders = (
  Grows-refl, fail-Grows, write_u8-Grows, write_bytes-Grows, write_be16-Grows,
  encode_context_unsigned-Grows, encode_application_unsigned-Grows,
  encode_application_enumerated-Grows, encode_application_boolean-Grows,
  encode_application_octet_string-Grows, encode_application_real-Grows, encode_opening_tag-Grows,
  encode_closing_tag-Grows, encode_context_object_id-Grows, encode_application_object_id-Grows,
  encode_application_character_string-Grows, encode_application_bit_string-Grows, if-Grows,
)
