-- ===== src/Codec/Writer/Laws.antt =====
-- What the encoders write when it fits: `Writes w bs u` says that `u` is `w` with `bs` behind it,
-- or has failed because `bs` does not fit.
use esp32_p4_bacnet_switches.Base.{
  ℕ, zero, suc, ◌+◌, ◌*◌, ◌/◌, ◌^◌, ◌≤◌, ◌<◌, ◌≡◌, refl, ◌∙◌, Bool, true, false, List, [], ◌∷◌,
  ◌++◌, arith, length, length-append, as_u8, inl, inr, Bool-cases, bit_or, append_assoc, append-nil,
  leb,
}
use esp32_p4_bacnet_switches.Base.Bits.{bit_or_nibble, bit_or_low_three}
use esp32_p4_bacnet_switches.Codec.Writer.{
  Writer, write_u8, write_bytes, encode_tag, class_bit, encode_unsigned_body, write_be32,
  unsigned_length, encode_context_unsigned, encode_context_object_id, object_identifier,
}
use native.Mathlib.Decide.{dec_le}

pub record Writes (w : Writer) (bs : List ℕ) (u : Writer) : Type 0 where
  pub same_capacity : u.capacity ≡ w.capacity
  pub not_failed : w.failed ≡ false → length w.bytes + length bs ≤ w.capacity → u.failed ≡ false
  pub appended :
      w.failed ≡ false → length w.bytes + length bs ≤ w.capacity → u.bytes ≡ w.bytes ++ bs
  pub overrun :
      w.capacity < length w.bytes + length bs → length w.bytes ≤ w.capacity → u.failed ≡ true
  pub sticky : w.failed ≡ true → u.failed ≡ true

pub Writes-nil : (w : Writer) → Writes w [] w
Writes-nil w = record {
  same_capacity = refl;
  not_failed = λ h k. h;
  appended = λ h k. rw append-nil;
  overrun = λ h k. absurd (omega arith);
  sticky = λ h. h;
}

Writes-bytes_step : (w : Writer) (bs : List ℕ) → Writes w bs (write_bytes w bs)
unfolding write_bytes
Writes-bytes_step w bs = record {
  same_capacity = ground arith;
  not_failed = ground arith;
  appended = ground arith;
  overrun = ground arith;
  sticky = ground arith;
}

Writes-u8_step : (w : Writer) (b : ℕ) → Writes w (b ∷ []) (write_u8 w b)
unfolding write_u8
Writes-u8_step w b = record {
  same_capacity = ground arith;
  not_failed = ground arith;
  appended = ground arith;
  overrun = ground arith;
  sticky = ground arith;
}

module _ {w u v : Writer} {bs cs : List ℕ} (p : Writes w bs u) (q : Writes u cs v) where
  fits_first :
      length w.bytes + length (bs ++ cs) ≤ w.capacity → length w.bytes + length bs ≤ w.capacity
  fits_first k = omega (arith, length-append bs cs)

  fits_second :
      w.failed ≡ false
      → length w.bytes + length (bs ++ cs) ≤ w.capacity
      → length u.bytes + length cs ≤ u.capacity
  fits_second h k =
      rw (p.appended h (fits_first k), p.same_capacity)
        (omega (arith, length-append bs cs, length-append w.bytes bs))

  overrun_trans :
      w.capacity < length w.bytes + length (bs ++ cs)
      → length w.bytes ≤ w.capacity
      → v.failed ≡ true
  overrun_trans over start = elim (Bool-cases w.failed) [
    | inl f ↦ q.sticky (p.sticky f)
    | inr ok ↦ elim (dec_le (length w.bytes + length bs) w.capacity) [
      | no n ↦ q.sticky (p.overrun (omega arith) start)
      | yes fit ↦
          let e = p.appended ok fit in
          q.overrun
            (rw (e, p.same_capacity) (omega (arith, length-append bs cs, length-append w.bytes bs)))
            (rw (e, p.same_capacity) (omega (arith, length-append w.bytes bs)))
    ]
  ]

  pub Writes-trans : Writes w (bs ++ cs) v
  Writes-trans = record {
    same_capacity = q.same_capacity ∙ p.same_capacity;
    not_failed = λ h k. q.not_failed (p.not_failed h (fits_first k)) (fits_second h k);
    appended = λ h k.
        q.appended (p.not_failed h (fits_first k)) (fits_second h k)
        ∙ rw (p.appended h (fits_first k)) (append_assoc w.bytes bs cs);
    overrun = overrun_trans;
    sticky = λ h. q.sticky (p.sticky h);
  }

module _ {w : Writer} {bs : List ℕ} where
  pub Writes-u8 : (u : Writer) (b : ℕ) → Writes w bs u → Writes w (bs ++ (b ∷ [])) (write_u8 u b)
  Writes-u8 u b p = Writes-trans p (Writes-u8_step u b)

  pub Writes-bytes :
      (u : Writer) (cs : List ℕ) → Writes w bs u → Writes w (bs ++ cs) (write_bytes u cs)
  Writes-bytes u cs p = Writes-trans p (Writes-bytes_step u cs)

-- The octets of `value`, the highest first, as the encoders cut them.
abbrev pub be_octets : ℕ → ℕ → List ℕ
be_octets value zero = []
be_octets value (suc n) = as_u8 (value / 2 ^ (n * 8)) ∷ be_octets value n

body_step :
    (u : Writer) (value n : ℕ) → Writes u (be_octets value n) (encode_unsigned_body u value n)
unfolding encode_unsigned_body
body_step u value zero = Writes-nil u
body_step u value (suc n) =
    Writes-trans (Writes-u8_step u (as_u8 (value / 2 ^ (n * 8))))
      (body_step (write_u8 u (as_u8 (value / 2 ^ (n * 8)))) value n)

be32_step : (u : Writer) (value : ℕ) → Writes u (be_octets value 4) (write_be32 u value)
unfolding write_be32
be32_step u value =
    let same : value / 1 ≡ value = omega arith in
    rw same (Writes-u8 _ _ (Writes-u8 _ _ (Writes-u8 _ _ (Writes-u8_step u _))))

module _ {w : Writer} {bs : List ℕ} where
  pub Writes-unsigned_body :
      (u : Writer) (value n : ℕ)
      → Writes w bs u
      → Writes w (bs ++ be_octets value n) (encode_unsigned_body u value n)
  Writes-unsigned_body u value n p = Writes-trans p (body_step u value n)

  pub Writes-be32 :
      (u : Writer) (value : ℕ)
      → Writes w bs u
      → Writes w (bs ++ be_octets value 4) (write_be32 u value)
  Writes-be32 u value p = Writes-trans p (be32_step u value)

-- The single octet of a short tag: number, class, length.
tag_octet :
    (tag low : ℕ) (context : Bool)
    → tag < 15
    → low ≤ 5
    → as_u8 (bit_or (bit_or (tag * 2 ^ 4) (class_bit context)) low)
      ≡ tag * 16 + class_bit context + low
tag_octet tag low true h k = ground (arith, bit_or_nibble tag 8, bit_or_low_three (tag * 2 + 1) low)
tag_octet tag low false h k = ground (arith, bit_or_nibble tag 0, bit_or_low_three (tag * 2) low)

-- A tag of a value of at most four octets is one octet.
pub Writes-short_tag :
    {w u : Writer} {bs : List ℕ} (tag : ℕ) (context : Bool) (len : ℕ)
    → tag < 15
    → len ≤ 4
    → Writes w bs u
    → Writes w (bs ++ ((tag * 16 + class_bit context + len) ∷ [])) (encode_tag u tag context len)
unfolding encode_tag
Writes-short_tag {w} {u} {bs} tag context len h k p =
    let narrow : leb 15 tag ≡ false = ground arith in
    let short : leb 254 len ≡ false = ground arith in
    let inline : leb len 4 ≡ true = ground arith in
    rw (narrow, short, inline, tag_octet tag len context h (omega arith)) (Writes-u8 u _ p)

-- The octets of a context-tagged unsigned value, and of a context-tagged object identifier.
abbrev pub context_unsigned_octets : ℕ → ℕ → List ℕ
context_unsigned_octets tag value =
    (tag * 16 + 8 + unsigned_length value) ∷ be_octets value (unsigned_length value)

abbrev pub context_object_id_octets : ℕ → ℕ → ℕ → List ℕ
context_object_id_octets tag object_type inst =
    (tag * 16 + 8 + 4) ∷ be_octets (object_identifier object_type inst) 4

pub unsigned_length_bounds :
    (v : ℕ)
    → (1 ≤ unsigned_length v) × (unsigned_length v ≤ 4) × (v < 2 ^ 32 → v < 256 ^ unsigned_length v)
unfolding unsigned_length
unsigned_length_bounds v = ground arith

module _ {w : Writer} {bs : List ℕ} where
  pub Writes-context_unsigned :
      (u : Writer) (tag value : ℕ)
      → tag < 15
      → Writes w bs u
      → Writes w (bs ++ context_unsigned_octets tag value) (encode_context_unsigned u tag value)
  unfolding encode_context_unsigned
  Writes-context_unsigned u tag value h p =
      let (_, short, _) = unsigned_length_bounds value in
      rw
        (← append_assoc bs ((tag * 16 + 8 + unsigned_length value) ∷ [])
          (be_octets value (unsigned_length value)))
        (Writes-unsigned_body _ value (unsigned_length value)
          (Writes-short_tag tag true (unsigned_length value) h short p))

  pub Writes-context_object_id :
      (u : Writer) (tag object_type inst : ℕ)
      → tag < 15
      → Writes w bs u
      → Writes w
          (bs ++ context_object_id_octets tag object_type inst)
          (encode_context_object_id u tag object_type inst)
  unfolding encode_context_object_id
  Writes-context_object_id u tag object_type inst h p =
      rw
        (← append_assoc bs ((tag * 16 + 8 + 4) ∷ [])
          (be_octets (object_identifier object_type inst) 4))
        (Writes-be32 _ (object_identifier object_type inst)
          (Writes-short_tag tag true 4 h (omega arith) p))
