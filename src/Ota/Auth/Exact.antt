-- ===== src/Ota/Auth/Exact.antt =====
-- The comparison of the header: what it accepts. Its timing is not modelled.
use esp32_p4_bacnet_switches.Base.{
  ℕ, zero, suc, ◌+◌, ◌-◌, ◌<◌, ◌≡◌, ◌↔◌, refl, sym, ap, ◌∙◌, bit_xor, true, List, [], ◌∷◌, ◌++◌,
  some, ◌==◌, ==_iff, ltb, length, get_or, c_string, length-append, get_or-append_left,
  get_or-append_right, arith, Bool-cases, inl, inr,
}
use esp32_p4_bacnet_switches.Base.Zero.{bit_or_zero_iff, bit_xor_zero_iff}
use esp32_p4_bacnet_switches.Ota.Auth.{
  bearer_prefix, gather_difference, ota_authorization_valid, ota_token_configuration_valid,
}

-- The first `count` bytes from the offset on are the expected ones.
abbrev Agree : List ℕ → ℕ → List ℕ → ℕ → Type 0
Agree authorization offset expected count =
    (i : ℕ) → i < count → get_or authorization (offset + i) 0 ≡ get_or expected i 0

Agree-one_more :
    (a : List ℕ) (offset : ℕ) (e : List ℕ) (n : ℕ)
    → Agree a offset e n
    → get_or a (offset + n) 0 ≡ get_or e n 0
    → Agree a offset e (suc n)
Agree-one_more a offset e n same at_n i below = elim (Bool-cases (i == n)) [
  | inl last ↦ let here : i ≡ n = (==_iff i n).0 last in rw here at_n
  | inr before ↦ same i (ground arith)
]

gather_difference-Agree :
    (authorization : List ℕ) (offset : ℕ) (expected : List ℕ) (difference count : ℕ)
    → (gather_difference authorization offset expected difference count ≡ 0)
      ↔ ((difference ≡ 0) × Agree authorization offset expected count)
unfolding gather_difference
gather_difference-Agree a offset e d zero =
    (λ h. (h, λ i below. absurd (omega arith)), λ (h, same). h)
gather_difference-Agree a offset e d (suc n) =
    let rest = gather_difference a offset e d n in
    let last = bit_xor (get_or a (offset + n) 0) (get_or e n 0) in
    let induction = gather_difference-Agree a offset e d n in
    let both = bit_or_zero_iff rest last in
    let at_n = bit_xor_zero_iff (get_or a (offset + n) 0) (get_or e n 0) in
    (
      λ h.
          let (zero_rest, zero_last) = both.0 h in
          let (start, same) = induction.0 zero_rest in
          (start, Agree-one_more a offset e n same (at_n.0 zero_last)),
      λ (start, same).
          both.1
            (induction.1 (start, λ i below. same i (omega arith)), at_n.1 (same n (omega arith))),
    )

lists_agree :
    (xs ys : List ℕ)
    → length xs ≡ length ys
    → ((i : ℕ) → i < length xs → get_or xs i 0 ≡ get_or ys i 0)
    → xs ≡ ys
lists_agree [] [] len same = refl
lists_agree [] (y ∷ ys) len same = absurd (omega arith)
lists_agree (x ∷ xs) [] len same = absurd (omega arith)
lists_agree (x ∷ xs) (y ∷ ys) len same =
    rw
      (
        same 0 (omega arith),
        lists_agree xs ys (omega arith) (λ i below. same (suc i) (omega arith)),
      )
      refl

get_or-c_string :
    (token : List ℕ) (i : ℕ)
    → i < length (c_string token)
    → get_or (c_string token) i 0 ≡ get_or token i 0
get_or-c_string [] i below = refl
get_or-c_string (b ∷ bs) zero below = ground arith
get_or-c_string (b ∷ bs) (suc i) below = ground (arith, get_or-c_string bs i)

Agree-at :
    (a token : List ℕ)
    → length a ≡ length bearer_prefix + length (c_string token)
    → Agree a 0 bearer_prefix 7
    → Agree a 7 token (length (c_string token))
    → (i : ℕ) → i < length a
    → get_or a i 0 ≡ get_or (bearer_prefix ++ c_string token) i 0
Agree-at a token len front back i below = elim (Bool-cases (ltb i 7)) [
  | inl early ↦
      let start : 0 + i ≡ i = omega arith in
      rw start at (front i (ground arith))
      ∙ sym (get_or-append_left bearer_prefix (c_string token) i (ground arith))
  | inr late ↦
      let n = i - 7 in
      let here : 7 + n ≡ i = ground arith in
      let in_token : n < length (c_string token) = ground arith in
      rw (sym here) (
        back n in_token
        ∙ sym (get_or-c_string token n in_token)
        ∙ sym (get_or-append_right bearer_prefix (c_string token) n))
]

-- Both loops together: the header is the prefix and then the token.
Agree-both :
    (a token : List ℕ)
    → length a ≡ length bearer_prefix + length (c_string token)
    → Agree a 0 bearer_prefix 7
    → Agree a 7 token (length (c_string token))
    → a ≡ bearer_prefix ++ c_string token
Agree-both a token len front back =
    lists_agree a (bearer_prefix ++ c_string token)
      (omega (arith, len, length-append bearer_prefix (c_string token)))
      (λ i below. Agree-at a token len front back i below)

Agree-append :
    (token : List ℕ)
    → let a = bearer_prefix ++ c_string token in
      Agree a 0 bearer_prefix 7 × Agree a 7 token (length (c_string token))
Agree-append token = (
  λ i below.
      let start : 0 + i ≡ i = omega arith in
      rw start (get_or-append_left bearer_prefix (c_string token) i below),
  λ i below. get_or-append_right bearer_prefix (c_string token) i ∙ get_or-c_string token i below,
)

abbrev both_loops : List ℕ → List ℕ → ℕ
both_loops a token =
    gather_difference a (length bearer_prefix) token
      (gather_difference a 0 bearer_prefix 0 (length bearer_prefix)) (length (c_string token))

abbrev PassesTests : List ℕ → List ℕ → Type 0
PassesTests a token =
    (ota_token_configuration_valid (some token) ≡ true)
    × (length a ≡ length bearer_prefix + length (c_string token))
    × (both_loops a token ≡ 0)

passes_tests :
    (a token : List ℕ)
    → (ota_authorization_valid (some a) (length a) (some token) ≡ true) ↔ PassesTests a token
unfolding ota_authorization_valid
passes_tests a token = (λ h. (ground arith, ground arith, ground arith), λ (p, q, r). ground arith)

outer_append :
    (token : List ℕ)
    → let a = bearer_prefix ++ c_string token in
      Agree a 0 bearer_prefix 7 → Agree a 7 token (length (c_string token)) → both_loops a token ≡ 0
outer_append token front back =
    let a = bearer_prefix ++ c_string token in
    (gather_difference-Agree a 7 token (gather_difference a 0 bearer_prefix 0 7)
        (length (c_string token))).1
      ((gather_difference-Agree a 0 bearer_prefix 0 7).1 (refl, front), back)

pub ota_authorization_valid-exact :
    (a token : List ℕ)
    → (ota_authorization_valid (some a) (length a) (some token) ≡ true) ↔ (
        (ota_token_configuration_valid (some token) ≡ true) × (a ≡ bearer_prefix ++ c_string token))
ota_authorization_valid-exact a token =
    let n = length (c_string token) in
    let first = gather_difference a 0 bearer_prefix 0 7 in
    let outer = gather_difference-Agree a 7 token first n in
    let inner = gather_difference-Agree a 0 bearer_prefix 0 7 in
    (
      λ h.
          let (configured, len, none_differ) = (passes_tests a token).0 h in
          let (front_zero, back) = outer.0 none_differ in
          (configured, Agree-both a token len (inner.0 front_zero).1 back),
      λ (configured, exact).
          let (front, back) = Agree-append token in
          (passes_tests a token).1 (
            configured,
            ap length exact ∙ length-append bearer_prefix (c_string token),
            rw exact (outer_append token front back),
          ),
    )
