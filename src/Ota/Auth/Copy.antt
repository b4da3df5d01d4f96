-- ===== src/Ota/Auth/Copy.antt =====
-- The token that is read from the firmware image.
use esp32_p4_bacnet_switches.Base.{
  ℕ, zero, suc, ◌+◌, ◌-◌, ◌<◌, ◌≤◌, ◌≡◌, refl, ap, true, false, List, [], ◌∷◌, ◌++◌, some, length,
  get_or, take-append, length-append, get_or-append_left, get_or-append_right, all_of-get_or,
  all_of, arith,
}
use esp32_p4_bacnet_switches.Ota.Auth.{
  is_token_byte, is_padding, count_length, bounded_length, ota_token_configuration_valid,
  trimmed_length, ota_copy_embedded_token,
}

token_byte-is_padding : (b : ℕ) → is_token_byte b ≡ true → is_padding b ≡ false
token_byte-is_padding b good = ground arith

-- The loop from the end of the token and `n` bytes of padding on.
trimmed_length-from :
    (token padding : List ℕ) (n : ℕ)
    → 1 ≤ length token
    → n ≤ length padding
    → all_of is_token_byte token ≡ true
    → all_of is_padding padding ≡ true
    → trimmed_length (token ++ padding) (n + length token) ≡ length token
unfolding trimmed_length
trimmed_length-from token padding zero some_byte inside good blank =
    let m = length token - 1 in
    let total : 0 + length token ≡ suc m = omega arith in
    let size : length token ≡ suc m = omega arith in
    rw (total, size)
      (ground (
        arith,
        get_or-append_left token padding m (omega arith),
        token_byte-is_padding (get_or token m 0)
            (all_of-get_or is_token_byte token m good (omega arith)),
      ))
trimmed_length-from token padding (suc n) some_byte inside good blank =
    let total : suc n + length token ≡ suc (length token + n) = omega arith in
    let back : length token + n ≡ n + length token = omega arith in
    rw (total) (
      ground (
        arith,
        get_or-append_right token padding n,
        all_of-get_or is_padding padding n blank (omega arith),
        ap (λ k. trimmed_length (token ++ padding) k) back,
        trimmed_length-from token padding n some_byte (omega arith) good blank,
      ))

count_length-token :
    (token : List ℕ) (maximum : ℕ)
    → all_of is_token_byte token ≡ true
    → length token < maximum
    → count_length (token ++ (0 ∷ [])) maximum ≡ length token
unfolding count_length
count_length-token [] zero good below = absurd (omega arith)
count_length-token [] (suc maximum) good below = refl
count_length-token (b ∷ bs) zero good below = absurd (omega arith)
count_length-token (b ∷ bs) (suc maximum) good below = ground (arith, count_length-token bs maximum)

configuration_valid-token :
    (token : List ℕ)
    → all_of is_token_byte token ≡ true
    → 32 ≤ length token
    → length token ≤ 128
    → ota_token_configuration_valid (some (token ++ (0 ∷ []))) ≡ true
unfolding ota_token_configuration_valid bounded_length
configuration_valid-token token good long short =
    rw (count_length-token token 129 good (omega arith), take-append token (0 ∷ [])) (ground arith)

-- A token of 32 to 128 printable bytes without blanks that stands in the image with any blanks,
-- line ends or zeros behind it, and fits the capacity with its terminator, is copied out as itself
-- with a terminator.
pub ota_copy_embedded_token-padding :
    (token padding : List ℕ) (capacity : ℕ)
    → all_of is_token_byte token ≡ true
    → 32 ≤ length token
    → length token ≤ 128
    → length token < capacity
    → all_of is_padding padding ≡ true
    → ota_copy_embedded_token (some (token ++ padding)) capacity ≡ some (token ++ (0 ∷ []))
unfolding ota_copy_embedded_token
ota_copy_embedded_token-padding token padding capacity good long short fits blank =
    let all_bytes : length (token ++ padding) ≡ length padding + length token =
      omega (arith, length-append token padding) in
    let trimmed =
      trimmed_length-from token padding (length padding) (omega arith) (omega arith) good blank in
    let configured = configuration_valid-token token good long short in
    rw (all_bytes, trimmed, take-append token padding) (ground arith)
