-- ===== src/Ota/Auth/Roles.antt =====
-- What the roles allow, in terms of the header.
use esp32_p4_bacnet_switches.Base.{
  ℕ, ◌≡◌, ◌↔◌, ◌⊎◌, inl, inr, true, false, List, ◌++◌, Option, none, some, length, c_string, arith,
}
use esp32_p4_bacnet_switches.Ota.Auth.{
  bearer_prefix, ota_token_configuration_valid, ota_role_tokens_valid, ota_authorization_valid,
  ota_authorization_role, ota_role_allows,
}
use esp32_p4_bacnet_switches.Ota.Auth.Exact.{ota_authorization_valid-exact}

-- A header of exactly the scheme and this token.
abbrev pub Presents : Option (List ℕ) → List ℕ → Type 0
Presents none token = ⊥
Presents (some a) token = a ≡ bearer_prefix ++ c_string token

abbrev pub IsAbsent : Option (List ℕ) → Type 0
IsAbsent none = Unit {0}
IsAbsent (some a) = ⊥

abbrev pub header_length : Option (List ℕ) → ℕ
header_length none = 0
header_length (some a) = length a

tokens_valid-each :
    (admin viewer : List ℕ)
    → ota_role_tokens_valid (some admin) (some viewer) ≡ true
    → (ota_token_configuration_valid (some admin) ≡ true)
      × (ota_token_configuration_valid (some viewer) ≡ true)
unfolding ota_role_tokens_valid
tokens_valid-each admin viewer h = (ground arith, ground arith)

valid-Presents :
    (header : Option (List ℕ)) (token : List ℕ)
    → ota_token_configuration_valid (some token) ≡ true
    → (ota_authorization_valid header (header_length header) (some token) ≡ true)
      ↔ Presents header token
unfolding ota_authorization_valid
valid-Presents none token configured = (λ h. ground arith, λ impossible. absurd impossible)
valid-Presents (some a) token configured =
    let exact = ota_authorization_valid-exact a token in
    (λ h. (exact.0 h).1, λ e. exact.1 (configured, e))

none_checks :
    {P : Type 0} (len : ℕ) (admin : List ℕ)
    → ota_authorization_valid none len (some admin) ≡ true
    → P
unfolding ota_authorization_valid
none_checks len admin h = cc

-- The decision in terms of the checks that it runs.
admin_checks :
    (header : Option (List ℕ)) (len : ℕ) (admin viewer : List ℕ)
    → (ota_role_allows (ota_authorization_role header len (some admin) (some viewer)) false ≡ true)
      ↔ ((ota_role_tokens_valid (some admin) (some viewer) ≡ true)
          × (ota_authorization_valid header len (some admin) ≡ true))
unfolding ota_authorization_role ota_role_allows
admin_checks none len admin viewer =
    (λ h. (ground arith, ground arith), λ (p, q). none_checks len admin q)
admin_checks (some a) len admin viewer = (λ h. (ground arith, ground arith), λ (p, q). ground arith)

-- A request may change something exactly if both tokens are valid and different and its
-- Authorization header is "Bearer " followed by the administrator's token; the header is given with
-- its length.
pub allows-change :
    (header : Option (List ℕ)) (admin viewer : List ℕ)
    → let role = ota_authorization_role header (header_length header) (some admin) (some viewer) in
      (ota_role_allows role false ≡ true)
      ↔ ((ota_role_tokens_valid (some admin) (some viewer) ≡ true) × Presents header admin)
allows-change header admin viewer =
    let checks = admin_checks header (header_length header) admin viewer in
    (
      λ h.
          let (tokens, valid) = checks.0 h in
          let (configured, other) = tokens_valid-each admin viewer tokens in
          (tokens, (valid-Presents header admin configured).0 valid),
      λ (tokens, presents).
          let (configured, other) = tokens_valid-each admin viewer tokens in
          checks.1 (tokens, (valid-Presents header admin configured).1 presents),
    )

-- Whether a request that only reads is allowed, in terms of the checks.
reader_checks :
    (a : List ℕ) (admin viewer : List ℕ)
    → (ota_role_allows (ota_authorization_role (some a) (length a) (some admin) (some viewer)) true
        ≡ true)
      ↔ ((ota_role_tokens_valid (some admin) (some viewer) ≡ true)
          × ((ota_authorization_valid (some a) (length a) (some admin) ≡ true)
              ⊎ (ota_authorization_valid (some a) (length a) (some viewer) ≡ true)))
unfolding ota_authorization_role ota_role_allows
reader_checks a admin viewer = (λ h. (ground arith, ground arith), λ (p, q). ground arith)

anonymous_reads :
    (admin viewer : List ℕ)
    → (ota_role_allows (ota_authorization_role none 0 (some admin) (some viewer)) true ≡ true)
      ↔ (ota_role_tokens_valid (some admin) (some viewer) ≡ true)
unfolding ota_authorization_role ota_role_allows
anonymous_reads admin viewer = (λ h. ground arith, λ p. ground arith)

-- A header that may read: none, or one of the tokens.
abbrev pub MayRead : Option (List ℕ) → List ℕ → List ℕ → Type 0
MayRead none admin viewer = Unit {0}
MayRead (some a) admin viewer = Presents (some a) admin ⊎ Presents (some a) viewer

pub allows-read :
    (header : Option (List ℕ)) (admin viewer : List ℕ)
    → let role = ota_authorization_role header (header_length header) (some admin) (some viewer) in
      (ota_role_allows role true ≡ true)
      ↔ ((ota_role_tokens_valid (some admin) (some viewer) ≡ true) × MayRead header admin viewer)
allows-read none admin viewer =
    let reads = anonymous_reads admin viewer in
    (λ h. (reads.0 h, tt), λ (tokens, u). reads.1 tokens)
allows-read (some a) admin viewer =
    let checks = reader_checks a admin viewer in
    (
      λ h.
          let (tokens, valid) = checks.0 h in
          let (left, right) = tokens_valid-each admin viewer tokens in
          (
            tokens,
            elim valid [
              | inl by_admin ↦ inl ((valid-Presents (some a) admin left).0 by_admin)
              | inr by_viewer ↦ inr ((valid-Presents (some a) viewer right).0 by_viewer)
            ],
          ),
      λ (tokens, reads).
          let (left, right) = tokens_valid-each admin viewer tokens in
          checks.1 (
            tokens,
            elim reads [
              | inl by_admin ↦ inl ((valid-Presents (some a) admin left).1 by_admin)
              | inr by_viewer ↦ inr ((valid-Presents (some a) viewer right).1 by_viewer)
            ],
          ),
    )
