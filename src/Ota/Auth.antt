-- ===== src/Ota/Auth.antt =====
-- main/ota_auth.h and main/ota_auth.c: the tokens, and the role that a request's Authorization header
-- gives. A pointer is an Option of the bytes that it points to; a string ends at its first 0.
pub mod Exact
pub mod Roles
pub mod Copy
use esp32_p4_bacnet_switches.Base.{
  ℕ, zero, suc, ◌+◌, ◌-◌, bit_or, bit_xor, Bool, true, false, not, ◌||◌, ◌&&◌, List, [], ◌∷◌, ◌++◌,
  Option, none, some, ltb, leb, ◌==◌, if◌then◌else◌, length, get_or, take, all_of, same_bytes,
  codes, c_string,
}

abbrev pub bearer_prefix : List ℕ
bearer_prefix = codes "Bearer "

abbrev pub token_min_length : ℕ
token_min_length = 32

abbrev pub token_max_length : ℕ
token_max_length = 128

pub data Role : Type 0 where
  role_none role_viewer role_admin role_anonymous : Role

-- The loop of `bounded_length`.
unfoldable pub count_length : List ℕ → ℕ → ℕ
count_length value zero = 0
count_length [] (suc maximum) = 0
count_length (b ∷ bs) (suc maximum) = if b == 0 then 0 else suc (count_length bs maximum)

unfoldable pub bounded_length : Option (List ℕ) → ℕ → ℕ
bounded_length none maximum = 0
bounded_length (some value) maximum = count_length value maximum

abbrev pub is_token_byte : ℕ → Bool
is_token_byte c = not (ltb c 0x21) && not (ltb 0x7e c)

unfoldable pub ota_token_configuration_valid : Option (List ℕ) → Bool
ota_token_configuration_valid none = false
ota_token_configuration_valid (some token) =
    let len = bounded_length (some token) (token_max_length + 1) in
    not (ltb len token_min_length)
    && not (ltb token_max_length len)
    && all_of is_token_byte (take len token)

unfoldable pub ota_role_tokens_valid : Option (List ℕ) → Option (List ℕ) → Bool
ota_role_tokens_valid (some admin_token) (some viewer_token) =
    ota_token_configuration_valid (some admin_token)
    && ota_token_configuration_valid (some viewer_token)
    && not (same_bytes (c_string admin_token) (c_string viewer_token))
ota_role_tokens_valid none viewer_token = false
ota_role_tokens_valid (some admin_token) none = false

-- The loops of `ota_authorization_valid`, after `count` turns.
unfoldable pub gather_difference : List ℕ → ℕ → List ℕ → ℕ → ℕ → ℕ
gather_difference authorization offset expected difference zero = difference
gather_difference authorization offset expected difference (suc index) =
    bit_or (gather_difference authorization offset expected difference index)
      (bit_xor (get_or authorization (offset + index) 0) (get_or expected index 0))

unfoldable pub ota_authorization_valid : Option (List ℕ) → ℕ → Option (List ℕ) → Bool
ota_authorization_valid (some authorization) authorization_length (some token) =
    let prefix_length = length bearer_prefix in
    let token_length = length (c_string token) in
    if not (ota_token_configuration_valid (some token))
    then false
    else if not (authorization_length == prefix_length + token_length)
    then false
    else (let difference = gather_difference authorization 0 bearer_prefix 0 prefix_length in
        gather_difference authorization prefix_length token difference token_length == 0)
ota_authorization_valid none authorization_length token = false
ota_authorization_valid (some authorization) authorization_length none = false

abbrev is_null : Option (List ℕ) → Bool
is_null none = true
is_null (some bytes) = false

unfoldable pub ota_authorization_role :
    Option (List ℕ) → ℕ → Option (List ℕ) → Option (List ℕ) → Role
ota_authorization_role authorization authorization_length admin_token viewer_token =
    if not (ota_role_tokens_valid admin_token viewer_token)
    then role_none
    else if is_null authorization && authorization_length == 0
    then role_anonymous
    else if ota_authorization_valid authorization authorization_length admin_token
    then role_admin
    else if ota_authorization_valid authorization authorization_length viewer_token
    then role_viewer
    else role_none

unfoldable pub ota_role_allows : Role → Bool → Bool
ota_role_allows role_admin read_only = true
ota_role_allows role_viewer read_only = read_only
ota_role_allows role_anonymous read_only = read_only
ota_role_allows role_none read_only = false

abbrev pub is_padding : ℕ → Bool
is_padding b = b == 0 || (b == 10) || (b == 13) || (b == 32) || (b == 9)

-- The loop that leaves padding at the end out.
unfoldable pub trimmed_length : List ℕ → ℕ → ℕ
trimmed_length embedded zero = 0
trimmed_length embedded (suc n) =
    let shorter = trimmed_length embedded n in
    if is_padding (get_or embedded n 0) then shorter else suc n

-- The bytes that are written to the token, or a failure.
unfoldable pub ota_copy_embedded_token : Option (List ℕ) → ℕ → Option (List ℕ)
ota_copy_embedded_token none token_capacity = none
ota_copy_embedded_token (some embedded) token_capacity =
    let len = trimmed_length embedded (length embedded) in
    let token = take len embedded ++ (0 ∷ []) in
    if ltb len token_min_length || ltb token_max_length len || leb token_capacity len
    then none
    else if not (all_of is_token_byte (take len embedded))
    then none
    else if ota_token_configuration_valid (some token)
    then some token
    else none
