-- ===== src/Tests/Ota.antt =====
-- Authorization at a concrete request.
use esp32_p4_bacnet_switches.Base.{
  ℕ, ◌≡◌, ◌↔◌, refl, true, false, not, ◌&&◌, List, [], ◌∷◌, ◌++◌, some, arith, codes, length, leb,
  take, all_of, ◌==◌,
}
use esp32_p4_bacnet_switches.Ota.Auth.{
  ota_role_allows, ota_authorization_role, ota_role_tokens_valid, ota_copy_embedded_token,
}
use esp32_p4_bacnet_switches.Ota.Auth.Roles.{Presents, header_length, allows-change}
use esp32_p4_bacnet_switches.Ota.Auth.Copy.{ota_copy_embedded_token-padding}
use esp32_p4_bacnet_switches.Ota.Health.{
  gate_after, ota_health_gate_sample, ota_health_gate_sample-recent,
}

abbrev admin_token : List ℕ
admin_token = codes "0123456789abcdef0123456789abcdef"

abbrev viewer_token : List ℕ
viewer_token = codes "fedcba9876543210fedcba9876543210"

abbrev header : List ℕ
header = codes "Bearer 0123456789abcdef0123456789abcdef"

allows-change_example :
    (ota_role_allows
        (ota_authorization_role
          (some header)
          (header_length (some header))
          (some admin_token)
          (some viewer_token))
        false
      ≡ true)
    ↔ ((ota_role_tokens_valid (some admin_token) (some viewer_token) ≡ true)
        × Presents (some header) admin_token)
allows-change_example = allows-change (some header) admin_token viewer_token

ota_health_gate_sample-recent_example :
    (ota_health_gate_sample (gate_after 2 (true ∷ false ∷ [])) true 2).0 ≡ (
      not (2 == 0)
      && leb 2 (length (true ∷ true ∷ false ∷ []))
      && all_of (λ h. h) (take 2 (true ∷ true ∷ false ∷ [])))
ota_health_gate_sample-recent_example = ota_health_gate_sample-recent 2 true (true ∷ false ∷ [])

ota_copy_embedded_token-padding_example :
    ota_copy_embedded_token (some (admin_token ++ (10 ∷ []))) 129 ≡ some (admin_token ++ (0 ∷ []))
ota_copy_embedded_token-padding_example =
    ota_copy_embedded_token-padding admin_token (10 ∷ []) 129 refl (omega arith) (omega arith)
      (omega arith) refl
