-- ===== src/Sdk.antt =====
-- What the firmware takes from the SDK: the error codes of esp_err.h, and non-volatile storage (nvs.h)
-- as a parameter. `F` is the content of the flash with its write buffer, `B` the blob that a
-- namespace holds. The operations take and give the content; closing a handle does nothing to it.
use esp32_p4_bacnet_switches.Base.{
  ℕ, ◌≡◌, ◌⊎◌, Bool, true, false, Option, none, some, ◌==◌, if◌then◌else◌,
}

-- The codes that the firmware tells apart; `other` is any other failure.
pub data EspErr : Type 0 where
  esp_ok nvs_not_found invalid_arg invalid_state no_mem : EspErr
  other : ℕ → EspErr

abbrev pub is_ok : EspErr → Bool
is_ok esp_ok = true
is_ok nvs_not_found = false
is_ok invalid_arg = false
is_ok invalid_state = false
is_ok no_mem = false
is_ok (other n) = false

pub data Key : Type 0 where
  confirmed_key pending_key trial_boot_key current_key log_key legacy_log_key : Key

abbrev key_code : Key → ℕ
key_code confirmed_key = 0
key_code pending_key = 1
key_code trial_boot_key = 2
key_code current_key = 3
key_code log_key = 4
key_code legacy_log_key = 5

abbrev pub same_key : Key → Key → Bool
same_key k j = key_code k == key_code j

-- Opening a namespace for reading, and for reading and writing, may fail. `nvs_get_blob` is `none`
-- unless it succeeds with a blob of the size asked for.
pub record Nvs (F B : Type 0) : Type 0 where
  pub open_readonly : F → EspErr
  pub open_readwrite : F → EspErr
  pub get_blob : F → Key → Option B
  pub set_blob : F → Key → B → EspErr × F
  pub erase_key : F → Key → EspErr × F
  pub get_u8 : F → Key → Option ℕ
  pub set_u8 : F → Key → ℕ → EspErr × F
  pub commit : F → EspErr × F

-- What the documentation promises of operations that succeed. It promises nothing of the content after
-- a failure.
pub record NvsLaws {F B : Type 0} (n : Nvs F B) : Type 0 where
  pub get_blob-set_blob :
      (f : F) (k : Key) (b : B)
      → (n.set_blob f k b).0 ≡ esp_ok
      → n.get_blob (n.set_blob f k b).1 k ≡ some b
  pub get_blob-set_blob_ne :
      (f : F) (k j : Key) (b : B)
      → (n.set_blob f k b).0 ≡ esp_ok
      → same_key k j ≡ false
      → n.get_blob (n.set_blob f k b).1 j ≡ n.get_blob f j
  pub get_u8-set_blob :
      (f : F) (k j : Key) (b : B)
      → (n.set_blob f k b).0 ≡ esp_ok
      → same_key k j ≡ false
      → n.get_u8 (n.set_blob f k b).1 j ≡ n.get_u8 f j
  pub get_blob-erase_key :
      (f : F) (k : Key)
      → ((n.erase_key f k).0 ≡ esp_ok) ⊎ ((n.erase_key f k).0 ≡ nvs_not_found)
      → n.get_blob (n.erase_key f k).1 k ≡ none
  pub get_blob-erase_key_ne :
      (f : F) (k j : Key)
      → ((n.erase_key f k).0 ≡ esp_ok) ⊎ ((n.erase_key f k).0 ≡ nvs_not_found)
      → same_key k j ≡ false
      → n.get_blob (n.erase_key f k).1 j ≡ n.get_blob f j
  pub get_u8-erase_key :
      (f : F) (k : Key)
      → ((n.erase_key f k).0 ≡ esp_ok) ⊎ ((n.erase_key f k).0 ≡ nvs_not_found)
      → n.get_u8 (n.erase_key f k).1 k ≡ none
  pub get_u8-set_u8 :
      (f : F) (k : Key) (v : ℕ)
      → (n.set_u8 f k v).0 ≡ esp_ok
      → n.get_u8 (n.set_u8 f k v).1 k ≡ some v
  pub get_blob-set_u8 :
      (f : F) (k j : Key) (v : ℕ)
      → (n.set_u8 f k v).0 ≡ esp_ok
      → same_key k j ≡ false
      → n.get_blob (n.set_u8 f k v).1 j ≡ n.get_blob f j
  pub get_blob-commit :
      (f : F) (k : Key) → (n.commit f).0 ≡ esp_ok → n.get_blob (n.commit f).1 k ≡ n.get_blob f k
  pub get_u8-commit :
      (f : F) (k : Key) → (n.commit f).0 ≡ esp_ok → n.get_u8 (n.commit f).1 k ≡ n.get_u8 f k

-- `ESP_ERR_NVS_NOT_FOUND` of an erasure counts as success.
abbrev pub tolerate {ℓ} : {F : Type ℓ} → EspErr × F → EspErr × F
tolerate (esp_ok, f) = (esp_ok, f)
tolerate (nvs_not_found, f) = (esp_ok, f)
tolerate (invalid_arg, f) = (invalid_arg, f)
tolerate (invalid_state, f) = (invalid_state, f)
tolerate (no_mem, f) = (no_mem, f)
tolerate (other n, f) = (other n, f)

-- `if (result == ESP_OK) result = …`
abbrev pub and_then {ℓ} : {F : Type ℓ} → EspErr × F → (F → EspErr × F) → EspErr × F
and_then (result, f) next = if is_ok result then next f else (result, f)

-- What an initialization gives: the globals, or the code with which it fails. The globals after a
-- failure are left out, since the firmware does not go on.
pub data Started {ℓ} (G F : Type ℓ) : Type ℓ where
  started : G → F → Started G F
  start_failed : EspErr → F → Started G F

module _ {F B : Type 0} (nvs : Nvs F B) where
  -- The opening of the namespace for writing, and what is done with it.
  abbrev pub with_handle : F → (F → EspErr × F) → EspErr × F
  with_handle f use_handle =
      if is_ok (nvs.open_readwrite f) then use_handle f else (nvs.open_readwrite f, f)
