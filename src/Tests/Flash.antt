-- ===== src/Tests/Flash.antt =====
-- A storage that keeps what is written to it, and in which nothing fails.
use esp32_p4_bacnet_switches.Base.{
  ℕ, ◌+◌, ◌*◌, ◌%◌, refl, List, [], ◌∷◌, Option, none, some, if◌then◌else◌, arith,
}
use esp32_p4_bacnet_switches.Sdk.{EspErr, esp_ok, nvs_not_found, Key, same_key, Nvs, NvsLaws}

-- The blobs and the numbers of the keys.
abbrev pub Content : Type 0 → Type 0
Content B = (Key → Option B) × (Key → Option ℕ)

abbrev pub put {ℓ} : {A : Type ℓ} → (Key → Option A) → Key → Option A → Key → Option A
put m k v j = if same_key k j then v else m j

module _ {B : Type 0} where
  abbrev pub is_there : Content B → Key → EspErr
  is_there f k = elim (f.0 k) [
    | some b ↦ esp_ok
    | none ↦ elim (f.1 k) [ some n ↦ esp_ok | none ↦ nvs_not_found ]
  ]

  abbrev pub ideal_nvs : Nvs (Content B) B
  ideal_nvs = record {
    open_readonly = λ f. esp_ok;
    open_readwrite = λ f. esp_ok;
    get_blob = λ f k. f.0 k;
    set_blob = λ f k b. (esp_ok, (put f.0 k (some b), f.1));
    erase_key = λ f k. (is_there f k, (put f.0 k none, put f.1 k none));
    get_u8 = λ f k. f.1 k;
    set_u8 = λ f k v. (esp_ok, (f.0, put f.1 k (some v)));
    commit = λ f. (esp_ok, f);
  }

  pub ideal_nvs-NvsLaws : NvsLaws ideal_nvs
  ideal_nvs-NvsLaws = record {
    get_blob-set_blob = λ f k b ok. ground arith;
    get_blob-set_blob_ne = λ f k j b ok ne. ground arith;
    get_u8-set_blob = λ f k j b ok ne. refl;
    get_blob-erase_key = λ f k ok. ground arith;
    get_blob-erase_key_ne = λ f k j ok ne. ground arith;
    get_u8-erase_key = λ f k ok. ground arith;
    get_u8-set_u8 = λ f k v ok. ground arith;
    get_blob-set_u8 = λ f k j v ok ne. refl;
    get_blob-commit = λ f k ok. refl;
    get_u8-commit = λ f k ok. refl;
  }

  abbrev pub blank : Content B
  blank = (λ k. none, λ k. none)

-- A checksum that reads every byte.
abbrev pub sum_of : List ℕ → ℕ
sum_of [] = 1
sum_of (b ∷ bs) = (b + 31 * sum_of bs) % 4294967296
