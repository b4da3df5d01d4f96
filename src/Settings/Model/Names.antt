-- ===== src/Settings/Model/Names.antt =====
-- What an accepted configuration promises of the names and numbers of the objects.
use esp32_p4_bacnet_switches.Base.{
  ℕ, zero, suc, ◌≡◌, ◌≢◌, sym, ◌<◌, Bool, true, false, List, [], ◌∷◌, length, get_or, any_of,
  &&-both, arith,
}
use esp32_p4_bacnet_switches.Settings.Model.{
  FirmwareConfig, same_text, all_unique, object_names, object_names_unique, input_instance,
  input_valid, inputs_valid, differs_from_prior, config_model_validate,
}

any_of-get_or :
    (p : List ℕ → Bool) (names : List (List ℕ)) (i : ℕ)
    → i < length names
    → any_of p names ≡ false
    → p (get_or names i []) ≡ false
any_of-get_or p [] i below h = absurd (omega arith)
any_of-get_or p (name ∷ names) zero below h = ground arith
any_of-get_or p (name ∷ names) (suc i) below h =
    ground (arith, any_of-get_or p names i (omega arith))

all_unique-get_or :
    (names : List (List ℕ)) (i j : ℕ)
    → all_unique names ≡ true
    → i < j
    → j < length names
    → same_text (get_or names i []) (get_or names j []) ≡ false
unfolding all_unique
all_unique-get_or [] i j unique order below = absurd (omega arith)
all_unique-get_or (name ∷ names) zero zero unique order below = absurd (omega arith)
all_unique-get_or (name ∷ names) zero (suc j) unique order below =
    ground (arith, any_of-get_or (same_text name) names j (omega arith))
all_unique-get_or (name ∷ names) (suc i) zero unique order below = absurd (omega arith)
all_unique-get_or (name ∷ names) (suc i) (suc j) unique order below =
    ground (arith, all_unique-get_or names i j)

abbrev HoldBoth : Bool → Bool → Type 0
HoldBoth a b = (a ≡ true) × (b ≡ true)

-- The last two of the tests.
accepted-loops :
    (c : FirmwareConfig)
    → config_model_validate c ≡ true
    → HoldBoth (inputs_valid c 3) (object_names_unique c)
unfolding config_model_validate
accepted-loops c accepted =
    let (others, names) = &&-both _ (object_names_unique c) accepted in
    let (checks, inputs) = &&-both _ (inputs_valid c 3) others in (inputs, names)

-- In a configuration that is accepted, any two of the 27 object names differ, letters compared
-- without their case.
pub validate-names_apart :
    (c : FirmwareConfig) (i j : ℕ)
    → config_model_validate c ≡ true
    → i < j
    → j < 27
    → same_text (get_or (object_names c) i []) (get_or (object_names c) j []) ≡ false
unfolding object_names_unique object_names
validate-names_apart c i j accepted order below =
    all_unique-get_or (object_names c) i j (accepted-loops c accepted).1 order below

differs_from_prior-apart :
    (c : FirmwareConfig) (index count prior : ℕ)
    → differs_from_prior c index count ≡ true
    → prior < count
    → input_instance c index ≢ input_instance c prior
unfolding differs_from_prior
differs_from_prior-apart c index zero prior h below = absurd (omega arith)
differs_from_prior-apart c index (suc count) prior h below =
    ground (arith, differs_from_prior-apart c index count prior)

inputs_valid-input_valid :
    (c : FirmwareConfig) (count index : ℕ)
    → inputs_valid c count ≡ true
    → index < count
    → input_valid c index ≡ true
unfolding inputs_valid
inputs_valid-input_valid c zero index h below = absurd (omega arith)
inputs_valid-input_valid c (suc count) index h below =
    ground (arith, inputs_valid-input_valid c count index)

-- A number that an input object may have.
abbrev pub IsInputInstance : ℕ → Type 0
IsInputInstance n = (n < 4194303) × (n ≢ 1001) × (n ≢ 1002)

accepted-input :
    (c : FirmwareConfig) (index : ℕ)
    → config_model_validate c ≡ true
    → index < 3
    → input_valid c index ≡ true
accepted-input c index accepted below =
    inputs_valid-input_valid c 3 index (accepted-loops c accepted).0 below

-- In a configuration that is accepted, any two of the three inputs have different instances, which
-- are below 4194303 and neither 1001 nor 1002.
pub validate-instances_apart :
    (c : FirmwareConfig) (i j : ℕ)
    → config_model_validate c ≡ true
    → i < j
    → j < 3
    → IsInputInstance (input_instance c i)
      × IsInputInstance (input_instance c j)
      × (input_instance c i ≢ input_instance c j)
unfolding input_valid
validate-instances_apart c i j accepted order below =
    let left = accepted-input c i accepted (omega arith) in
    let right = accepted-input c j accepted below in
    (
      ground arith,
      ground arith,
      λ same. differs_from_prior-apart c j j i (ground arith) order (sym same),
    )
