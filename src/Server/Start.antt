-- ===== src/Server/Start.antt =====
-- main/bacnet_server.c, lines 935-965: the checks of the active configuration of the store before the
-- server is started.
-- What follows them makes the task and is left out.
use esp32_p4_bacnet_switches.Base.{
  ℕ, zero, suc, ◌≡◌, refl, Bool, true, false, not, ◌&&◌, List, [], ◌∷◌, ltb, leb, ◌==◌, get_or,
  &&-both, arith, Bool-cases, inl, inr,
}
use esp32_p4_bacnet_switches.Settings.Model.{
  FirmwareConfig, config_model_is_valid_blob, config_model_validate, input_instance,
}
use esp32_p4_bacnet_switches.Sdk.{Nvs}
use esp32_p4_bacnet_switches.Settings.Store.{BuildSettings, Globals, factory_defaults}
use esp32_p4_bacnet_switches.Settings.Store.Invariant.{Reachable, Reachable-IsCoherent}
use esp32_p4_bacnet_switches.Settings.Model.Names.{validate-instances_apart}

-- `input_instances`: those of the configuration and those of the network status.
abbrev pub all_instances : FirmwareConfig → List ℕ
all_instances config =
    input_instance config 0 ∷ input_instance config 1 ∷ input_instance config 2 ∷ 1001 ∷ 1002 ∷ []

-- The loop over the instances before `index`.
unfoldable pub differs_from_earlier : List ℕ → ℕ → ℕ → Bool
differs_from_earlier instances index zero = true
differs_from_earlier instances index (suc prior) =
    differs_from_earlier instances index prior
    && not (get_or instances index 0 == get_or instances prior 0)

-- The first `count` instances.
unfoldable pub instances_distinct : List ℕ → ℕ → Bool
instances_distinct instances zero = true
instances_distinct instances (suc index) =
    instances_distinct instances index
    && ltb (get_or instances index 0) 4194303
    && differs_from_earlier instances index index

unfoldable pub may_start : (List ℕ → ℕ) → FirmwareConfig → Bool
may_start crc config =
    config_model_is_valid_blob crc config
    && ltb config.device_instance 4194303
    && instances_distinct (all_instances config) 5

blob-validate :
    (crc : List ℕ → ℕ) (c : FirmwareConfig)
    → config_model_is_valid_blob crc c ≡ true
    → config_model_validate c ≡ true
unfolding config_model_is_valid_blob
blob-validate crc c h = (&&-both _ (config_model_validate c) h).1

not_leb-ltb : (a b : ℕ) → leb a b ≡ false → ltb b a ≡ true
not_leb-ltb a b h = ground arith

validate-device_instance :
    (c : FirmwareConfig) → config_model_validate c ≡ true → ltb c.device_instance 4194303 ≡ true
unfolding config_model_validate
validate-device_instance c accepted = elim (Bool-cases (leb 4194303 c.device_instance)) [
  | inr small ↦ not_leb-ltb 4194303 c.device_instance small
  | inl big ↦
      let refused : config_model_validate c ≡ false = rw (big, config_model_validate) refl in cc
]

instances-distinct :
    (c : FirmwareConfig)
    → config_model_validate c ≡ true
    → instances_distinct (all_instances c) 5 ≡ true
unfolding instances_distinct differs_from_earlier
instances-distinct c accepted =
    let first = validate-instances_apart c 0 1 accepted (omega arith) (omega arith) in
    let second = validate-instances_apart c 0 2 accepted (omega arith) (omega arith) in
    let third = validate-instances_apart c 1 2 accepted (omega arith) (omega arith) in ground arith

blob-may_start :
    (crc : List ℕ → ℕ) (c : FirmwareConfig)
    → config_model_is_valid_blob crc c ≡ true
    → may_start crc c ≡ true
unfolding may_start
blob-may_start crc c h =
    let accepted = blob-validate crc c h in
    rw (h, validate-device_instance c accepted, instances-distinct c accepted) refl

-- If the factory defaults are acceptable, then after a start of the configuration store on any
-- flash and any updates, whatever the storage answers, the active configuration passes all the
-- checks that the server makes of it before it starts: a valid blob, a device instance below
-- 4194303, and five input instances below 4194303 that are pairwise different.
pub Reachable-may_start :
    {F : Type 0} (crc : List ℕ → ℕ) (nvs : Nvs F FirmwareConfig) (build : BuildSettings)
    → config_model_validate (factory_defaults crc build) ≡ true
    → {state : Globals × F} → Reachable crc nvs build state
    → may_start crc state.0.active_config ≡ true
Reachable-may_start crc nvs build build_valid {state} reached =
    let coherent = Reachable-IsCoherent crc nvs build build_valid reached in
    blob-may_start crc state.0.active_config coherent.active_valid
