-- ===== src/Ota/Health.antt =====
-- main/ota_health.h and main/ota_health.c: an update is kept after enough healthy samples in a row.
use esp32_p4_bacnet_switches.Base.{
  ℕ, zero, suc, ◌+◌, ◌≡◌, Bool, true, false, not, ◌&&◌, List, [], ◌∷◌, ltb, leb, ◌==◌,
  if◌then◌else◌, length, take, all_of, arith, min,
}

-- `ota_health_gate_reset`
abbrev pub ota_health_gate_reset : ℕ
ota_health_gate_reset = 0

-- The samples in a row before and after a sample, and whether they are enough.
unfoldable pub ota_health_gate_sample : ℕ → Bool → ℕ → Bool × ℕ
ota_health_gate_sample consecutive healthy required =
    if required == 0
    then (false, consecutive)
    else if not healthy
    then (false, 0)
    else (let counted = if ltb consecutive required then consecutive + 1 else consecutive in
        (leb required counted, counted))

-- The gate after these samples, the newest first.
abbrev pub gate_after : ℕ → List Bool → ℕ
gate_after required [] = ota_health_gate_reset
gate_after required (healthy ∷ older) =
    (ota_health_gate_sample (gate_after required older) healthy required).1

-- The samples in a row, counted without a limit.
abbrev streak : List Bool → ℕ
streak [] = 0
streak (true ∷ older) = suc (streak older)
streak (false ∷ older) = 0

gate_after-streak :
    (required : ℕ) (samples : List Bool)
    → gate_after (suc required) samples ≡ min (suc required) (streak samples)
unfolding ota_health_gate_sample
gate_after-streak required [] = omega arith
gate_after-streak required (true ∷ older) = ground (arith, gate_after-streak required older)
gate_after-streak required (false ∷ older) = ground arith

streak-enough :
    (n : ℕ) (samples : List Bool)
    → leb n (streak samples) ≡ (leb n (length samples) && all_of (λ h. h) (take n samples))
streak-enough zero samples = ground arith
streak-enough (suc n) [] = ground arith
streak-enough (suc n) (true ∷ older) = ground (arith, streak-enough n older)
streak-enough (suc n) (false ∷ older) = ground arith

-- After a reset and any samples, a sample passes the gate exactly if the number of samples asked
-- for is not 0, there were that many, and all of the last that many are healthy.
pub ota_health_gate_sample-recent :
    (required : ℕ) (healthy : Bool) (older : List Bool)
    → let samples = healthy ∷ older in
      (ota_health_gate_sample (gate_after required older) healthy required).0 ≡ (
        not (required == 0)
        && leb required (length samples)
        && all_of (λ h. h) (take required samples))
unfolding ota_health_gate_sample
ota_health_gate_sample-recent zero healthy older = ground arith
ota_health_gate_sample-recent (suc required) true older =
    ground (arith, gate_after-streak required older, streak-enough required older)
ota_health_gate_sample-recent (suc required) false older = ground arith
