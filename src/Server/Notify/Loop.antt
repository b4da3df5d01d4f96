-- ===== src/Server/Notify/Loop.antt =====
-- The whole of `service_cov_subscriptions`.
use esp32_p4_bacnet_switches.Base.{
  ℕ, ◌≤◌, ◌≡◌, refl, Bool, true, false, ◌&&◌, List, [], ◌∷◌, arith, All, map,
}
use esp32_p4_bacnet_switches.Codec.State.{DeviceState}
use esp32_p4_bacnet_switches.Server.Table.{Address, Subscription, CovState}
use esp32_p4_bacnet_switches.Server.Table.Laws.{IsReported}
use esp32_p4_bacnet_switches.Server.Notify.{
  Seen, mark_dirty, mark_input, mark_changes, service_subscription, service_all,
  service_cov_subscriptions, has_expired,
}
use esp32_p4_bacnet_switches.Server.Notify.Laws.{
  is_sound, service_subscription-is_sound, has_expired-service_subscription,
  next_id-service_subscription,
}

abbrev pub AllSound : List Subscription → Type 0
AllSound = All (λ s. is_sound s ≡ true)

mark_dirty-is_sound :
    (input : ℕ) (s : Subscription) → is_sound s ≡ true → is_sound (mark_dirty input s) ≡ true
unfolding is_sound
mark_dirty-is_sound input s sound = ground arith

mark-AllSound :
    (input : ℕ) (ss : List Subscription) → AllSound ss → AllSound (map (mark_dirty input) ss)
mark-AllSound input [] sound = tt
mark-AllSound input (s ∷ ss) sound =
    (mark_dirty-is_sound input s sound.0, mark-AllSound input ss sound.1)

mark_input-AllSound :
    (state : DeviceState) (input : ℕ) (both : Seen × List Subscription)
    → AllSound both.1
    → AllSound (mark_input state input both).1
unfolding mark_input
mark_input-AllSound state input both sound = grind (arith, mark-AllSound)

mark_changes-AllSound :
    (state : DeviceState) (inputs : List ℕ) (both : Seen × List Subscription)
    → AllSound both.1
    → AllSound (mark_changes state inputs both).1
unfolding mark_changes
mark_changes-AllSound state [] both sound = sound
mark_changes-AllSound state (input ∷ inputs) both sound =
    mark_changes-AllSound state inputs (mark_input state input both)
      (mark_input-AllSound state input both sound)

module _ (send : List ℕ → Address → Bool) (state : DeviceState) (now : ℕ) where
  -- What a round leaves of a subscription: it is sound, and has not ended if it is active.
  abbrev pub IsCurrent : Subscription → Type 0
  IsCurrent s = (is_sound s ≡ true) × ((s.active && has_expired send state now s) ≡ false)

  service_all-IsCurrent :
      (ss : List Subscription) (id : ℕ)
      → AllSound ss
      → 1 ≤ id
      → id ≤ 255
      → All IsCurrent (service_all send state now ss id).0
        × (1 ≤ (service_all send state now ss id).1)
        × ((service_all send state now ss id).1 ≤ 255)
  unfolding service_all
  service_all-IsCurrent [] id sound lo hi = (tt, lo, hi)
  service_all-IsCurrent (s ∷ ss) id sound lo hi =
      let turn = service_subscription send state now s id in
      let next = next_id-service_subscription send state now s id lo hi in
      let (tail, lo', hi') = service_all-IsCurrent ss turn.next_id sound.1 next.0 next.1 in
      (
        (
          (
            service_subscription-is_sound send state now s id sound.0,
            has_expired-service_subscription send state now s id,
          ),
          tail,
        ),
        lo',
        hi',
      )

  -- After a round over a table that is sound, with the next invoke id in 1 to 255, no active
  -- subscription has ended, each awaited notification is confirmed and captured, no retry count is
  -- above three, the next invoke id is in 1 to 255, and the reported number of active subscriptions
  -- is right.
  pub service_cov_subscriptions-IsCurrent :
      (cov : CovState) (seen : Seen)
      → AllSound cov.subscriptions
      → 1 ≤ cov.next_invoke_id
      → cov.next_invoke_id ≤ 255
      → let after = (service_cov_subscriptions send state now cov seen).0 in
        All IsCurrent after.subscriptions
        × (1 ≤ after.next_invoke_id)
        × (after.next_invoke_id ≤ 255)
        × IsReported after
  unfolding service_cov_subscriptions IsReported
  service_cov_subscriptions-IsCurrent cov seen sound lo hi =
      let table = mark_changes state (0 ∷ 1 ∷ 2 ∷ 3 ∷ 4 ∷ []) (seen, cov.subscriptions) in
      let (all, lo', hi') =
        service_all-IsCurrent table.1 cov.next_invoke_id
          (mark_changes-AllSound state (0 ∷ 1 ∷ 2 ∷ 3 ∷ 4 ∷ []) (seen, cov.subscriptions) sound) lo
          hi in
      (all, lo', hi', refl)
