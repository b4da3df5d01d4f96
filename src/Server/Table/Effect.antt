-- ===== src/Server/Table/Effect.antt =====
-- What a SubscribeCOV that is accepted does to the table.
use esp32_p4_bacnet_switches.Base.{
  ℕ, ◌≤◌, ◌≡◌, Bool, true, false, not, ◌||◌, List, [], ◌∷◌, arith, some, any_of, inl, inr,
  Bool-cases,
}
use esp32_p4_bacnet_switches.Codec.State.{DeviceState}
use esp32_p4_bacnet_switches.Codec.Handle.{PacketResult}
use esp32_p4_bacnet_switches.Server.Table.{
  Address, Subscription, CovState, cleared, refresh, new_subscription, update_first, same_recipient,
  input_index_for_instance, cov_subscription_can_apply, is_subscription, apply_cov_subscription,
}
use esp32_p4_bacnet_switches.Server.Table.Laws.{count_of-changed, any_of-count, count_of}
use esp32_p4_bacnet_switches.Server.Table.Unique.{IsUnique, is_subscription-cleared}

any_of-refreshed :
    (packet : PacketResult) (source : Address) (index now : ℕ) (ss : List Subscription)
    → let same = is_subscription source packet.cov_process_id index in
      any_of same ss ≡ true → any_of same (update_first same (refresh packet now) ss) ≡ true
unfolding update_first is_subscription
any_of-refreshed packet source index now [] found = cc
any_of-refreshed packet source index now (s ∷ ss) found =
    ground (arith, any_of-refreshed packet source index now ss)

any_of-made :
    (p test : Subscription → Bool) (new : Subscription) (ss : List Subscription)
    → any_of test ss ≡ true
    → p new ≡ true
    → any_of p (update_first test (λ _. new) ss) ≡ true
unfolding update_first
any_of-made p test new [] found counted = cc
any_of-made p test new (s ∷ ss) found counted = ground (arith, any_of-made p test new ss)

any_of-either :
    (p q : Subscription → Bool) (ss : List Subscription)
    → any_of (λ s. p s || q s) ss ≡ true
    → any_of q ss ≡ false
    → any_of p ss ≡ true
any_of-either p q [] found none_found = cc
any_of-either p q (s ∷ ss) found none_found = ground (arith, any_of-either p q ss)

module _ (packet : PacketResult) (source : Address) (index now : ℕ) where
  abbrev same : Subscription → Bool
  same = is_subscription source packet.cov_process_id index

  same-new : same (new_subscription packet source index now) ≡ true
  unfolding is_subscription same_recipient
  same-new = ground arith

  any_of-cancelled :
      (ss : List Subscription)
      → count_of same ss ≤ 1
      → any_of same ss ≡ true
      → any_of same (update_first same (λ _. cleared) ss) ≡ false
  any_of-cancelled ss unique found =
      let gone = update_first same (λ _. cleared) ss in
      let step =
        count_of-changed same same (λ _. cleared) true false ss found (λ s h. h)
          (λ _. is_subscription-cleared source packet.cov_process_id index) in
      elim (Bool-cases (any_of same gone)) [
        | inl left ↦ absurd (omega (arith, any_of-count same gone left, step, unique))
        | inr none_left ↦ none_left
      ]

-- If the subscriptions are unique, the object is an input of the device and the server has found
-- room, then after the request is applied the subscription of the recipient, process and input is
-- in the table exactly if the request does not cancel.
pub apply_cov_subscription-effect :
    (cov : CovState) (packet : PacketResult) (source : Address) (state : DeviceState) (now : ℕ)
    {index : ℕ}
    → IsUnique cov
    → input_index_for_instance state packet.cov_object_instance ≡ some index
    → cov_subscription_can_apply cov packet source state ≡ true
    → any_of
        (is_subscription source packet.cov_process_id index)
        (apply_cov_subscription cov packet source state now).subscriptions
      ≡ not packet.cov_cancel
unfolding apply_cov_subscription cov_subscription_can_apply IsUnique
apply_cov_subscription-effect cov packet source state now {index} unique found room =
    let ss = cov.subscriptions in
    let mine = is_subscription source packet.cov_process_id index in
    let once = unique source packet.cov_process_id index in
    let free = any_of-either (λ s. not s.active) mine ss in
    ground (
      arith,
      found,
      any_of-cancelled packet source index now ss once,
      any_of-refreshed packet source index now ss,
      free,
      any_of-made mine (λ s. not s.active) (new_subscription packet source index now) ss,
      same-new packet source index now,
    )
