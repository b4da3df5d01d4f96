-- ===== src/Server/Table/Unique.antt =====
-- No recipient has two subscriptions of one process to one input.
use esp32_p4_bacnet_switches.Base.{
  ℕ, ◌≤◌, ◌≡◌, refl, Bool, true, false, not, List, [], ◌∷◌, arith, any_of, inl, inr, Bool-cases,
  Option-cases,
}
use esp32_p4_bacnet_switches.Codec.State.{DeviceState}
use esp32_p4_bacnet_switches.Codec.Handle.{PacketResult}
use esp32_p4_bacnet_switches.Server.Table.{
  Address, Subscription, CovState, cleared, refresh, new_subscription, acknowledged, update_first,
  same_recipient, input_index_for_instance, initial_state, is_acknowledged, is_subscription,
  apply_to_input, apply_cov_subscription, handle_cov_ack,
}
use esp32_p4_bacnet_switches.Server.Table.Laws.{
  count_of, count_of-kept, count_of-less, count_of-changed, count_of-none,
}

unfoldable pub IsUnique : CovState → Type 0
IsUnique cov =
    (source : Address) (process_id input_index : ℕ)
    → count_of (is_subscription source process_id input_index) cov.subscriptions ≤ 1

-- The subscription that is made is one of exactly its own recipient, process and input.
is_subscription-new :
    (packet : PacketResult) (source a : Address) (index now p i : ℕ)
    → is_subscription a p i (new_subscription packet source index now) ≡ true
    → (s : Subscription)
    → is_subscription a p i s ≡ is_subscription source packet.cov_process_id index s
unfolding is_subscription same_recipient
is_subscription-new packet source a index now p i h s = ground arith

inactive-is_subscription :
    (a : Address) (p i : ℕ) (s : Subscription)
    → not s.active ≡ true
    → is_subscription a p i s ≡ false
unfolding is_subscription
inactive-is_subscription a p i s h = ground arith

count_of-same :
    (p q : Subscription → Bool) (ss : List Subscription)
    → ((s : Subscription) → p s ≡ q s)
    → count_of p ss ≡ count_of q ss
unfolding count_of
count_of-same p q [] same = refl
count_of-same p q (s ∷ ss) same = ground (arith, same s, count_of-same p q ss same)

is_subscription-refresh :
    (packet : PacketResult) (now : ℕ) (a : Address) (p i : ℕ) (s : Subscription)
    → is_subscription a p i (refresh packet now s) ≡ is_subscription a p i s
unfolding is_subscription
is_subscription-refresh packet now a p i s = refl

is_subscription-acknowledged :
    (a : Address) (p i : ℕ) (s : Subscription)
    → is_subscription a p i (acknowledged s) ≡ is_subscription a p i s
unfolding is_subscription
is_subscription-acknowledged a p i s = refl

pub is_subscription-cleared : (a : Address) (p i : ℕ) → is_subscription a p i cleared ≡ false
unfolding is_subscription
is_subscription-cleared a p i = refl

module _ (cov : CovState) (packet : PacketResult) (source : Address) (index now : ℕ) where
  abbrev same : Subscription → Bool
  same = is_subscription source packet.cov_process_id index

  -- A new subscription in an inactive entry.
  add_unique :
      (a : Address) (p i : ℕ)
      → any_of same cov.subscriptions ≡ false
      → any_of (λ s. not s.active) cov.subscriptions ≡ true
      → count_of (is_subscription a p i) cov.subscriptions ≤ 1
      → count_of (is_subscription a p i) (
          update_first
            (λ s. not s.active)
            (λ _. new_subscription packet source index now)
            cov.subscriptions)
        ≤ 1
  add_unique a p i fresh room unique =
      let counted = is_subscription a p i in
      let made = new_subscription packet source index now in
      let step =
        count_of-changed counted (λ s. not s.active) (λ _. made) false (counted made)
          cov.subscriptions room (inactive-is_subscription a p i) (λ s. refl) in
      elim (Bool-cases (counted made)) [
        | inl own ↦
            let none_before =
              count_of-same counted same cov.subscriptions
                (is_subscription-new packet source a index now p i own) in
            let none_same = count_of-none same cov.subscriptions fresh in
            ground (arith, step, none_before, none_same, own)
        | inr other ↦ ground (arith, step, other)
      ]

  apply_to_input-IsUnique : IsUnique cov → IsUnique (apply_to_input cov packet source index now)
  unfolding IsUnique apply_to_input
  apply_to_input-IsUnique unique a p i =
      let counted = is_subscription a p i in
      let kept =
        count_of-kept counted same (refresh packet now) cov.subscriptions
          (is_subscription-refresh packet now a p i) in
      let less =
        count_of-less counted same (λ _. cleared) cov.subscriptions
          (λ _. is_subscription-cleared a p i) in
      ground (arith, unique a p i, kept, less, add_unique a p i)

-- If no recipient has two active subscriptions of one process to one input, then none has after a
-- request is applied, whatever it asks for.
pub apply_cov_subscription-IsUnique :
    (cov : CovState) (packet : PacketResult) (source : Address) (state : DeviceState) (now : ℕ)
    → IsUnique cov
    → IsUnique (apply_cov_subscription cov packet source state now)
unfolding apply_cov_subscription
apply_cov_subscription-IsUnique cov packet source state now unique =
    elim (Option-cases (input_index_for_instance state packet.cov_object_instance)) [
      | inl e ↦ rw (e, apply_cov_subscription) unique
      | inr (index, e) ↦
          rw (e, apply_cov_subscription)
            (apply_to_input-IsUnique cov packet source index now unique)
    ]

-- If no recipient has two active subscriptions of one process to one input, then none has after an
-- acknowledgement, positive or not.
pub handle_cov_ack-IsUnique :
    (cov : CovState) (packet : PacketResult) (source : Address)
    → IsUnique cov
    → IsUnique (handle_cov_ack cov packet source)
unfolding IsUnique handle_cov_ack
handle_cov_ack-IsUnique cov packet source unique a p i =
    let counted = is_subscription a p i in
    let test = is_acknowledged packet source in
    let kept =
      count_of-kept counted test acknowledged cov.subscriptions
        (is_subscription-acknowledged a p i) in
    let less =
      count_of-less counted test (λ _. cleared) cov.subscriptions
        (λ _. is_subscription-cleared a p i) in
    ground (arith, unique a p i, kept, less)

pub initial_state-IsUnique : IsUnique initial_state
unfolding IsUnique count_of is_subscription
initial_state-IsUnique a p i = omega arith
