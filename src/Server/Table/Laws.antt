-- ===== src/Server/Table/Laws.antt =====
-- The first entry of a table that passes a test, and how many entries pass one.
use esp32_p4_bacnet_switches.Base.{
  ℕ, ◌+◌, ◌≤◌, ◌≡◌, refl, Bool, true, false, List, [], ◌∷◌, arith, length, if◌then◌else◌, any_of,
  inl, inr, Bool-cases,
}
use esp32_p4_bacnet_switches.Codec.State.{DeviceState}
use esp32_p4_bacnet_switches.Codec.Handle.{PacketResult}
use esp32_p4_bacnet_switches.Server.Table.{
  Address, Subscription, CovState, acknowledged, update_first, active_subscription_count,
  is_acknowledged, apply_cov_subscription, handle_cov_ack,
}

abbrev pub weight : Bool → ℕ
weight b = if b then 1 else 0

unfoldable pub count_of : (Subscription → Bool) → List Subscription → ℕ
count_of p [] = 0
count_of p (s ∷ ss) = weight (p s) + count_of p ss

pub length-update_first :
    (test : Subscription → Bool) (change : Subscription → Subscription) (ss : List Subscription)
    → length (update_first test change ss) ≡ length ss
unfolding update_first
length-update_first test change [] = refl
length-update_first test change (s ∷ ss) = ground (arith, length-update_first test change ss)

module _ (p test : Subscription → Bool) (change : Subscription → Subscription) where
  -- A change that no counted property notices.
  pub count_of-kept :
      (ss : List Subscription)
      → ((s : Subscription) → p (change s) ≡ p s)
      → count_of p (update_first test change ss) ≡ count_of p ss
  unfolding update_first count_of
  count_of-kept [] keeps = refl
  count_of-kept (s ∷ ss) keeps = ground (arith, count_of-kept ss keeps, keeps s)

  -- A change to an entry that is not counted afterwards.
  pub count_of-less :
      (ss : List Subscription)
      → ((s : Subscription) → p (change s) ≡ false)
      → count_of p (update_first test change ss) ≤ count_of p ss
  unfolding update_first count_of
  count_of-less [] drops = omega arith
  count_of-less (s ∷ ss) drops = ground (arith, count_of-less ss drops, drops s)

  -- The entry that is changed was counted or not, and is counted afterwards or not.
  pub count_of-changed :
      (before after : Bool) (ss : List Subscription)
      → any_of test ss ≡ true
      → ((s : Subscription) → test s ≡ true → p s ≡ before)
      → ((s : Subscription) → p (change s) ≡ after)
      → count_of p (update_first test change ss) + weight before ≡ count_of p ss + weight after
  unfolding update_first count_of
  count_of-changed before after [] found was becomes = cc
  count_of-changed before after (s ∷ ss) found was becomes = elim (Bool-cases (test s)) [
    | inl hit ↦ ground (arith, was s hit, becomes s)
    | inr miss ↦
        ground (arith, count_of-changed before after ss (ground (arith, miss, found)) was becomes)
  ]

pub any_of-count :
    (p : Subscription → Bool) (ss : List Subscription) → any_of p ss ≡ true → 1 ≤ count_of p ss
unfolding count_of
any_of-count p [] found = cc
any_of-count p (s ∷ ss) found = ground (arith, any_of-count p ss)

pub count_of-none :
    (p : Subscription → Bool) (ss : List Subscription) → any_of p ss ≡ false → count_of p ss ≡ 0
unfolding count_of
count_of-none p [] none_found = refl
count_of-none p (s ∷ ss) none_found = ground (arith, count_of-none p ss)

-- The table keeps its length.
pub length-apply_cov_subscription :
    (cov : CovState) (packet : PacketResult) (source : Address) (state : DeviceState) (now : ℕ)
    → length (apply_cov_subscription cov packet source state now).subscriptions
      ≡ length cov.subscriptions
unfolding apply_cov_subscription
length-apply_cov_subscription cov packet source state now = grind (arith, length-update_first)

-- What the diagnostics report is the number of active subscriptions.
unfoldable pub IsReported : CovState → Type 0
IsReported cov = cov.reported ≡ active_subscription_count cov.subscriptions

active_subscription_count-kept :
    (test : Subscription → Bool) (change : Subscription → Subscription) (ss : List Subscription)
    → ((s : Subscription) → (change s).active ≡ s.active)
    → active_subscription_count (update_first test change ss) ≡ active_subscription_count ss
unfolding update_first active_subscription_count
active_subscription_count-kept test change [] keeps = refl
active_subscription_count-kept test change (s ∷ ss) keeps =
    ground (arith, active_subscription_count-kept test change ss keeps, keeps s)

-- If the reported number of active subscriptions is right, it is right after a request is applied.
pub apply_cov_subscription-IsReported :
    (cov : CovState) (packet : PacketResult) (source : Address) (state : DeviceState) (now : ℕ)
    → IsReported cov
    → IsReported (apply_cov_subscription cov packet source state now)
unfolding apply_cov_subscription IsReported
apply_cov_subscription-IsReported cov packet source state now r =
    grind (arith, active_subscription_count-kept)

pub handle_cov_ack-IsReported :
    (cov : CovState) (packet : PacketResult) (source : Address)
    → IsReported cov
    → IsReported (handle_cov_ack cov packet source)
unfolding handle_cov_ack IsReported
handle_cov_ack-IsReported cov packet source r = ground (
  arith,
  active_subscription_count-kept (is_acknowledged packet source) acknowledged cov.subscriptions
      (λ s. refl),
)
