-- ===== src/Server/Notify/Laws.antt =====
-- One turn of the notification loop.
use esp32_p4_bacnet_switches.Base.{
  ℕ, ◌+◌, ◌≤◌, ◌≡◌, refl, Bool, true, false, not, ◌||◌, ◌&&◌, List, arith, inl, inr, Bool-cases,
  leb, ltb,
}
use esp32_p4_bacnet_switches.Codec.State.{DeviceState}
use esp32_p4_bacnet_switches.Server.Retry.{cov_retry_cache_capture}
use esp32_p4_bacnet_switches.Server.Table.{Address, Subscription, cleared}
use esp32_p4_bacnet_switches.Server.Notify.{
  transmit, send_again, send_encoded, notify, following_id, has_expired, service_subscription,
  cov_max_retries,
}

-- Only confirmed notifications are awaited, each has a captured payload, and none is sent again more
-- than three times.
unfoldable pub is_sound : Subscription → Bool
is_sound s =
    (not s.awaiting_ack || (s.confirmed && ltb 0 s.retry_payload.size))
    && leb s.retry_count cov_max_retries

cleared-is_sound : is_sound cleared ≡ true
unfolding is_sound
cleared-is_sound = refl

fresh-is_sound :
    (s : Subscription) (id : ℕ)
    → is_sound s ≡ true
    → is_sound (record s { invoke_id = id; retry_count = 0 }) ≡ true
unfolding is_sound
fresh-is_sound s id sound = ground arith

retried-is_sound :
    (s : Subscription)
    → is_sound s ≡ true
    → leb cov_max_retries s.retry_count ≡ false
    → is_sound (record s { retry_count = s.retry_count + 1 }) ≡ true
unfolding is_sound
retried-is_sound s sound few = ground arith

awaited-confirmed :
    (s : Subscription) → s.awaiting_ack ≡ true → is_sound s ≡ true → s.confirmed ≡ true
unfolding is_sound
awaited-confirmed s waiting sound = ground arith

module _ (send : List ℕ → Address → Bool) (state : DeviceState) (now : ℕ) where
  transmit-is_sound :
      (retry : Bool) (s : Subscription) (id : ℕ) (payload : List ℕ)
      → is_sound s ≡ true
      → (s.confirmed && not (ltb 0 s.retry_payload.size)) ≡ false
      → is_sound (transmit send state now retry s id payload).subscription ≡ true
  unfolding transmit is_sound
  transmit-is_sound retry s id payload sound captured = ground arith

  send_again-is_sound :
      (s : Subscription) (id : ℕ)
      → is_sound s ≡ true
      → is_sound (send_again send state now s id).subscription ≡ true
  unfolding send_again is_sound
  send_again-is_sound s id sound = ground arith

  send_encoded-is_sound :
      (retry : Bool) (s : Subscription) (id : ℕ)
      → s.awaiting_ack ≡ false
      → is_sound s ≡ true
      → is_sound (send_encoded send state now retry s id).subscription ≡ true
  unfolding send_encoded is_sound cov_retry_cache_capture
  send_encoded-is_sound retry s id idle sound = ground arith

  pub notify-confirmed :
      (s : Subscription) (id : ℕ)
      → s.confirmed ≡ true
      → notify send state now false s id
        ≡ send_encoded send state now false
            (record s { invoke_id = id; retry_count = 0 })
            (following_id id)
  unfolding notify
  notify-confirmed s id confirmed = rw (confirmed, notify) refl

  notify-unconfirmed :
      (s : Subscription) (id : ℕ)
      → s.confirmed ≡ false
      → notify send state now false s id ≡ send_encoded send state now false s id
  unfolding notify
  notify-unconfirmed s id unconfirmed = rw (unconfirmed, notify) refl

  pub notify-again :
      (s : Subscription) (id : ℕ)
      → s.confirmed ≡ true
      → notify send state now true s id ≡ send_again send state now s id
  unfolding notify
  notify-again s id confirmed = rw (confirmed, notify) refl

  notify-first-is_sound :
      (s : Subscription) (id : ℕ)
      → s.awaiting_ack ≡ false
      → is_sound s ≡ true
      → is_sound (notify send state now false s id).subscription ≡ true
  notify-first-is_sound s id idle sound = elim (Bool-cases s.confirmed) [
    | inl confirmed ↦ rw (notify-confirmed s id confirmed) (
        send_encoded-is_sound false (record s { invoke_id = id; retry_count = 0 }) (following_id id)
          idle (fresh-is_sound s id sound))
    | inr unconfirmed ↦
        rw (notify-unconfirmed s id unconfirmed) (send_encoded-is_sound false s id idle sound)
  ]

  notify-again-is_sound :
      (s : Subscription) (id : ℕ)
      → s.awaiting_ack ≡ true
      → is_sound s ≡ true
      → is_sound (notify send state now true s id).subscription ≡ true
  notify-again-is_sound s id waiting sound =
      rw (notify-again s id (awaited-confirmed s waiting sound)) (send_again-is_sound s id sound)

  pub service_subscription-is_sound :
      (s : Subscription) (id : ℕ)
      → is_sound s ≡ true
      → is_sound (service_subscription send state now s id).subscription ≡ true
  unfolding service_subscription
  service_subscription-is_sound s id sound = ground (
    arith,
    cleared-is_sound,
    sound,
    retried-is_sound s sound,
    notify-first-is_sound s id,
    notify-again-is_sound (record s { retry_count = s.retry_count + 1 }) id,
  )

  -- After a turn no active subscription has ended.
  pub has_expired-service_subscription :
      (s : Subscription) (id : ℕ)
      → let left = (service_subscription send state now s id).subscription in
        (left.active && has_expired send state now left) ≡ false
  unfolding service_subscription notify has_expired send_again send_encoded transmit
  has_expired-service_subscription s id = ground arith

  pub next_id-service_subscription :
      (s : Subscription) (id : ℕ)
      → 1 ≤ id
      → id ≤ 255
      → let next = (service_subscription send state now s id).next_id in (1 ≤ next) × (next ≤ 255)
  unfolding service_subscription notify send_again send_encoded transmit following_id
  next_id-service_subscription s id lo hi = (ground arith, ground arith)
