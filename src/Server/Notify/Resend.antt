-- ===== src/Server/Notify/Resend.antt =====
-- The retries of a confirmed notification.
use esp32_p4_bacnet_switches.Base.{
  ℕ, ◌+◌, ◌≤◌, ◌<◌, ◌≡◌, ap, sym, ◌∙◌, Bool, true, false, List, [], ◌∷◌, arith, length, take, drop,
  take-append,
}
use esp32_p4_bacnet_switches.Codec.State.{DeviceState}
use esp32_p4_bacnet_switches.Codec.Frames.{encode_cov_notification}
use esp32_p4_bacnet_switches.Server.Retry.{
  cov_retry_cache_capture, cov_retry_cache_data, cov_retry_cache_length,
}
use esp32_p4_bacnet_switches.Server.Table.{Address, Subscription}
use esp32_p4_bacnet_switches.Server.Notify.{
  retry_time, transmit, send_again, send_encoded, following_id, has_expired, service_subscription,
  cov_max_retries, cov_time_remaining_seconds, response_capacity,
}
use esp32_p4_bacnet_switches.Server.Notify.Laws.{notify-confirmed, notify-again}

-- A subscription that waits for the acknowledgement of these octets.
pub record Awaits (s : Subscription) (to : Address) (octets : List ℕ) (at tries ends : ℕ)
    : Type 0 where
  pub awaiting : s.awaiting_ack ≡ true
  pub confirmed : s.confirmed ≡ true
  pub active : s.active ≡ true
  pub recipient : s.recipient ≡ to
  pub size : s.retry_payload.size ≡ length octets
  pub kept : take (length octets) s.retry_payload.bytes ≡ octets
  pub nonempty : 1 ≤ length octets
  pub due : s.next_retry_us ≡ at
  pub count : s.retry_count ≡ tries
  pub expires : s.expires_at_us ≡ ends

length-kept :
    (s : Subscription) (octets : List ℕ)
    → take (length octets) s.retry_payload.bytes ≡ octets
    → length (take (length octets) s.retry_payload.bytes) ≡ length octets
length-kept s octets kept = ap length kept

module _ (send : List ℕ → Address → Bool) (state : DeviceState) (now : ℕ) where
  -- The notification that is encoded for a subscription.
  abbrev pub notification : Subscription → List ℕ
  notification s =
      encode_cov_notification state s.input_index s.process_id (cov_time_remaining_seconds s now)
        s.confirmed s.invoke_id response_capacity

  -- The same under a new invoke id.
  abbrev pub first_notification : Subscription → ℕ → List ℕ
  first_notification s id = notification (record s { invoke_id = id; retry_count = 0 })

  -- The first notification of a confirmed subscription leaves it waiting for that notification.
  send_encoded-Awaits :
      (s : Subscription) (id : ℕ)
      → s.confirmed ≡ true
      → s.active ≡ true
      → length (notification s) ≤ 128
      → 1 ≤ length (notification s)
      → send (notification s) s.recipient ≡ true
      → Awaits
          (send_encoded send state now false s id).subscription
          s.recipient
          (notification s)
          (retry_time now)
          s.retry_count
          s.expires_at_us
  unfolding send_encoded transmit cov_retry_cache_capture
  send_encoded-Awaits s id confirmed active short nonempty taken =
      let kept =
        take-append (notification s) (drop (length (notification s)) s.retry_payload.bytes) in
      record {
        awaiting = ground arith;
        confirmed = ground arith;
        active = ground arith;
        recipient = ground arith;
        size = ground arith;
        kept = ground arith;
        nonempty = nonempty;
        due = ground arith;
        count = ground arith;
        expires = ground arith;
      }

  -- The turn of a confirmed subscription that is due for its first notification.
  first_turn :
      (s : Subscription) (id : ℕ)
      → s.active ≡ true
      → has_expired send state now s ≡ false
      → s.awaiting_ack ≡ false
      → s.dirty ≡ true
      → s.confirmed ≡ true
      → service_subscription send state now s id
        ≡ send_encoded send state now false
            (record s { invoke_id = id; retry_count = 0 })
            (following_id id)
  unfolding service_subscription
  first_turn s id active lasts idle dirty confirmed =
      ground (arith, notify-confirmed send state now s id confirmed)

  sent-send_encoded :
      (s : Subscription) (id : ℕ)
      → length (notification s) ≤ 128
      → 1 ≤ length (notification s)
      → send (notification s) s.recipient ≡ true
      → (send_encoded send state now false s id).sent ≡ (s.recipient, notification s) ∷ []
  unfolding send_encoded transmit cov_retry_cache_capture
  sent-send_encoded s id short nonempty taken = ground arith

  -- A retry that is due sends what is waited for again, and goes on waiting for it.
  retry_turn :
      (s : Subscription) (id : ℕ) (to : Address) (octets : List ℕ) (at tries ends : ℕ)
      → Awaits s to octets at tries ends
      → has_expired send state now s ≡ false
      → at ≤ now
      → tries < cov_max_retries
      → service_subscription send state now s id
        ≡ send_again send state now (record s { retry_count = s.retry_count + 1 }) id
  unfolding service_subscription
  retry_turn s id to octets at tries ends w lasts due few =
      let again =
        notify-again send state now (record s { retry_count = s.retry_count + 1 }) id w.confirmed in
      ground (arith, again, w.awaiting, w.active, w.due, w.count)

  sent-send_again :
      (s : Subscription) (id : ℕ) (to : Address) (octets : List ℕ) (at tries ends : ℕ)
      → Awaits s to octets at tries ends
      → send octets to ≡ true
      → (send_again send state now (record s { retry_count = s.retry_count + 1 }) id).sent
        ≡ (to, octets) ∷ []
  unfolding send_again transmit cov_retry_cache_data cov_retry_cache_length
  sent-send_again s id to octets at tries ends w taken =
      ground (arith, w.size, w.kept, w.recipient, w.nonempty, length-kept s octets w.kept)

  lasts_on :
      (s t : Subscription)
      → t.expires_at_us ≡ s.expires_at_us
      → has_expired send state now s ≡ false
      → has_expired send state now t ≡ false
  unfolding has_expired
  lasts_on s t same lasts = ground arith

-- If an active confirmed subscription that is dirty and awaits nothing has a first notification of
-- 1 to 128 octets that the socket takes, the turn sends it, and a turn on the result at or after
-- the retry time sends the same octets to the same recipient, whatever the device state is then, if
-- the subscription has not ended and the socket takes them.
pub service_subscription-resends :
    (send send' : List ℕ → Address → Bool) (state state' : DeviceState) (now now' id id' : ℕ)
    (s : Subscription)
    → s.active ≡ true
    → s.awaiting_ack ≡ false
    → s.dirty ≡ true
    → s.confirmed ≡ true
    → has_expired send state now s ≡ false
    → has_expired send' state' now' s ≡ false
    → retry_time now ≤ now'
    → 1 ≤ length (first_notification send state now s id)
    → length (first_notification send state now s id) ≤ 128
    → send (first_notification send state now s id) s.recipient ≡ true
    → send' (first_notification send state now s id) s.recipient ≡ true
    → let turn = service_subscription send state now s id in
      (turn.sent ≡ (s.recipient, first_notification send state now s id) ∷ [])
      × ((service_subscription send' state' now' turn.subscription id').sent ≡ turn.sent)
service_subscription-resends send send' state state' now now' id id' s active idle dirty confirmed
      lasts lasts' due nonempty short taken taken' =
    let s0 = record s { invoke_id = id; retry_count = 0 } in
    let p = notification send state now s0 in
    let first = first_turn send state now s id active lasts idle dirty confirmed in
    let sent = sent-send_encoded send state now s0 (following_id id) short nonempty taken in
    let waits =
      send_encoded-Awaits send state now s0 (following_id id) confirmed active short nonempty
        taken in
    let left = (send_encoded send state now false s0 (following_id id)).subscription in
    let still = lasts_on send' state' now' s left waits.expires lasts' in
    let retry =
      retry_turn send' state' now' left id' s.recipient p (retry_time now) 0 s.expires_at_us waits
        still due (omega arith) in
    let again =
      sent-send_again send' state' now' left id' s.recipient p (retry_time now) 0 s.expires_at_us
        waits taken' in
    (rw first sent, rw first (rw retry (again ∙ sym sent)))
