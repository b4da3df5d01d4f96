-- ===== src/Server/Notify.antt =====
-- main/bacnet_server.c, lines 532-661: `service_cov_subscriptions`. `send` stands for `sendto`: whether
-- the socket takes these octets for this recipient. The loop over the table is a function of one
-- subscription, with the next invoke id, the counters incremented and the notifications sent.
pub mod Laws
pub mod Loop
pub mod Resend
use esp32_p4_bacnet_switches.Base.{
  ℕ, zero, suc, ◌+◌, ◌-◌, ◌*◌, ◌/◌, ◌%◌, Bool, true, false, not, ◌||◌, ◌&&◌, List, [], ◌∷◌, ◌++◌,
  Option, none, some, ltb, leb, ◌==◌, if◌then◌else◌, same_bool, length, get_or, set, take, map,
}
use esp32_p4_bacnet_switches.Codec.State.{DeviceState, max_apdu}
use esp32_p4_bacnet_switches.Codec.Frames.{encode_cov_notification}
use esp32_p4_bacnet_switches.Server.Retry.{
  RetryCache, cov_retry_cache_capture, cov_retry_cache_data, cov_retry_cache_length,
}
use esp32_p4_bacnet_switches.Server.Table.{
  Address, Subscription, CovState, Counter, errors, cov_sent, cov_timeouts, cleared,
  update_active_subscription_diagnostic,
}

abbrev pub response_capacity : ℕ
response_capacity = max_apdu + 6

abbrev pub cov_retry_ms : ℕ
cov_retry_ms = 3000

abbrev pub cov_max_retries : ℕ
cov_max_retries = 3

unfoldable pub cov_time_remaining_seconds : Subscription → ℕ → ℕ
cov_time_remaining_seconds s now_us =
    if s.expires_at_us == 0 || leb s.expires_at_us now_us
    then 0
    else (s.expires_at_us - now_us + 999999) / 1000000

-- The values that the last round saw.
pub record Seen : Type 0 where
  pub last_values : List Bool
  pub last_reliability : List ℕ

abbrev pub mark_dirty : ℕ → Subscription → Subscription
mark_dirty input s = if s.active && (s.input_index == input) then record s { dirty = true } else s

-- One input of the first loop: a change marks the subscriptions to it.
unfoldable pub mark_input : DeviceState → ℕ → Seen × List Subscription → Seen × List Subscription
mark_input state input (seen, table) =
    let value = get_or state.binary_input_values input false in
    let reliability = get_or state.binary_input_reliability input 0 in
    if same_bool (get_or seen.last_values input false) value
      && (get_or seen.last_reliability input 0 == reliability)
    then (seen, table)
    else (
      record {
        last_values = set seen.last_values input value;
        last_reliability = set seen.last_reliability input reliability;
      },
      map (mark_dirty input) table,
    )

unfoldable pub mark_changes :
    DeviceState → List ℕ → Seen × List Subscription → Seen × List Subscription
mark_changes state [] both = both
mark_changes state (input ∷ inputs) both = mark_changes state inputs (mark_input state input both)

-- What one turn of the second loop leaves.
pub record Turn : Type 0 where
  pub subscription : Subscription
  pub next_id : ℕ
  pub counters : List Counter
  pub sent : List (Address × List ℕ)

abbrev pub quiet : Subscription → ℕ → List Counter → Turn
quiet s id counters = record { subscription = s; next_id = id; counters = counters; sent = [] }

-- `next_cov_invoke_id++` on a byte, which skips 0.
unfoldable pub following_id : ℕ → ℕ
following_id id = let next = (id + 1) % 256 in if next == 0 then 1 else next

abbrev pub retry_time : ℕ → ℕ
retry_time now_us = now_us + cov_retry_ms * 1000

module _ (send : List ℕ → Address → Bool) (state : DeviceState) (now_us : ℕ) where
  -- The end of a turn, with the octets to send.
  unfoldable pub transmit : Bool → Subscription → ℕ → List ℕ → Turn
  transmit retry s id payload =
      if length payload == 0 || not (send payload s.recipient)
      then quiet
          (if s.confirmed && retry then record s { next_retry_us = retry_time now_us } else s) id
          (errors ∷ [])
      else record {
        subscription = record s {
          dirty = if retry then s.dirty else false;
          awaiting_ack = if s.confirmed then true else s.awaiting_ack;
          next_retry_us = if s.confirmed then retry_time now_us else s.next_retry_us;
        };
        next_id = id;
        counters = cov_sent ∷ [];
        sent = (s.recipient, payload) ∷ [];
      }

  -- A retry sends what was captured; a captured payload that is gone ends the subscription.
  unfoldable pub send_again : Subscription → ℕ → Turn
  unfolding transmit cov_retry_cache_data cov_retry_cache_length
  send_again s id =
      let size = cov_retry_cache_length s.retry_payload in
      elim (cov_retry_cache_data s.retry_payload) [
        | none ↦ quiet cleared id (errors ∷ [])
        | some bytes ↦
            if size == 0
            then quiet cleared id (errors ∷ [])
            else transmit true s id (take size bytes)
      ]

  -- A notification that is encoded now, and captured if it is confirmed.
  unfoldable pub send_encoded : Bool → Subscription → ℕ → Turn
  unfolding transmit
  send_encoded retry s id =
      let payload =
        encode_cov_notification state s.input_index s.process_id
          (cov_time_remaining_seconds s now_us) s.confirmed s.invoke_id response_capacity in
      if s.confirmed && ltb 0 (length payload)
      then elim (cov_retry_cache_capture s.retry_payload payload) [
        | none ↦ quiet s id (errors ∷ [])
        | some kept ↦ transmit retry (record s { retry_payload = kept }) id payload
      ]
      else transmit retry s id payload

  unfoldable pub notify : Bool → Subscription → ℕ → Turn
  unfolding send_again send_encoded following_id
  notify retry s id =
      if s.confirmed && retry
      then send_again s id
      else if s.confirmed
      then send_encoded retry (record s { invoke_id = id; retry_count = 0 }) (following_id id)
      else send_encoded retry s id

  unfoldable pub has_expired : Subscription → Bool
  has_expired s = not (s.expires_at_us == 0) && leb s.expires_at_us now_us

  unfoldable pub service_subscription : Subscription → ℕ → Turn
  unfolding notify has_expired
  service_subscription s id =
      if not s.active
      then quiet s id []
      else if has_expired s
      then quiet cleared id []
      else if s.awaiting_ack
      then if ltb now_us s.next_retry_us
        then quiet s id []
        else if leb cov_max_retries s.retry_count
        then quiet cleared id (cov_timeouts ∷ errors ∷ [])
        else notify true (record s { retry_count = s.retry_count + 1 }) id
      else if not s.dirty
      then quiet s id []
      else notify false s id

  -- The second loop. The sent notifications come with the new state.
  unfoldable pub service_all :
      List Subscription → ℕ → List Subscription × ℕ × List Counter × List (Address × List ℕ)
  unfolding service_subscription
  service_all [] id = ([], id, [], [])
  service_all (s ∷ ss) id =
      let turn = service_subscription s id in
      let (ss', id', counters, sent) = service_all ss turn.next_id in
      (turn.subscription ∷ ss', id', turn.counters ++ counters, turn.sent ++ sent)

  unfoldable pub service_cov_subscriptions :
      CovState → Seen → CovState × Seen × List (Address × List ℕ)
  unfolding mark_changes service_all update_active_subscription_diagnostic
  service_cov_subscriptions cov seen =
      let (seen', table) = mark_changes state (0 ∷ 1 ∷ 2 ∷ 3 ∷ 4 ∷ []) (seen, cov.subscriptions) in
      let (subscriptions, id, counters, sent) = service_all table cov.next_invoke_id in
      (
        update_active_subscription_diagnostic (record cov {
          subscriptions = subscriptions;
          next_invoke_id = id;
          events = cov.events ++ counters;
        }),
        seen',
        sent,
      )
