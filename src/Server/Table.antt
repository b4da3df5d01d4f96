-- ===== src/Server/Table.antt =====
-- main/bacnet_server.c, lines 122-141 and 371-530: the table of COV subscriptions. The counters and
-- the gauge that the operations report to main/diagnostics.c are part of the state: `events` is the
-- list of the calls of `diagnostics_bacnet_increment`, latest last, and `reported` the last value
-- given to `diagnostics_bacnet_set_active_subscriptions`. The clock's value is an argument.
pub mod Laws
pub mod Unique
pub mod Effect
use esp32_p4_bacnet_switches.Base.{
  ℕ, zero, suc, ◌+◌, ◌-◌, ◌*◌, ◌/◌, Bool, true, false, not, ◌||◌, ◌&&◌, List, [], ◌∷◌, ◌++◌, Option,
  none, some, ltb, leb, ◌==◌, if◌then◌else◌, same_bool, any_of, replicate,
}
use esp32_p4_bacnet_switches.Codec.State.{DeviceState}
use esp32_p4_bacnet_switches.Codec.Objects.{find_instance}
use esp32_p4_bacnet_switches.Codec.Handle.{PacketResult}
use esp32_p4_bacnet_switches.Server.Retry.{RetryCache, cleared_cache}

abbrev pub max_cov_subscriptions : ℕ
max_cov_subscriptions = 8

abbrev pub cov_max_lifetime_seconds : ℕ
cov_max_lifetime_seconds = 604800

-- The fields of `struct sockaddr_in` that the server compares.
pub record Address : Type 0 where
  pub family : ℕ
  pub port : ℕ
  pub address : ℕ

-- `cov_subscription_t`; times are microseconds since the start.
pub record Subscription : Type 0 where
  pub active : Bool
  pub recipient : Address
  pub process_id : ℕ
  pub input_index : ℕ
  pub confirmed : Bool
  pub expires_at_us : ℕ
  pub dirty : Bool
  pub awaiting_ack : Bool
  pub invoke_id : ℕ
  pub retry_count : ℕ
  pub next_retry_us : ℕ
  pub retry_payload : RetryCache

-- What `memset` leaves.
abbrev pub cleared : Subscription
cleared = record {
  active = false;
  recipient = record { family = 0; port = 0; address = 0 };
  process_id = 0;
  input_index = 0;
  confirmed = false;
  expires_at_us = 0;
  dirty = false;
  awaiting_ack = false;
  invoke_id = 0;
  retry_count = 0;
  next_retry_us = 0;
  retry_payload = cleared_cache;
}

-- The counters of main/diagnostics.h that this module increments.
pub data Counter : Type 0 where
  errors cov_acked cov_sent cov_timeouts : Counter
  count_rx count_who_is count_who_has count_read_property count_read_property_multiple : Counter
  count_subscribe_cov count_malformed count_ignored count_responses count_rate_limited : Counter

pub record CovState : Type 0 where
  pub subscriptions : List Subscription
  pub next_invoke_id : ℕ
  pub events : List Counter
  pub reported : ℕ

abbrev pub initial_state : CovState
initial_state = record {
  subscriptions = replicate max_cov_subscriptions cleared;
  next_invoke_id = 1;
  events = [];
  reported = 0;
}

unfoldable pub same_recipient : Address → Address → Bool
same_recipient left right =
    left.family == right.family && (left.port == right.port) && (left.address == right.address)

unfoldable pub active_subscription_count : List Subscription → ℕ
active_subscription_count [] = 0
active_subscription_count (s ∷ ss) = (if s.active then 1 else 0) + active_subscription_count ss

unfoldable pub update_active_subscription_diagnostic : CovState → CovState
update_active_subscription_diagnostic state = record state {
  reported = active_subscription_count state.subscriptions;
}

unfoldable pub input_index_for_instance : DeviceState → ℕ → Option ℕ
input_index_for_instance state inst = find_instance state.binary_input_instances inst 0

-- An active subscription of this recipient, process and input.
unfoldable pub is_subscription : Address → ℕ → ℕ → Subscription → Bool
is_subscription source process_id input_index s =
    s.active
    && same_recipient s.recipient source
    && (s.process_id == process_id)
    && (s.input_index == input_index)

unfoldable pub cov_subscription_can_apply : CovState → PacketResult → Address → DeviceState → Bool
unfolding input_index_for_instance
cov_subscription_can_apply cov packet source state =
    if packet.cov_cancel
    then true
    else elim (input_index_for_instance state packet.cov_object_instance) [
      | none ↦ true
      | some input_index ↦
          any_of (λ s. not s.active || is_subscription source packet.cov_process_id input_index s)
            cov.subscriptions
    ]

-- A loop that changes the first entry that passes a test, and returns.
unfoldable pub update_first :
    (Subscription → Bool) → (Subscription → Subscription) → List Subscription → List Subscription
update_first test change [] = []
update_first test change (s ∷ ss) =
    let rest = update_first test change ss in if test s then change s ∷ ss else s ∷ rest

-- When a subscription of some lifetime ends; a lifetime of 0 never ends.
unfoldable pub expiry : ℕ → ℕ → ℕ
expiry lifetime_seconds now_us =
    let lifetime =
      if ltb cov_max_lifetime_seconds lifetime_seconds
      then cov_max_lifetime_seconds
      else lifetime_seconds in
    if lifetime == 0 then 0 else now_us + lifetime * 1000000

abbrev pub refresh : PacketResult → ℕ → Subscription → Subscription
refresh packet now_us s = record s {
  confirmed = packet.cov_confirmed;
  expires_at_us = expiry packet.cov_lifetime_seconds now_us;
  dirty = true;
  awaiting_ack = false;
  retry_count = 0;
  retry_payload = cleared_cache;
}

abbrev pub new_subscription : PacketResult → Address → ℕ → ℕ → Subscription
new_subscription packet source input_index now_us = record cleared {
  active = true;
  recipient = source;
  process_id = packet.cov_process_id;
  input_index = input_index;
  confirmed = packet.cov_confirmed;
  expires_at_us = expiry packet.cov_lifetime_seconds now_us;
  dirty = true;
}

-- The body of `apply_cov_subscription` for an input that is there.
unfoldable pub apply_to_input : CovState → PacketResult → Address → ℕ → ℕ → CovState
unfolding update_active_subscription_diagnostic
apply_to_input cov packet source input_index now_us =
    let table = cov.subscriptions in
    let same = is_subscription source packet.cov_process_id input_index in
    if any_of same table
    then if packet.cov_cancel
      then update_active_subscription_diagnostic
          (record cov { subscriptions = update_first same (λ _. cleared) table })
      else (record cov { subscriptions = update_first same (refresh packet now_us) table })
    else if packet.cov_cancel
    then cov
    else if any_of (λ s. not s.active) table
    then update_active_subscription_diagnostic (record cov {
      subscriptions =
          update_first (λ s. not s.active) (λ _. new_subscription packet source input_index now_us)
            table;
    })
    else cov

unfoldable pub apply_cov_subscription :
    CovState → PacketResult → Address → DeviceState → ℕ → CovState
unfolding input_index_for_instance apply_to_input
apply_cov_subscription cov packet source state now_us =
    elim (input_index_for_instance state packet.cov_object_instance) [
      | none ↦ cov
      | some input_index ↦ apply_to_input cov packet source input_index now_us
    ]

-- The subscription whose notification is acknowledged.
unfoldable pub is_acknowledged : PacketResult → Address → Subscription → Bool
is_acknowledged packet source s =
    s.active
    && s.awaiting_ack
    && (s.invoke_id == packet.invoke_id)
    && same_recipient s.recipient source

abbrev pub acknowledged : Subscription → Subscription
acknowledged s = record s { awaiting_ack = false; retry_count = 0; retry_payload = cleared_cache }

unfoldable pub handle_cov_ack : CovState → PacketResult → Address → CovState
unfolding update_active_subscription_diagnostic
handle_cov_ack cov packet source =
    let table = cov.subscriptions in
    let same = is_acknowledged packet source in
    if any_of same table
    then if packet.cov_ack_error
      then update_active_subscription_diagnostic (record cov {
        subscriptions = update_first same (λ _. cleared) table;
        events = cov.events ++ (errors ∷ []);
      })
      else (record cov {
        subscriptions = update_first same acknowledged table;
        events = cov.events ++ (cov_acked ∷ []);
      })
    else cov
