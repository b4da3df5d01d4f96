-- ===== src/Server/Packet.antt =====
-- main/bacnet_server.c, lines 831-922: what the task loop does with a datagram that it received. The
-- snapshot of the device, the clock's values, whether the broadcast address is known and what the
-- socket's sendto answers are arguments. The octets of a response are those of the packet's result, so
-- a response of less than seven octets has 0 where the source would read an older one.
pub mod Laws
pub mod Grant
use esp32_p4_bacnet_switches.Base.{
  ℕ, Bool, true, false, not, ◌||◌, ◌&&◌, List, [], ◌∷◌, ◌++◌, Option, none, some, ltb, ◌==◌,
  if◌then◌else◌, length, get_or,
}
use esp32_p4_bacnet_switches.Codec.State.{DeviceState}
use esp32_p4_bacnet_switches.Codec.Frames.{encode_subscribe_cov_no_space}
use esp32_p4_bacnet_switches.Codec.Handle.{
  PacketKind, malformed, ignored, who_is, who_has, read_property, read_property_multiple,
  subscribe_cov, cov_ack, PacketResult, handle_packet,
}
use esp32_p4_bacnet_switches.Server.Table.{
  Address, CovState, Counter, errors, count_rx, count_who_is, count_who_has, count_read_property,
  count_read_property_multiple, count_subscribe_cov, count_malformed, count_ignored,
  count_responses, count_rate_limited, cov_subscription_can_apply, apply_cov_subscription,
  handle_cov_ack,
}
use esp32_p4_bacnet_switches.Server.Limit.{Window, response_allowed, valid_source}

-- `BACNET_RESPONSE_CAPACITY`
abbrev pub response_capacity : ℕ
response_capacity = 1482

-- What the loop keeps between two datagrams.
pub record ServerState : Type 0 where
  pub cov : CovState
  pub window : Window

-- `diagnostics_bacnet_increment`
abbrev pub count : Counter → CovState → CovState
count which cov = record cov { events = cov.events ++ (which ∷ []) }

abbrev pub is_subscribe : PacketKind → Bool
is_subscribe subscribe_cov = true
is_subscribe malformed = false
is_subscribe ignored = false
is_subscribe who_is = false
is_subscribe who_has = false
is_subscribe read_property = false
is_subscribe read_property_multiple = false
is_subscribe cov_ack = false

-- Whether the codec accepted a SubscribeCOV: its answer is a SimpleACK.
unfoldable pub is_accepted : PacketResult → Bool
is_accepted packet =
    is_subscribe packet.kind
    && ltb 6 (length packet.response)
    && (get_or packet.response 6 0 == 0x20)

-- The packet's result, and `apply_cov`: an accepted SubscribeCOV without room gets another answer.
unfoldable pub check_room : CovState → PacketResult → Address → DeviceState → PacketResult × Bool
check_room cov packet source state =
    if is_accepted packet && not (cov_subscription_can_apply cov packet source state)
    then (
      record packet { response = encode_subscribe_cov_no_space packet.invoke_id response_capacity },
      false,
    )
    else (packet, is_accepted packet)

-- The `switch` on the kind.
unfoldable pub note_kind : PacketKind → CovState → PacketResult → Address → CovState
note_kind who_is cov packet source = count count_who_is cov
note_kind who_has cov packet source = count count_who_has cov
note_kind read_property cov packet source = count count_read_property cov
note_kind read_property_multiple cov packet source = count count_read_property_multiple cov
note_kind subscribe_cov cov packet source = count count_subscribe_cov cov
note_kind cov_ack cov packet source = handle_cov_ack cov packet source
note_kind malformed cov packet source = count count_malformed cov
note_kind ignored cov packet source = count count_ignored cov

-- The first octet of an Error, Reject or Abort.
abbrev pub is_failure : ℕ → Bool
is_failure first = first == 0x50 || (first == 0x60) || (first == 0x70) || (first == 0x71)

-- After sendto: the counters, and the subscription that was granted.
unfoldable pub note_sent :
    CovState → PacketResult → Bool → Address → DeviceState → ℕ → Bool → CovState
note_sent cov packet apply_cov source state now_us sent =
    if not sent
    then count errors cov
    else (let responded = count count_responses cov in
        let counted =
          if is_failure (get_or packet.response 6 0) then count errors responded else responded in
        if apply_cov then apply_cov_subscription counted packet source state now_us else counted)

-- The answer, if there is one and it may be sent: the state, and what was sent, whether by broadcast.
unfoldable pub respond :
    ServerState
    → PacketResult
    → Bool
    → Address
    → DeviceState
    → ℕ
    → ℕ
    → Bool
    → (List ℕ → Bool → Bool)
    → ServerState × Option (List ℕ × Bool)
respond server packet apply_cov source state allowed_us applied_us broadcast_known takes =
    let octets = packet.response in
    let (window, allowed) = response_allowed server.window allowed_us in
    if length octets == 0
    then (server, none)
    else if not allowed
    then (record server { cov = count count_rate_limited server.cov; window = window }, none)
    else if packet.broadcast_response && not broadcast_known
    then (record server { window = window }, none)
    else (let sent = takes octets packet.broadcast_response in
        (
          record server {
            cov = note_sent server.cov packet apply_cov source state applied_us sent;
            window = window;
          },
          if sent then some (octets, packet.broadcast_response) else none,
        ))

unfoldable pub serve_packet :
    ServerState
    → List ℕ
    → Address
    → DeviceState
    → ℕ
    → ℕ
    → Bool
    → (List ℕ → Bool → Bool)
    → ServerState × Option (List ℕ × Bool)
serve_packet server request source state allowed_us applied_us broadcast_known takes =
    let (packet, apply_cov) =
      check_room (count count_rx server.cov) (handle_packet request state response_capacity) source
        state in
    respond
      (record server { cov = note_kind packet.kind (count count_rx server.cov) packet source })
      packet apply_cov source state allowed_us applied_us broadcast_known takes

-- The turn, with the check of the source before it.
unfoldable pub receive_packet :
    ℕ
    → ServerState
    → List ℕ
    → Address
    → DeviceState
    → ℕ
    → ℕ
    → Bool
    → (List ℕ → Bool → Bool)
    → ServerState × Option (List ℕ × Bool)
receive_packet inet server request source state allowed_us applied_us broadcast_known takes =
    if not (valid_source inet source.family source.address)
    then (server, none)
    else serve_packet server request source state allowed_us applied_us broadcast_known takes
