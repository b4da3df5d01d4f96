-- ===== src/Server/Packet/Laws.antt =====
-- What a datagram does to the subscriptions, and what is answered to it.
use esp32_p4_bacnet_switches.Base.{
  ℕ, Bool, true, false, not, ◌&&◌, List, ◌==◌, if◌then◌else◌, length, get_or, Bool-cases, inl, inr,
}
use esp32_p4_bacnet_switches.Codec.State.{DeviceState}
use esp32_p4_bacnet_switches.Codec.Handle.{
  PacketKind, PacketResult, handle_packet, subscribe_cov, cov_ack, who_is, who_has, read_property,
  read_property_multiple, malformed, ignored,
}
use esp32_p4_bacnet_switches.Server.Table.{
  Address, CovState, Counter, errors, count_rx, count_responses, count_rate_limited,
  count_subscribe_cov, count_who_is, count_who_has, count_read_property,
  count_read_property_multiple, count_malformed, count_ignored, apply_cov_subscription,
}
use esp32_p4_bacnet_switches.Server.Table.Unique.{
  IsUnique, apply_cov_subscription-IsUnique, handle_cov_ack-IsUnique,
}
use esp32_p4_bacnet_switches.Server.Table.Laws.{
  IsReported, apply_cov_subscription-IsReported, handle_cov_ack-IsReported,
}
use esp32_p4_bacnet_switches.Server.Limit.{response_allowed}
use esp32_p4_bacnet_switches.Server.Packet.{
  ServerState, count, check_room, note_kind, is_failure, note_sent, respond, serve_packet,
  response_capacity,
}

-- The subscriptions of a state are unique and their number is reported.
abbrev pub IsKept : CovState → Type 0
IsKept cov = IsUnique cov × IsReported cov

count-IsKept : (which : Counter) (cov : CovState) → IsKept cov → IsKept (count which cov)
unfolding IsUnique IsReported
count-IsKept which cov kept = kept

note_kind-IsKept :
    (kind : PacketKind) (cov : CovState) (packet : PacketResult) (source : Address)
    → IsKept cov
    → IsKept (note_kind kind cov packet source)
unfolding note_kind
note_kind-IsKept who_is cov packet source kept = count-IsKept count_who_is cov kept
note_kind-IsKept who_has cov packet source kept = count-IsKept count_who_has cov kept
note_kind-IsKept read_property cov packet source kept = count-IsKept count_read_property cov kept
note_kind-IsKept read_property_multiple cov packet source kept =
    count-IsKept count_read_property_multiple cov kept
note_kind-IsKept subscribe_cov cov packet source kept = count-IsKept count_subscribe_cov cov kept
note_kind-IsKept cov_ack cov packet source kept = (
  handle_cov_ack-IsUnique cov packet source kept.0,
  handle_cov_ack-IsReported cov packet source kept.1,
)
note_kind-IsKept malformed cov packet source kept = count-IsKept count_malformed cov kept
note_kind-IsKept ignored cov packet source kept = count-IsKept count_ignored cov kept

failure-IsKept :
    (failed : Bool) (cov : CovState)
    → IsKept cov
    → IsKept (if failed then count errors cov else cov)
failure-IsKept true cov kept = count-IsKept errors cov kept
failure-IsKept false cov kept = kept

grant-IsKept :
    (apply_cov : Bool) (cov : CovState) (packet : PacketResult) (source : Address)
    (state : DeviceState) (now_us : ℕ)
    → IsKept cov
    → IsKept (if apply_cov then apply_cov_subscription cov packet source state now_us else cov)
grant-IsKept true cov packet source state now_us kept = (
  apply_cov_subscription-IsUnique cov packet source state now_us kept.0,
  apply_cov_subscription-IsReported cov packet source state now_us kept.1,
)
grant-IsKept false cov packet source state now_us kept = kept

note_sent-IsKept :
    (cov : CovState) (packet : PacketResult) (apply_cov : Bool) (source : Address)
    (state : DeviceState) (now_us : ℕ) (sent : Bool)
    → IsKept cov
    → IsKept (note_sent cov packet apply_cov source state now_us sent)
unfolding note_sent
note_sent-IsKept cov packet apply_cov source state now_us false kept = count-IsKept errors cov kept
note_sent-IsKept cov packet apply_cov source state now_us true kept =
    let responded = count count_responses cov in
    let failed = is_failure (get_or packet.response 6 0) in
    let counted = if failed then count errors responded else responded in
    let counted_kept : IsKept counted =
      failure-IsKept failed responded (count-IsKept count_responses cov kept) in
    grant-IsKept apply_cov counted packet source state now_us counted_kept

respond-IsKept :
    (server : ServerState) (packet : PacketResult) (apply_cov : Bool) (source : Address)
    (state : DeviceState) (allowed_us applied_us : ℕ) (broadcast_known : Bool)
    (takes : List ℕ → Bool → Bool)
    → IsKept server.cov
    → IsKept
        (respond server packet apply_cov source state allowed_us applied_us broadcast_known
          takes).0.cov
unfolding respond
respond-IsKept server packet apply_cov source state allowed_us applied_us broadcast_known takes
      kept =
    let sent = takes packet.response packet.broadcast_response in
    elim (Bool-cases (length packet.response == 0)) [
      | inl h ↦ rw (h, respond) kept
      | inr h ↦
          rw (h, respond)
            (elim (Bool-cases (response_allowed server.window allowed_us).1) [
              | inr limited ↦
                  rw (limited, respond) (count-IsKept count_rate_limited server.cov kept)
              | inl allowed ↦
                  rw (allowed, respond)
                    (elim (Bool-cases (packet.broadcast_response && not broadcast_known)) [
                      | inl lost ↦ rw (lost, respond) kept
                      | inr known ↦
                          rw (known, respond)
                            (note_sent-IsKept server.cov packet apply_cov source state applied_us
                              sent kept)
                    ])
            ])
    ]

-- If no recipient has two active subscriptions of one process to one input, and the reported number
-- of active subscriptions is right, both hold after the turn on any datagram, whatever the clock,
-- the socket and the device are.
pub serve_packet-IsKept :
    (server : ServerState) (request : List ℕ) (source : Address) (state : DeviceState)
    (allowed_us applied_us : ℕ) (broadcast_known : Bool) (takes : List ℕ → Bool → Bool)
    → IsKept server.cov
    → IsKept
        (serve_packet server request source state allowed_us applied_us broadcast_known takes).0.cov
unfolding serve_packet
serve_packet-IsKept server request source state allowed_us applied_us broadcast_known takes kept =
    let received = count count_rx server.cov in
    let checked =
      check_room received (handle_packet request state response_capacity) source state in
    respond-IsKept (record server { cov = note_kind checked.0.kind received checked.0 source })
      checked.0 checked.1 source state allowed_us applied_us broadcast_known takes
      (note_kind-IsKept checked.0.kind received checked.0 source
        (count-IsKept count_rx server.cov kept))
