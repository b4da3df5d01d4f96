-- ===== src/Server/Packet/Grant.antt =====
-- What a SimpleACK that was sent to a SubscribeCOV says of the table.
use esp32_p4_bacnet_switches.Base.{
  ℕ, zero, suc, ◌≡◌, ◌≢◌, refl, ap, sym, ◌∙◌, Bool, true, not, List, [], ◌∷◌, some, ltb, length,
  get_or, any_of, arith,
}
use esp32_p4_bacnet_switches.Codec.State.{DeviceState}
use esp32_p4_bacnet_switches.Codec.Writer.{
  write_u8, write_bytes, write_be16, write_be32, unsigned_length, encode_tag, encode_unsigned_body,
  encode_application_enumerated,
}
use esp32_p4_bacnet_switches.Codec.Npdu.{start_bvlc, finish_bvlc}
use esp32_p4_bacnet_switches.Codec.Frames.{encode_subscribe_cov_no_space, encode_error}
use esp32_p4_bacnet_switches.Codec.Handle.{PacketKind, PacketResult, handle_packet, subscribe_cov}
use esp32_p4_bacnet_switches.Server.Table.{
  Address, CovState, count_rx, count_responses, count_subscribe_cov, is_subscription,
  input_index_for_instance, cov_subscription_can_apply, apply_cov_subscription,
}
use esp32_p4_bacnet_switches.Server.Table.Unique.{IsUnique}
use esp32_p4_bacnet_switches.Server.Table.Effect.{apply_cov_subscription-effect}
use esp32_p4_bacnet_switches.Server.Packet.{
  ServerState, count, is_subscribe, is_accepted, check_room, note_kind, note_sent, respond,
  serve_packet, response_capacity,
}

get_or-inside : (xs : List ℕ) (i : ℕ) → get_or xs i 0 ≢ 0 → ltb i (length xs) ≡ true
get_or-inside [] i some_octet = absurd (some_octet refl)
get_or-inside (x ∷ xs) zero some_octet = ground arith
get_or-inside (x ∷ xs) (suc i) some_octet = ground (arith, get_or-inside xs i some_octet)

no_space-failure :
    (invoke_id : ℕ) → get_or (encode_subscribe_cov_no_space invoke_id response_capacity) 6 0 ≡ 0x50
unfolding encode_subscribe_cov_no_space encode_error start_bvlc finish_bvlc write_u8 write_bytes
    write_be16 write_be32 unsigned_length encode_tag encode_unsigned_body
    encode_application_enumerated
no_space-failure invoke_id = refl

respond-sent :
    (server : ServerState) (packet : PacketResult) (apply_cov : Bool) (source : Address)
    (state : DeviceState) (allowed_us applied_us : ℕ) (broadcast_known : Bool)
    (takes : List ℕ → Bool → Bool) {octets : List ℕ} {broadcast : Bool}
    → let r =
        respond server packet apply_cov source state allowed_us applied_us broadcast_known takes in
      r.1 ≡ some (octets, broadcast)
      → (packet.response ≡ octets)
        × (r.0.cov ≡ note_sent server.cov packet apply_cov source state applied_us true)
unfolding respond
respond-sent server packet apply_cov source state allowed_us applied_us broadcast_known takes e =
    ground arith

is_accepted-ack :
    (packet : PacketResult)
    → is_subscribe packet.kind ≡ true
    → get_or packet.response 6 0 ≡ 0x20
    → is_accepted packet ≡ true
unfolding is_accepted
is_accepted-ack packet subscribes first = ground (
  arith,
  get_or-inside packet.response 6 (λ none_there. absurd (omega (arith, first, none_there))),
)

-- A SimpleACK is what the check leaves only if there is room.
check_room-ack :
    (cov : CovState) (packet : PacketResult) (source : Address) (state : DeviceState)
    → is_subscribe packet.kind ≡ true
    → let c = check_room cov packet source state in
      get_or c.0.response 6 0 ≡ 0x20
      → (c ≡ (packet, true)) × (cov_subscription_can_apply cov packet source state ≡ true)
unfolding check_room
check_room-ack cov packet source state subscribes first =
    ground (arith, is_accepted-ack packet subscribes, no_space-failure packet.invoke_id)

note_sent-granted :
    (cov : CovState) (packet : PacketResult) (source : Address) (state : DeviceState) (now_us : ℕ)
    → get_or packet.response 6 0 ≡ 0x20
    → note_sent cov packet true source state now_us true
      ≡ apply_cov_subscription (count count_responses cov) packet source state now_us
unfolding note_sent
note_sent-granted cov packet source state now_us first = rw first refl

is_subscribe-kind : (kind : PacketKind) → kind ≡ subscribe_cov → is_subscribe kind ≡ true
is_subscribe-kind kind e = rw e refl

-- The counters of a datagram are no part of the subscriptions.
counted-effect :
    (cov : CovState) (packet : PacketResult) (source : Address) (state : DeviceState) (now_us : ℕ)
    {index : ℕ}
    → IsUnique cov
    → packet.kind ≡ subscribe_cov
    → input_index_for_instance state packet.cov_object_instance ≡ some index
    → cov_subscription_can_apply cov packet source state ≡ true
    → get_or packet.response 6 0 ≡ 0x20
    → any_of
        (is_subscription source packet.cov_process_id index)
        (note_sent
          (note_kind packet.kind cov packet source)
          packet
          true
          source
          state
          now_us
          true).subscriptions
      ≡ not packet.cov_cancel
unfolding IsUnique cov_subscription_can_apply note_kind note_sent apply_cov_subscription
counted-effect cov packet source state now_us unique subscribes found room first =
    let counted = count count_responses (count count_subscribe_cov cov) in
    rw
      (
        subscribes,
        note_sent-granted (count count_subscribe_cov cov) packet source state now_us first,
      )
      (apply_cov_subscription-effect counted packet source state now_us unique found room)

-- If the subscriptions are unique and a datagram is a SubscribeCOV, with an optional cancellation,
-- for an input of the device, and the turn on it sends an answer whose seventh octet is 0x20, a
-- SimpleACK, then after the turn the subscription of the sender, process and input is in the table
-- exactly if the request does not cancel.
pub serve_packet-granted :
    (server : ServerState) (request : List ℕ) (source : Address) (state : DeviceState)
    (allowed_us applied_us : ℕ) (broadcast_known : Bool) (takes : List ℕ → Bool → Bool)
    {octets : List ℕ} {broadcast : Bool} {index : ℕ}
    → let packet = handle_packet request state response_capacity in
      let r =
        serve_packet server request source state allowed_us applied_us broadcast_known takes in
      IsUnique server.cov
      → packet.kind ≡ subscribe_cov
      → input_index_for_instance state packet.cov_object_instance ≡ some index
      → r.1 ≡ some (octets, broadcast)
      → get_or octets 6 0 ≡ 0x20
      → any_of (is_subscription source packet.cov_process_id index) r.0.cov.subscriptions
        ≡ not packet.cov_cancel
unfolding serve_packet IsUnique
serve_packet-granted server request source state allowed_us applied_us broadcast_known takes
      {octets} {broadcast} {index} unique subscribes found sent ack =
    let packet = handle_packet request state response_capacity in
    let received = count count_rx server.cov in
    let c = check_room received packet source state in
    let noted = record server { cov = note_kind c.0.kind received c.0 source } in
    let (same_octets, served) =
      respond-sent noted c.0 c.1 source state allowed_us applied_us broadcast_known takes sent in
    let first : get_or c.0.response 6 0 ≡ 0x20 = ap (λ o. get_or o 6 0) same_octets ∙ ack in
    let subscribe = is_subscribe-kind packet.kind subscribes in
    let (same, room) = check_room-ack received packet source state subscribe first in
    let answer_first : get_or packet.response 6 0 ≡ 0x20 =
      ap (λ d. get_or d.0.response 6 0) (sym same) ∙ first in
    ap (λ cov. any_of (is_subscription source packet.cov_process_id index) cov.subscriptions)
      (served
        ∙ ap
            (λ d.
              note_sent (note_kind d.0.kind received d.0 source) d.0 d.1 source state applied_us
                true)
            same)
    ∙ counted-effect received packet source state applied_us unique subscribes found room
        answer_first
