-- ===== src/Tests/Server.antt =====
-- The COV subscriptions at concrete inputs.
use esp32_p4_bacnet_switches.Base.{
  ℕ, ◌+◌, ◌*◌, ◌≤◌, ◌≡◌, refl, Bool, true, false, not, List, [], ◌∷◌, some, length, arith, any_of,
  All, replicate,
}
use esp32_p4_bacnet_switches.Codec.Writer.{
  write_u8, write_bytes, write_be16, write_be32, unsigned_length, encode_tag, encode_unsigned_body,
  encode_context_unsigned, encode_application_enumerated, encode_opening_tag, encode_closing_tag,
  object_identifier, encode_context_object_id, encode_application_bit_string, set_all_bits,
}
use esp32_p4_bacnet_switches.Codec.Npdu.{start_bvlc, finish_bvlc}
use esp32_p4_bacnet_switches.Codec.Frames.{encode_cov_notification, cov_header}
use esp32_p4_bacnet_switches.Codec.Objects.{find_instance}
use esp32_p4_bacnet_switches.Codec.Handle.{PacketResult, silent, subscribe_cov}
use esp32_p4_bacnet_switches.Server.Table.{
  Address, Subscription, CovState, new_subscription, cleared, is_subscription,
  input_index_for_instance, cov_subscription_can_apply, apply_cov_subscription,
  active_subscription_count, same_recipient, expiry,
}
use esp32_p4_bacnet_switches.Server.Table.Laws.{count_of, IsReported}
use esp32_p4_bacnet_switches.Server.Table.Unique.{IsUnique}
use esp32_p4_bacnet_switches.Server.Table.Effect.{apply_cov_subscription-effect}
use esp32_p4_bacnet_switches.Server.Notify.{
  Seen, service_cov_subscriptions, service_subscription, has_expired, cov_time_remaining_seconds,
}
use esp32_p4_bacnet_switches.Server.Notify.Laws.{is_sound}
use esp32_p4_bacnet_switches.Server.Notify.Loop.{
  AllSound, IsCurrent, service_cov_subscriptions-IsCurrent,
}
use esp32_p4_bacnet_switches.Server.Notify.Resend.{first_notification, service_subscription-resends}
use esp32_p4_bacnet_switches.Server.Limit.{Window, allowed_count, allowed_count-second}
use esp32_p4_bacnet_switches.Codec.Handle.{handle_packet}
use esp32_p4_bacnet_switches.Server.Packet.{ServerState, serve_packet}
use esp32_p4_bacnet_switches.Server.Packet.Laws.{IsKept, serve_packet-IsKept}
use esp32_p4_bacnet_switches.Server.Packet.Grant.{serve_packet-granted}
use esp32_p4_bacnet_switches.Codec.Handle.{handle_apdu, handle_service, handle_subscribe_cov}
use esp32_p4_bacnet_switches.Codec.Npdu.{
  parse_destination, parse_source, parse_payload, parse_application_npdu,
}
use esp32_p4_bacnet_switches.Codec.Requests.{parse_cov_parameters, parse_subscribe_cov}
use esp32_p4_bacnet_switches.Codec.Tags.{
  decode_length, decode_tag, decode_octets, decode_context_unsigned, read_be32,
  decode_context_object_id_tag, decode_context_object_id,
}
use esp32_p4_bacnet_switches.Codec.Objects.{find_binary_input}
use esp32_p4_bacnet_switches.Codec.Frames.{encode_wrapped_short_apdu}
use esp32_p4_bacnet_switches.Server.Packet.{is_accepted, check_room, note_kind, note_sent, respond}
use esp32_p4_bacnet_switches.Server.Limit.{response_allowed}
use esp32_p4_bacnet_switches.Tests.Sample.{device}

abbrev client : Address
client = record { family = 2; port = 47808; address = 3232235786 }

-- A confirmed subscription for an hour to the second input, and its cancellation.
abbrev subscribe : PacketResult
subscribe = record (silent subscribe_cov) {
  invoke_id = 4;
  cov_process_id = 7;
  cov_object_instance = 2;
  cov_lifetime_seconds = 3600;
  cov_confirmed = true;
}

abbrev one_subscribed : CovState
one_subscribed = record {
  subscriptions = new_subscription subscribe client 1 5 ∷ replicate 7 cleared;
  next_invoke_id = 1;
  events = [];
  reported = 1;
}

one_subscribed-IsUnique : IsUnique one_subscribed
unfolding IsUnique count_of is_subscription
one_subscribed-IsUnique a p i = ground arith

one_subscribed-IsReported : IsReported one_subscribed
unfolding IsReported active_subscription_count
one_subscribed-IsReported = refl

one_subscribed_sound : AllSound one_subscribed.subscriptions
unfolding is_sound
one_subscribed_sound = (refl, (refl, (refl, (refl, (refl, (refl, (refl, (refl, tt))))))))

second_input : input_index_for_instance device 2 ≡ some 1
unfolding input_index_for_instance find_instance
second_input = refl

room : cov_subscription_can_apply one_subscribed subscribe client device ≡ true
unfolding cov_subscription_can_apply find_instance is_subscription same_recipient
room = refl

apply_cov_subscription-effect_example :
    any_of
      (is_subscription client 7 1)
      (apply_cov_subscription one_subscribed subscribe client device 9).subscriptions
    ≡ not subscribe.cov_cancel
apply_cov_subscription-effect_example =
    apply_cov_subscription-effect one_subscribed subscribe client device 9 one_subscribed-IsUnique
      second_input room

-- A socket that takes everything.
abbrev socket : List ℕ → Address → Bool
socket octets to = true

abbrev seen : Seen
seen = record {
  last_values = true ∷ true ∷ false ∷ true ∷ true ∷ [];
  last_reliability = replicate 5 0;
}

service_cov_subscriptions-IsCurrent_example :
    let after = (service_cov_subscriptions socket device 9 one_subscribed seen).0 in
    All (IsCurrent socket device 9) after.subscriptions
    × (1 ≤ after.next_invoke_id)
    × (after.next_invoke_id ≤ 255)
    × IsReported after
service_cov_subscriptions-IsCurrent_example =
    service_cov_subscriptions-IsCurrent socket device 9 one_subscribed seen one_subscribed_sound
      (omega arith) (omega arith)

abbrev waiting : Subscription
waiting = new_subscription subscribe client 1 5

first_notification-length : length (first_notification socket device 9 waiting 1) ≡ 40
unfolding encode_cov_notification cov_header start_bvlc finish_bvlc expiry
    cov_time_remaining_seconds write_u8 write_bytes write_be16 write_be32 unsigned_length encode_tag
    encode_unsigned_body encode_context_unsigned encode_application_enumerated encode_opening_tag
    encode_closing_tag object_identifier encode_context_object_id encode_application_bit_string
    set_all_bits
first_notification-length = refl

service_subscription-resends_example :
    let turn = service_subscription socket device 9 waiting 1 in
    (turn.sent ≡ (client, first_notification socket device 9 waiting 1) ∷ [])
    × ((service_subscription socket device 4000000 turn.subscription 1).sent ≡ turn.sent)
unfolding has_expired expiry
service_subscription-resends_example =
    service_subscription-resends socket socket device device 9 4000000 1 1 waiting refl refl refl
      refl refl refl (omega arith) (omega (arith, first_notification-length))
      (omega (arith, first_notification-length)) refl refl

abbrev window : Window
window = record { started_us = 0; responses = 49 }

allowed_count-second_example : allowed_count window (500000 ∷ 900000 ∷ 1200000 ∷ []) + 49 ≤ 2 * 50
allowed_count-second_example =
    allowed_count-second 500000 window (500000 ∷ 900000 ∷ 1200000 ∷ [])
      ((omega arith, omega arith), ((omega arith, omega arith), ((omega arith, omega arith), tt)))
      (omega arith)

-- A server with one subscription, and a SubscribeCOV for two minutes to the same input.
abbrev server : ServerState
server = record { cov = one_subscribed; window = record { started_us = 0; responses = 3 } }

abbrev subscribe_frame : List ℕ
subscribe_frame =
    0x81 ∷ 0x0A ∷ 0 ∷ 21 ∷ 1 ∷ 4 ∷ 0 ∷ 5 ∷ 4 ∷ 5 ∷ 0x09 ∷ 7 ∷ 0x1C ∷ 0 ∷ 0xC0 ∷ 0 ∷ 2 ∷ 0x29 ∷ 1
    ∷ 0x39 ∷ 120 ∷ []

abbrev takes_all : List ℕ → Bool → Bool
takes_all octets broadcast = true

serve_packet-IsKept_example :
    IsKept (serve_packet server subscribe_frame client device 9 9 true takes_all).0.cov
serve_packet-IsKept_example =
    serve_packet-IsKept server subscribe_frame client device 9 9 true takes_all
      (one_subscribed-IsUnique, one_subscribed-IsReported)

serve_packet-granted_example :
    any_of
      (is_subscription client 7 1)
      (serve_packet server subscribe_frame client device 9 9 true takes_all).0.cov.subscriptions
    ≡ true
unfolding handle_packet handle_apdu handle_service handle_subscribe_cov parse_destination
    parse_source parse_payload parse_application_npdu start_bvlc finish_bvlc parse_cov_parameters
    parse_subscribe_cov decode_length decode_tag decode_octets decode_context_unsigned read_be32
    decode_context_object_id_tag decode_context_object_id find_instance find_binary_input
    encode_wrapped_short_apdu write_u8 write_be16 write_bytes object_identifier is_accepted
    check_room note_kind note_sent respond serve_packet response_allowed cov_subscription_can_apply
    is_subscription same_recipient input_index_for_instance
serve_packet-granted_example =
    serve_packet-granted server subscribe_frame client device 9 9 true takes_all
      {octets = 0x81 ∷ 0x0A ∷ 0 ∷ 9 ∷ 1 ∷ 0 ∷ 0x20 ∷ 4 ∷ 5 ∷ []} {broadcast = false} {index = 1}
      one_subscribed-IsUnique refl refl refl refl
