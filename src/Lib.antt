-- ===== src/Lib.antt =====
-- The firmware of a PoE switch-input device that speaks BACnet/IP: an ESP32-P4 samples three switch
-- inputs and serves them, with diagnostics, as BACnet objects over UDP.
--
-- Base: Boolean tests, machine words, lists by native index and laws of the bit operations.
--
-- Codec models main/bacnet_codec.c and main/bacnet_codec.h.
--   Codec/Writer.antt    the bounded writer (write_u8 ... encode_application_bit_string); a buffer is
--                        the list of the octets written, with its capacity and the failed flag
--   Codec/Tags.antt      the decoders of tagged values; a pointer with a length is the list from there on
--   Codec/Requests.antt  parse_who_is, parse_read_property, parse_who_has, parse_subscribe_cov
--   Codec/Multiple.antt  parse_read_property_multiple
--   Codec/Npdu.antt      the BVLC header and parse_application_npdu
--   Codec/Property.antt, Codec/Property/Lists.antt, Codec/ObjectType.antt, Codec/Service.antt
--                        the constants and property lists
--   Codec/State.antt     bacnet_device_state_t; a float is its 32 bits, a C string its bytes
--   Codec/Arrays.antt, Codec/Values.antt, Codec/Port.antt, Codec/Objects.antt
--                        encode_array, the property encoders per object type, encode_object_property
--   Codec/Frames.antt    the response frames and bacnet_encode_cov_notification
--   Codec/Handle.antt    bacnet_handle_packet, one function per branch; Handle/Local and Frames/Announce
--                        write the frames of requests and of the I-Am out in octets
-- The children Laws, Grows, Bounds, RoundTrip and Requests of these hold the proofs. A packet goes from
-- Handle through Npdu to a parser of Requests or Multiple, then to Frames, which read properties
-- through Objects and write through Writer.
--
-- Server models main/cov_retry_cache.c and, of main/bacnet_server.c, the subscriptions, the turn of the
-- task on a datagram and the checks before the start.
--   Server/Retry.antt    cov_retry_cache_capture, _data, _length, _clear
--   Server/Table.antt    the table cov_subscriptions, cov_subscription_can_apply,
--                        apply_cov_subscription and handle_cov_ack on a state that is passed along, with
--                        the calls into main/diagnostics.c recorded
--   Server/Notify.antt   service_cov_subscriptions; the socket's sendto is an argument
--   Server/Limit.antt    valid_source and response_allowed
--   Server/Packet.antt   the turn of bacnet_server_task on a datagram, from the codec's result to the
--                        answer and the table
--   Server/Start.antt    the checks of bacnet_server_start
-- Its requests are the results of Codec/Handle.antt, its notifications those of Codec/Frames.antt.
-- The children of Table, Notify and Packet hold proofs.
-- Times are natural numbers of microseconds, so no time before the start is represented.
--
-- Input models what is behind a switch input.
--   Input/Debounce.antt  main/input_debounce.c, with proofs in Debounce/Valid and Debounce/Hold
--   Input/Clock.antt     clock_model_sync and clock_model_stamp of main/clock_model.c
--   Input/Clock/ServerName.antt  clock_server_name_valid of main/clock_model.c
--   Input/History.antt   main/input_history.c, with proofs in History/Laws
--   Input/Poll.antt      switch_poll_task of main/switch_inputs.c, with proofs in Poll/Served
--   Input/SelfTest.antt  switch_inputs_run_self_test of main/switch_inputs.c
--
-- Sdk: the error codes, and non-volatile storage as a record of operations with the laws that its
-- documentation promises. The stores take it as a parameter.
--
-- Network models main/network_config_model.c and main/network_config_store.c.
--   Network/Model.antt   network_config_validate, _finalize, _is_valid_blob, _mutable_equal; the SDK's
--                        checksum is an argument
--   Network/Store.antt   the globals and the storage of the file, network_config_store_init, _update,
--                        _confirm_trial, and the guard's turn when the time of a trial is up
-- Model/Netmask, Model/Laws and Store/Flash, Invariant, Start, Restart and Trial hold proofs.
--
-- Settings models main/config_model.c and main/config_store.c in the same way, with proofs in
-- Model/Names, Model/Laws, Store/Invariant and Store/Restart. The settings of the build are a record.
--
-- Ota models main/ota_auth.c (Ota/Auth.antt, proofs in Auth/Exact, Auth/Roles and Auth/Copy) and
-- main/ota_health.c (Ota/Health.antt).
--
-- Diagnostics models parts of main/diagnostics.c and the models behind it.
--   Diagnostics/Log.antt      main/diagnostics_log_model.c, proofs in Log/Decode and Log/Reconcile
--   Diagnostics/Events.antt   record_event_locked, save_persistent_locked, load_persistent_state and the
--                             start of the log, proofs in Events/Ring and Events/Valid
--   Diagnostics/Time.antt     main/diagnostics_time.c and the counts of main/diagnostics_metrics.c
--   Diagnostics/Line.antt     main/input_line_classifier.c
--   Diagnostics/Network.antt  the network state of main/diagnostics.c
--
-- Tests holds sample inputs, and applies at them each theorem that has hypotheses or arguments.
--
-- Numbers are native natural numbers; the wrap-around of a w-bit integer is written out where the
-- source can reach it. NULL arguments, which the source refuses, are not represented,
-- but in Ota, where an absent header has a meaning.
-- Loops are structural: over octets, over list entries, or over the free slots of the table that a
-- loop fills (8 objects and 48 references in a ReadPropertyMultiple request), so no fuel is used.
-- Not modelled are main/ota_server.c and the other files of main/ that drive the SDK's HTTP, mDNS, SNTP,
-- GPIO and Ethernet, the device snapshot and sockets of main/bacnet_server.c, the
-- temperature and snapshot of main/diagnostics.c, and what they call in the SDK and the operating
-- system.
pub mod Base
pub mod Codec
pub mod Diagnostics
pub mod Input
pub mod Network
pub mod Ota
pub mod Sdk
pub mod Server
pub mod Settings
pub mod Tests
