-- ===== src/Lib.antt =====
-- lightsd is a daemon that finds LIFX bulbs on the network and lets clients control them over
-- JSON-RPC. Bulbs are reached through gateways, over UDP. This library models most of the C code
-- under lifx, which talks to the bulbs, and of core the router and the JSON-RPC server from the
-- tokens of a request on, with its methods but for get_light_state.
--
-- The parts and their files:
--
-- Wire is lifx/wire_proto.h and lifx/wire_proto.c. Wire/TagIds has the tag ids, which are the bits
-- of a uint64_t: lgtd_lifx_wire_bitscan64_forward, lgtd_lifx_wire_next_tag_id and the macro
-- LGTD_LIFX_WIRE_FOREACH_TAG_ID (`foreach_tag_id`). Wire/PacketType is enum lgtd_lifx_packet_type,
-- Wire/PacketInfo struct lgtd_lifx_packet_info and the sizes of payloads, Wire/PacketTable the
-- table of packets, lgtd_lifx_wire_load_packet_info_map and lgtd_lifx_wire_get_packet_info.
-- Wire/Endian has htole16 and its kin, for hosts of either byte order. Wire/Header is struct
-- lgtd_lifx_packet_header with lgtd_lifx_wire_setup_header, lgtd_lifx_wire_encode_header and
-- lgtd_lifx_wire_decode_header, and Wire/Receive is lgtd_lifx_wire_handle_receive. Wire/Payloads
-- has the encoders of colours, waveforms and tag labels, and the names of the waveforms.
--
-- Gateway is lifx/gateway.h and lifx/gateway.c. Gateway/State is struct lgtd_lifx_gateway;
-- Gateway/Queue has lgtd_lifx_gateway_enqueue_packet and the EV_WRITE branch of
-- lgtd_lifx_gateway_socket_event_callback (`write_ready`); Gateway/Send has
-- lgtd_lifx_gateway_send_to_site and the refresh callback; Gateway/TagIds has
-- lgtd_lifx_gateway_allocate_tag_id, lgtd_lifx_gateway_deallocate_tag_id,
-- lgtd_lifx_gateway_get_tag_id and lgtd_lifx_gateway_handle_tag_labels; Gateway/Refcounts has
-- lgtd_lifx_gateway_update_tag_refcounts and the loop of lgtd_lifx_gateway_remove_and_close_bulb;
-- Gateway/Bulbs has the setters of the state of a bulb in lifx/bulb.c, lgtd_router_send_to_device
-- of core/router.c and what lgtd_lifx_gateway_handle_light_status does to a bulb; Gateway/Hardware
-- has what a bulb knows of its hardware, with the setters of it in lifx/bulb.c.
--
-- Handling is the way of a packet from lgtd_lifx_wire_handle_receive to the bulb that it is about.
-- Handling/Payload has the decoders of payloads in lifx/wire_proto.c; Handling has
-- lgtd_lifx_bulb_open of lifx/bulb.c and lgtd_lifx_gateway_get_or_open_bulb; Handling/Setters has
-- the handlers of lifx/gateway.c, and Handling/Packets lgtd_lifx_gateway_handle_packet with
-- lgtd_lifx_gateway_get and lgtd_lifx_gateway_open. Handling/Links is about the pointers between
-- the table of bulbs and the lists of the gateways. Handling/Lifetime has the steps of the daemon
-- (`Step`: a packet, the watchdog, the refresh timer of a gateway, a socket that is ready to write
-- or that fails, a call of a method) and what they reach from a start without bulbs and gateways
-- (`Reach`).
--
-- Router is core/router.c: Router/Network has the bulbs, gateways and tags that it looks at,
-- lgtd_lifx_bulb_has_label and lgtd_router_device_addr_to_device; Router/Devices has
-- lgtd_router_targets_to_devices; Router/Targets says what a target stands for (`Selects`), apart
-- from the functions that look it up; Router/Sending has lgtd_router_send, lgtd_router_broadcast,
-- lgtd_router_send_to_tag, lgtd_router_send_to_label and lgtd_router_send_to_device, and
-- Router/Sending/Sent what these put into the queues of the gateways.
--
-- Jsonrpc is core/jsonrpc.c and core/jsonrpc.h. Jsonrpc/Tokens has the tokens that jsmn makes and
-- lgtd_jsonrpc_consume_object_or_array (`consume_object_or_array`); Jsonrpc/Types has the tests of
-- types; Jsonrpc/Schema has struct lgtd_jsonrpc_node and the three functions that extract values by
-- a schema (`extract_dict`, `extract_array`, `extract_params`); Jsonrpc/Numbers has strtol,
-- lgtd_jsonrpc_type_integer, lgtd_jsonrpc_type_float_between_0_and_360 and
-- lgtd_jsonrpc_float_range_to_uint16; Jsonrpc/Client has the functions that write answers, with
-- lgtd_client_write_buf and lgtd_client_write_string of core/client.c; Jsonrpc/Request has
-- lgtd_jsonrpc_check_and_extract_request; Jsonrpc/Dispatch has lgtd_jsonrpc_dispatch_one and
-- lgtd_jsonrpc_dispatch_request, where a method is a function on the client and on a state that is
-- not looked at; Jsonrpc/Methods has the methods power_on, power_off and power_toggle, with the
-- functions of core/proto.c behind them, on the network of Router; Jsonrpc/Methods/Params has what
-- the other methods share, Jsonrpc/Methods/Light set_light_from_hsbk and set_waveform,
-- Jsonrpc/Methods/Tagged lgtd_proto_tag and lgtd_proto_untag, and Jsonrpc/Methods/Labels set_label
-- and the parameters of the methods with a label. Jsonrpc/Answers has the messages as texts.
--
-- Tagging is lifx/tagging.h and lifx/tagging.c, the global list of tags. Discovery is
-- lifx/discovery.c: the timeout between discovery packets, and Discovery/Watchdog, which has
-- lgtd_lifx_discovery_watchdog_interval_callback with lgtd_lifx_gateway_close,
-- lgtd_lifx_gateway_remove_and_close_bulb and lgtd_lifx_bulb_close on the network of Router. Common
-- has the names, lists and bits that these share, and Examples applies the theorems to concrete
-- inputs.
--
-- How the code is modelled: an operation takes the state that it changes and gives it back. A
-- pointer to a tag or a gateway is a number. An int that may be -1 is an option. Integers of the
-- machine are natural numbers, with the wrap-around written out where it can happen. calloc is a
-- Boolean argument; recvfrom and evbuffer_write_atmost are results that are given. An assertion
-- that fails has no behaviour of its own, and where the source reads through a parameter that is
-- NULL nothing follows. A float is its 32 bits; the bits of the float that an int is converted to
-- are a parameter, `float_bits`. What strtol reads ends with the token. Bulbs are looked up in the
-- table by their address, gateways by the number that stands for the pointer; a new gateway gets a
-- number that no gateway has. The loop over the tag ids runs on 64 rounds of fuel, one for each bit
-- of the word, of which each round takes a higher one. The loops over tokens run on one round more
-- than there are tokens, or two where they recur, since a round goes a token on; a loop that runs
-- out of fuel has the result `none` or `exhausted`. A struct that is filled through offsets is a
-- list of slots. The red-black trees of compat/generic/sys/tree.h are a parameter, the record
-- `PacketInfoMap`, with what an insertion and a lookup do; the lists of compat/generic/sys/queue.h
-- are lists, and so is the tree of the bulbs.
--
-- Not modelled: get_light_state, which writes a text and changes nothing, with the printing of
-- numbers for it; the loop of core/client.c that parses; the timer that asks a bulb for its
-- hardware; lgtd_lifx_gateway_close_all; the names that are printed for packets and addresses.
-- Sockets, pipes, timers, options, logging and the title of the process, which are input and
-- output; core/jsmn.c and compat, which are other projects'.
pub mod Common
pub mod Wire
pub mod Tagging
pub mod Gateway
pub mod Discovery
pub mod Router
pub mod Handling
pub mod Jsonrpc
pub mod Examples
