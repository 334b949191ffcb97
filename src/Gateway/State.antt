-- ===== src/Gateway/State.antt =====
-- lifx/gateway.h: `struct lgtd_lifx_gateway` and the messages of its ring. A pointer to a tag is the
-- tag's number in the tag store, a pointer to a bulb the bulb's address. The link of the gateway
-- list, the peer's address and the libevent objects have no field, but for what the code asks of
-- them: the bytes of the write buffer, whether the socket's event is added, and the delay for which
-- the refresh timer was last scheduled.
use lightsd.Common.{ℕ, ◌-◌, List, [], Bool, false, Option, none, replicate, ltb, if◌then◌else◌}

abbrev pub min_refresh_interval_msecs : ℕ
min_refresh_interval_msecs = 800

abbrev pub packet_ring_size : ℕ
packet_ring_size = 16

abbrev pub max_tags : ℕ
max_tags = 64

-- struct lgtd_lifx_message
pub record Message : Type 0 where
  pub type : ℕ
  pub size : ℕ

abbrev pub no_message : Message
no_message = record { type = 0; size = 0 }

pub record Gateway : Type 0 where
  pub site : List ℕ
  pub bulbs : List (List ℕ)
  pub tag_ids : ℕ
  pub tags : List (Option ℕ)
  pub tag_refcounts : List ℕ
  pub last_req_at : ℕ
  pub next_req_at : ℕ
  pub last_pkt_at : ℕ
  pub pkt_ring : List Message
  pub pkt_ring_head : ℕ
  pub pkt_ring_tail : ℕ
  pub pkt_ring_full : Bool
  pub write_buf : List ℕ
  pub event_added : Bool
  pub pending_refresh_req : Bool
  pub refresh_in : ℕ

-- What calloc and lgtd_lifx_gateway_open leave in a new gateway.
abbrev pub opened : List ℕ → ℕ → Gateway
opened site received_at = record {
  site = site;
  bulbs = [];
  tag_ids = 0;
  tags = replicate max_tags none;
  tag_refcounts = replicate max_tags 0;
  last_req_at = received_at;
  next_req_at = received_at;
  last_pkt_at = received_at;
  pkt_ring = replicate packet_ring_size no_message;
  pkt_ring_head = 0;
  pkt_ring_tail = 0;
  pkt_ring_full = false;
  write_buf = [];
  event_added = false;
  pending_refresh_req = false;
  refresh_in = min_refresh_interval_msecs;
}

-- lgtd_lifx_gateway_latency
pub latency : Gateway → ℕ
latency gw = if ltb gw.last_req_at gw.last_pkt_at then gw.last_pkt_at - gw.last_req_at else 0
