-- ===== src/Gateway/Send.antt =====
-- lifx/gateway.c: what a gateway is sent as a site. The host's byte order, the client id and the tree
-- of packet infos are given.
pub mod Queued
use lightsd.Common.{ℕ, ◌-◌, List, [], ◌∷◌, ◌++◌, Bool, true, Option, none, some, ◌^◌, replicate}
use lightsd.Wire.PacketType
use lightsd.Wire.TagIds.{u64_mod}
use lightsd.Wire.PacketInfo.{PacketInfo, label_size}
use lightsd.Wire.PacketTable.{PacketInfoMap, get_packet_info}
use lightsd.Wire.Endian.{Host, htole, memory}
use lightsd.Wire.Header.{Target, header_bytes, setup_header}
use lightsd.Gateway.State.{Gateway, min_refresh_interval_msecs}
use lightsd.Gateway.Queue.{enqueue_packet}

-- struct lgtd_lifx_packet_tags, encoded
unfoldable pub tags_packet : Host → ℕ → List ℕ
tags_packet host tags = memory host 8 (htole host 8 tags)

-- struct lgtd_lifx_packet_tag_labels, encoded, with a label of zeros
unfoldable pub no_tag_labels_packet : Host → ℕ → List ℕ
unfolding tags_packet
no_tag_labels_packet host tags = tags_packet host tags ++ replicate label_size 0

module _ (host : Host) (client_id : ℕ) (M : PacketInfoMap) where
  -- lgtd_lifx_gateway_send_to_site_impl, which the two functions that log differently call. A type
  -- that is not in the tree is an assertion in the source.
  unfoldable pub send_to_site : Gateway → ℕ → Option (List ℕ) → Gateway
  send_to_site gw pkt_type pkt = elim (get_packet_info M pkt_type) [
    | none ↦ gw
    | some info ↦
        enqueue_packet gw
          (header_bytes host (setup_header host client_id Target.site (some gw.site) info)) info pkt
  ]

  unfoldable pub send_get_all_light_state : Gateway → Gateway
  send_get_all_light_state gw =
      record (send_to_site (send_to_site gw PacketType.get_light_state none)
        PacketType.get_tag_labels (some (tags_packet host (u64_mod - 1)))) {
          pending_refresh_req = true;
        }

  -- lgtd_lifx_gateway_refresh_callback
  unfoldable pub refresh_callback : Gateway → Gateway
  refresh_callback gw = record (send_get_all_light_state gw) {
    refresh_in = min_refresh_interval_msecs;
  }
