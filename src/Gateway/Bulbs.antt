-- ===== src/Gateway/Bulbs.antt =====
-- lifx/bulb.c, the setters of lifx/gateway.c's handlers and lgtd_router_send_to_device: a bulb, the
-- gateway that it is on, and the counter of the bulbs that are on. Of `struct lgtd_lifx_bulb` the
-- parts that these functions use are fields; `received_at` and `now` are milliseconds.
pub mod Power
use lightsd.Common.{
  ℕ, ◌+◌, ◌%◌, ◌^◌, ◌-◌, List, [], ◌∷◌, Bool, true, false, not, ◌&&◌, Option, none, some, ltb, ◌==◌,
  if◌then◌else◌, take,
}
use lightsd.Wire.PacketType
use lightsd.Wire.PacketInfo.{PacketInfo}
use lightsd.Wire.PacketTable.{PacketInfoMap, get_packet_info}
use lightsd.Wire.Endian.{Host, memory}
use lightsd.Wire.Header.{Target, header_bytes, setup_header}
use lightsd.Gateway.State.{Gateway, min_refresh_interval_msecs, latency}
use lightsd.Gateway.Queue.{enqueue_packet}
use lightsd.Gateway.Send.{send_get_all_light_state}
use lightsd.Gateway.Hardware.{Hardware}
use lightsd.Gateway.Refcounts.{update_tag_refcounts}

abbrev pub power_off : ℕ
power_off = 0

abbrev pub power_on : ℕ
power_on = 0xffff

-- struct lgtd_lifx_light_state
pub record LightState : Type 0 where
  pub hue : ℕ
  pub saturation : ℕ
  pub brightness : ℕ
  pub kelvin : ℕ
  pub dim : ℕ
  pub power : ℕ
  pub label : List ℕ
  pub tags : ℕ

pub record Bulb : Type 0 where
  pub addr : List ℕ
  pub last_light_state_at : ℕ
  pub dirty_at : ℕ
  pub expected_power_on : ℕ
  pub state : LightState
  pub hardware : Hardware

-- A bulb, its gateway, and `bulbs_powered_on` of lgtd_counters.
pub record BulbState : Type 0 where
  pub bulb : Bulb
  pub gw : Gateway
  pub bulbs_powered_on : ℕ

-- lgtd_stats_add of 1 or -1, which asserts that the sum is not negative.
abbrev pub count_power : ℕ → ℕ → ℕ
count_power power counter = if power == power_on then counter + 1 else counter - 1

module _ (host : Host) (client_id : ℕ) (M : PacketInfoMap) where
  -- The header and the queue of lgtd_router_send_to_device.
  unfoldable pub enqueue_for_device : Gateway → List ℕ → ℕ → Option (List ℕ) → Gateway
  enqueue_for_device gw addr pkt_type pkt = elim (get_packet_info M pkt_type) [
    | none ↦ gw
    | some info ↦
        enqueue_packet gw
          (header_bytes host (setup_header host client_id (Target.device addr) (some gw.site) info))
          info pkt
  ]

  -- lgtd_router_send_to_device of a packet that sets no power.
  abbrev pub send_to_device : BulbState → ℕ → Option (List ℕ) → BulbState
  send_to_device s pkt_type pkt = record s { gw = enqueue_for_device s.gw s.bulb.addr pkt_type pkt }

  -- lgtd_router_send_to_device of a packet that sets the power.
  unfoldable pub send_power : BulbState → ℕ → ℕ → BulbState
  send_power s power now = record s {
    gw =
        enqueue_for_device s.gw s.bulb.addr PacketType.set_power_state (some (memory host 2 power));
    bulb = record (s.bulb) { dirty_at = now; expected_power_on = power };
  }

  -- What both setters do first when the power changes.
  abbrev pub note_power : BulbState → ℕ → BulbState
  note_power s power =
      if power == s.bulb.state.power
      then s
      else send_to_device (record s { bulbs_powered_on = count_power power s.bulbs_powered_on })
          PacketType.get_info none

  unfoldable pub set_power_state : BulbState → ℕ → BulbState
  set_power_state s power =
      let noted : BulbState = note_power s power in
      record noted { bulb = record (s.bulb) { state = record (s.bulb.state) { power = power } } }

  unfoldable pub set_tags : BulbState → ℕ → BulbState
  set_tags s tags = record s {
    gw = update_tag_refcounts host client_id M s.gw s.bulb.state.tags tags;
    bulb = record (s.bulb) { state = record (s.bulb.state) { tags = tags } };
  }

  -- lgtd_lifx_bulb_set_label
  unfoldable pub set_label : BulbState → List ℕ → BulbState
  set_label s label = record s {
    bulb = record (s.bulb) { state = record (s.bulb.state) { label = take 32 label } };
  }

  unfoldable pub set_light_state : BulbState → LightState → ℕ → BulbState
  set_light_state s state received_at =
      let noted : BulbState = note_power s state.power in
      record noted {
        gw = update_tag_refcounts host client_id M noted.gw s.bulb.state.tags state.tags;
        bulb = record (s.bulb) { last_light_state_at = received_at; state = state };
      }

  -- The retransmission of a power state that the bulb did not take. The gateway may have had its last packet
  -- before the bulb got the power state, and the difference of the times wraps around.
  abbrev pub settle_power : BulbState → ℕ → BulbState
  settle_power s now =
      if not (s.bulb.dirty_at == 0)
        && (ltb s.bulb.dirty_at s.bulb.last_light_state_at
            && ltb 400 ((s.gw.last_pkt_at + 2 ^ 64 - s.bulb.dirty_at) % 2 ^ 64))
      then (if s.bulb.expected_power_on == s.bulb.state.power
          then record s { bulb = record (s.bulb) { dirty_at = 0 } }
          else send_power s (if s.bulb.expected_power_on == 0 then power_off else power_on) now)
      else s

  -- The next GET_LIGHT_STATE: later, now, or already in the queue.
  unfoldable pub refresh : Gateway → Gateway
  refresh gw =
      let delay : ℕ = latency gw in
      if ltb delay min_refresh_interval_msecs
      then record gw { refresh_in = min_refresh_interval_msecs - delay }
      else (if gw.pending_refresh_req then gw else send_get_all_light_state host client_id M gw)

  -- lgtd_lifx_gateway_handle_light_status, once the bulb is found or opened.
  unfoldable pub handle_light_status : BulbState → LightState → ℕ → BulbState
  handle_light_status s pkt now =
      let set : BulbState = set_light_state s pkt s.gw.last_pkt_at in
      let settled : BulbState = settle_power set now in record settled { gw = refresh settled.gw }
