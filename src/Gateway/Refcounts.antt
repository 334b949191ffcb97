-- ===== src/Gateway/Refcounts.antt =====
-- lifx/gateway.c: how many bulbs of a gateway have each of its tags, in counters of one byte.
pub mod Once
pub mod Exact
use lightsd.Common.{
  ℕ, ◌+◌, ◌-◌, ◌%◌, List, [], ◌∷◌, Bool, true, false, Option, none, some, ◌==◌, if◌then◌else◌,
  get_or, set, bit_and, bit_xor,
}
use lightsd.Wire.PacketType
use lightsd.Wire.TagIds.{u64_mod, tag_id_to_value, foreach_tag_id}
use lightsd.Wire.PacketTable.{PacketInfoMap}
use lightsd.Wire.Endian.{Host}
use lightsd.Gateway.State.{Gateway}
use lightsd.Gateway.Send.{send_to_site, no_tag_labels_packet}

-- A loop's body for each id in turn.
unfoldable pub for_each : (Gateway → ℕ → Gateway) → Gateway → List ℕ → Gateway
for_each body gw [] = gw
for_each body gw (id ∷ ids) = for_each body (body gw id) ids

abbrev pub saturated : ℕ → ℕ
saturated c = if c == 255 then c else c + 1

unfoldable pub count_up : Gateway → ℕ → Gateway
count_up gw id = record gw {
  tag_refcounts = set gw.tag_refcounts id (saturated (get_or gw.tag_refcounts id 0));
}

-- The decrement of a uint8_t.
abbrev pub wrapped_down : ℕ → ℕ
wrapped_down c = (c + 255) % 256

-- `--gw->tag_refcounts[tag_id]`
unfoldable pub count_down : Gateway → ℕ → Gateway
count_down gw id = record gw {
  tag_refcounts = set gw.tag_refcounts id (wrapped_down (get_or gw.tag_refcounts id 0));
}

module _ (host : Host) (client_id : ℕ) (M : PacketInfoMap) where
  -- The request to forget a tag id: the label of all the tag ids that are not in use is emptied.
  unfoldable pub delete_tag : Gateway → ℕ → Gateway
  delete_tag gw id = send_to_site host client_id M gw PacketType.set_tag_labels (
      some (
        no_tag_labels_packet host
          (u64_mod - 1 - bit_and gw.tag_ids (u64_mod - 1 - tag_id_to_value id))))

  unfoldable pub release_tag : Gateway → ℕ → Gateway
  release_tag gw id =
      let counted : Gateway = count_down gw id in
      if get_or counted.tag_refcounts id 0 == 0 then delete_tag counted id else counted

  unfoldable pub update_tag_refcounts : Gateway → ℕ → ℕ → Gateway
  update_tag_refcounts gw bulb_tags pkt_tags =
      let changes : ℕ = bit_xor bulb_tags pkt_tags in
      for_each release_tag (for_each count_up gw (foreach_tag_id (bit_and changes pkt_tags)))
        (foreach_tag_id (bit_and changes bulb_tags))

-- The loop of lgtd_lifx_gateway_remove_and_close_bulb over the tags of the bulb.
unfoldable pub remove_bulb_tags : Gateway → ℕ → Gateway
remove_bulb_tags gw bulb_tags = for_each count_down gw (foreach_tag_id bulb_tags)
