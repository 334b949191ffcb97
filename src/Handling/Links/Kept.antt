-- ===== src/Handling/Links/Kept.antt =====
-- What leaves the list of bulbs of a gateway and the address of a bulb as they were.
use lightsd.Common.{
  ℕ, ◌≡◌, refl, ◌∙◌, inl, inr, List, [], ◌∷◌, Option, none, Bool-cases, Option-cases, get_or, ◌==◌,
  ltb, if_both,
}
use lightsd.Wire.PacketType
use lightsd.Wire.PacketInfo.{PacketInfo}
use lightsd.Wire.PacketTable.{PacketInfoMap, get_packet_info}
use lightsd.Wire.Endian.{Host}
use lightsd.Gateway.State.{Gateway, min_refresh_interval_msecs, latency}
use lightsd.Gateway.Queue.{enqueue_packet}
use lightsd.Gateway.Send.{send_to_site, send_get_all_light_state, refresh_callback}
use lightsd.Gateway.Refcounts.{
  for_each, count_up, count_down, delete_tag, release_tag, update_tag_refcounts,
}
use lightsd.Gateway.Bulbs.{
  BulbState, LightState, enqueue_for_device, note_power, set_power_state, set_tags, set_label,
  set_light_state, settle_power, send_power, refresh,
}

pub enqueue_packet-bulbs :
    (gw : Gateway) (hdr : List ℕ) (info : PacketInfo) (pkt : Option (List ℕ))
    → (enqueue_packet gw hdr info pkt).bulbs ≡ gw.bulbs
unfolding enqueue_packet
enqueue_packet-bulbs gw hdr info pkt = elim (Bool-cases gw.pkt_ring_full) [
  | inl e ↦ rw (e, enqueue_packet) refl
  | inr e ↦ rw (e, enqueue_packet) refl
]

pub for_each-bulbs :
    (body : Gateway → ℕ → Gateway)
    → ((gw : Gateway) (id : ℕ) → (body gw id).bulbs ≡ gw.bulbs)
    → (gw : Gateway) (ids : List ℕ) → (for_each body gw ids).bulbs ≡ gw.bulbs
unfolding for_each
for_each-bulbs body same gw [] = refl
for_each-bulbs body same gw (id ∷ ids) = for_each-bulbs body same (body gw id) ids ∙ same gw id

pub count_down-bulbs : (gw : Gateway) (id : ℕ) → (count_down gw id).bulbs ≡ gw.bulbs
unfolding count_down
count_down-bulbs gw id = refl

module _ (host : Host) (client_id : ℕ) (M : PacketInfoMap) where
  pub send_to_site-bulbs :
      (gw : Gateway) (type : ℕ) (pkt : Option (List ℕ))
      → (send_to_site host client_id M gw type pkt).bulbs ≡ gw.bulbs
  unfolding send_to_site
  send_to_site-bulbs gw type pkt = elim (Option-cases (get_packet_info M type)) [
    | inl e ↦ rw (e, send_to_site) refl
    | inr (info, e) ↦ rw (e, send_to_site) (enqueue_packet-bulbs gw _ info pkt)
  ]

  pub enqueue_for_device-bulbs :
      (gw : Gateway) (addr : List ℕ) (type : ℕ) (pkt : Option (List ℕ))
      → (enqueue_for_device host client_id M gw addr type pkt).bulbs ≡ gw.bulbs
  unfolding enqueue_for_device
  enqueue_for_device-bulbs gw addr type pkt = elim (Option-cases (get_packet_info M type)) [
    | inl e ↦ rw (e, enqueue_for_device) refl
    | inr (info, e) ↦ rw (e, enqueue_for_device) (enqueue_packet-bulbs gw _ info pkt)
  ]

  release_tag-bulbs :
      (gw : Gateway) (id : ℕ) → (release_tag host client_id M gw id).bulbs ≡ gw.bulbs
  unfolding release_tag delete_tag count_down
  release_tag-bulbs gw id = elim (Bool-cases (get_or (count_down gw id).tag_refcounts id 0 == 0)) [
    | inl e ↦ rw (e, release_tag, delete_tag) (send_to_site-bulbs (count_down gw id) _ _)
    | inr e ↦ rw (e, release_tag) refl
  ]

  pub update_tag_refcounts-bulbs :
      (gw : Gateway) (old new : ℕ)
      → (update_tag_refcounts host client_id M gw old new).bulbs ≡ gw.bulbs
  unfolding update_tag_refcounts count_up
  update_tag_refcounts-bulbs gw old new =
      for_each-bulbs (release_tag host client_id M) release_tag-bulbs _ _
      ∙ for_each-bulbs count_up (λ g id. refl) gw _

  send_get_all-bulbs :
      (gw : Gateway) → (send_get_all_light_state host client_id M gw).bulbs ≡ gw.bulbs
  unfolding send_get_all_light_state
  send_get_all-bulbs gw = send_to_site-bulbs _ _ _ ∙ send_to_site-bulbs gw _ _

  pub refresh-bulbs : (gw : Gateway) → (refresh host client_id M gw).bulbs ≡ gw.bulbs
  unfolding refresh
  refresh-bulbs gw =
      let P : Gateway → Type 0 = λ g. g.bulbs ≡ gw.bulbs in
      if_both P (ltb (latency gw) min_refresh_interval_msecs) _ _ refl
        (if_both P gw.pending_refresh_req _ _ refl (send_get_all-bulbs gw))

  pub refresh_callback-bulbs :
      (gw : Gateway) → (refresh_callback host client_id M gw).bulbs ≡ gw.bulbs
  unfolding refresh_callback
  refresh_callback-bulbs gw = send_get_all-bulbs gw

  -- The address of the bulb and the list of bulbs of its gateway stay.
  abbrev pub Keeps : (BulbState → BulbState) → Type 0
  Keeps f = (s : BulbState) → ((f s).bulb.addr ≡ s.bulb.addr) × ((f s).gw.bulbs ≡ s.gw.bulbs)

  note_power-bulbs :
      (s : BulbState) (power : ℕ) → (note_power host client_id M s power).gw.bulbs ≡ s.gw.bulbs
  note_power-bulbs s power = elim (Bool-cases (power == s.bulb.state.power)) [
    | inl e ↦ rw (e, note_power) refl
    | inr e ↦
        rw (e, note_power) (enqueue_for_device-bulbs s.gw s.bulb.addr PacketType.get_info none)
  ]

  pub set_power_state-Keeps : (power : ℕ) → Keeps (λ s. set_power_state host client_id M s power)
  unfolding set_power_state
  set_power_state-Keeps power s = (refl, note_power-bulbs s power)

  pub set_tags-Keeps : (tags : ℕ) → Keeps (λ s. set_tags host client_id M s tags)
  unfolding set_tags
  set_tags-Keeps tags s = (refl, update_tag_refcounts-bulbs s.gw s.bulb.state.tags tags)

  pub set_label-Keeps : (label : List ℕ) → Keeps (λ s. set_label host client_id M s label)
  unfolding set_label
  set_label-Keeps label s = (refl, refl)

  settle_power-Keeps : (now : ℕ) → Keeps (λ s. settle_power host client_id M s now)
  unfolding send_power
  settle_power-Keeps now s =
      let P : BulbState → Type 0 = λ t. (t.bulb.addr ≡ s.bulb.addr) × (t.gw.bulbs ≡ s.gw.bulbs) in
      if_both P _ _ _
        (if_both P (s.bulb.expected_power_on == s.bulb.state.power) _ _ (refl, refl)
          (refl, enqueue_for_device-bulbs s.gw s.bulb.addr PacketType.set_power_state _))
        (refl, refl)

  pub light_status-Keeps :
      (pkt : LightState) (at now : ℕ)
      → Keeps (λ s. settle_power host client_id M (set_light_state host client_id M s pkt at) now)
  unfolding set_light_state
  light_status-Keeps pkt at now s =
      let t = set_light_state host client_id M s pkt at in
      let (e, f) = settle_power-Keeps now t in
      (
        e,
        f ∙ update_tag_refcounts-bulbs _ s.bulb.state.tags pkt.tags ∙ note_power-bulbs s pkt.power,
      )
