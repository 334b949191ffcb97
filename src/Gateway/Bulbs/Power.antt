-- ===== src/Gateway/Bulbs/Power.antt =====
-- The setters of a bulb against the counter of the bulbs that are on and the counters of tags.
use lightsd.Common.{
  ℕ, ◌+◌, ◌≤◌, ◌<◌, ◌≡◌, ◌⊎◌, refl, ap, ◌∙◌, List, Option, none, ◌==◌, if◌then◌else◌, arith, get_or,
  length, inl, inr, Bool-cases, Option-cases,
}
use lightsd.Common.Bits.{bit}
use lightsd.Wire.TagIds.{u64_mod}
use lightsd.Wire.PacketType
use lightsd.Wire.PacketTable.{PacketInfoMap, get_packet_info}
use lightsd.Wire.Endian.{Host}
use lightsd.Gateway.State.{Gateway}
use lightsd.Gateway.Refcounts.Exact.{enqueue_packet-counts, update_tag_refcounts-exact}
use lightsd.Gateway.Bulbs.{
  power_off, power_on, LightState, BulbState, enqueue_for_device, note_power, set_power_state,
  set_light_state,
}

-- A bulb is on or off, with no value in between.
abbrev pub IsPower : ℕ → Type 0
IsPower power = (power ≡ power_off) ⊎ (power ≡ power_on)

-- What a bulb with this power adds to the counter.
abbrev pub lit : ℕ → ℕ
lit power = if power == power_on then 1 else 0

module _ (host : Host) (client_id : ℕ) (M : PacketInfoMap) (s : BulbState) where
  enqueue_for_device-counts :
      (gw : Gateway) (addr : List ℕ) (type : ℕ) (pkt : Option (List ℕ))
      → (enqueue_for_device host client_id M gw addr type pkt).tag_refcounts ≡ gw.tag_refcounts
  unfolding enqueue_for_device
  enqueue_for_device-counts gw addr type pkt = elim (Option-cases (get_packet_info M type)) [
    | inl e ↦ rw (e, enqueue_for_device) refl
    | inr (info, e) ↦
        rw (e, enqueue_for_device) (enqueue_packet-counts host client_id M gw _ info pkt)
  ]

  note_power-counts :
      (power : ℕ) → (note_power host client_id M s power).gw.tag_refcounts ≡ s.gw.tag_refcounts
  note_power-counts power = elim (Bool-cases (power == s.bulb.state.power)) [
    | inl e ↦ rw e refl
    | inr e ↦ rw e (enqueue_for_device-counts s.gw s.bulb.addr PacketType.get_info none)
  ]

  note_power-lit :
      (power : ℕ)
      → IsPower s.bulb.state.power
      → IsPower power
      → lit s.bulb.state.power ≤ s.bulbs_powered_on
      → (note_power host client_id M s power).bulbs_powered_on + lit s.bulb.state.power
        ≡ s.bulbs_powered_on + lit power
  note_power-lit power old new le = elim (Bool-cases (power == s.bulb.state.power)) [
    | inl e ↦ rw e (ground (arith, e))
    | inr e ↦ rw e (ground (arith, e, old, new, le))
  ]

-- If a bulb is on or off and counted when it is on, and the new power is on or off, then
-- lgtd_lifx_bulb_set_power_state stores it, and moves the number of bulbs that are on by the
-- difference.
pub set_power_state-lit :
    (host : Host) (client_id : ℕ) (M : PacketInfoMap) (s : BulbState) (power : ℕ)
    → IsPower s.bulb.state.power
    → IsPower power
    → lit s.bulb.state.power ≤ s.bulbs_powered_on
    → ((set_power_state host client_id M s power).bulb.state.power ≡ power)
      × ((set_power_state host client_id M s power).bulbs_powered_on + lit s.bulb.state.power
          ≡ s.bulbs_powered_on + lit power)
unfolding set_power_state
set_power_state-lit host c M s power old new le = (refl, note_power-lit host c M s power old new le)

-- If a bulb is on or off and counted when it is on, the new power is on or off, the old and the new
-- tags have 64 bits, the gateway has its 64 counters, and the counter of a tag id below 64 has room if
-- the bulb gets the tag and counts at least this bulb if it has it, lgtd_lifx_bulb_set_light_state stores the state, and moves
-- the number of bulbs that are on and the counter of the tag id by the differences.
pub set_light_state-exact :
    (host : Host) (client_id : ℕ) (M : PacketInfoMap) (s : BulbState) (state : LightState)
    (received_at i : ℕ)
    → IsPower s.bulb.state.power
    → IsPower state.power
    → lit s.bulb.state.power ≤ s.bulbs_powered_on
    → s.bulb.state.tags < u64_mod
    → state.tags < u64_mod
    → i < 64
    → length s.gw.tag_refcounts ≡ 64
    → get_or s.gw.tag_refcounts i 0 + bit state.tags i ≤ 255
    → bit s.bulb.state.tags i ≤ get_or s.gw.tag_refcounts i 0
    → ((set_light_state host client_id M s state received_at).bulb.state ≡ state)
      × ((set_light_state host client_id M s state received_at).bulbs_powered_on
            + lit s.bulb.state.power
          ≡ s.bulbs_powered_on + lit state.power)
      × (get_or (set_light_state host client_id M s state received_at).gw.tag_refcounts i 0
            + bit s.bulb.state.tags i
          ≡ get_or s.gw.tag_refcounts i 0 + bit state.tags i)
unfolding set_light_state
set_light_state-exact host c M s state at i old new le ho hn lt h up down =
    let noted : Gateway = (note_power host c M s state.power).gw in
    let same : noted.tag_refcounts ≡ s.gw.tag_refcounts =
      note_power-counts host c M s state.power in
    (
      refl,
      note_power-lit host c M s state.power old new le,
      update_tag_refcounts-exact host c M noted s.bulb.state.tags state.tags i ho hn lt
            (ap length same ∙ h) (rw same up) (rw same down)
          ∙ ap (λ (l : List ℕ). get_or l i 0 + bit state.tags i) same,
    )
