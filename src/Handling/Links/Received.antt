-- ===== src/Handling/Links/Received.antt =====
-- Every packet that is handled keeps bulbs and gateways linked.
use lightsd.Common.{
  ℕ, ◌≡◌, refl, ap, inl, inr, List, [], ◌∷◌, Bool, true, false, none, some, Bool-cases,
  Option-cases, ◌==◌, if_both,
}
use lightsd.Wire.PacketInfo.{Handler}
use lightsd.Wire.PacketTable.{PacketInfoMap}
use lightsd.Wire.Endian.{Host}
use lightsd.Tagging.Labels.{Label}
use lightsd.Gateway.State.{Gateway}
use lightsd.Gateway.Bulbs.{BulbState, LightState, refresh}
use lightsd.Router.Network.{
  RoutedBulb, RoutedGateway, bulb_get, gateway_at, set_gateway, before_zero,
}
use lightsd.Discovery.Watchdog.{World}
use lightsd.Handling.{on_gateway, get_or_open_bulb, on_bulb, with_bulb, last_pkt_at_of, new_bulb}
use lightsd.Handling.Payload.{Payload}
use lightsd.Handling.Setters.{
  set_bulb_attr, handle_tag_labels_at, handle_light_status_at, state_ip, firmware_ip,
  handle_ip_state, handle_ip_firmware_info,
}
use lightsd.Handling.Packets.{System, handle, note_packet, is_enosys}
use lightsd.Handling.Links.{gw_of, Linked, SameBulbs-refl, SameLinks-Linked}
use lightsd.Handling.Links.Opened.{opened-Linked, some_inj}
use lightsd.Handling.Links.Kept.{
  Keeps, refresh-bulbs, set_power_state-Keeps, set_tags-Keeps, set_label-Keeps, light_status-Keeps,
}
use lightsd.Handling.Links.Tags.{handle_tag_labels-bulbs}
use lightsd.Handling.Links.Handled.{
  set_gateway-SameGateways, on_gateway-SameLinks, on_bulb-SameLinks,
}

set_gateway-found :
    (gs : List RoutedGateway) (n : ℕ) (gw : Gateway) (g : RoutedGateway)
    → gateway_at gs n ≡ some g
    → gateway_at (set_gateway gs n gw) n ≡ some (record g { gw = gw })
unfolding gateway_at set_gateway
set_gateway-found [] n gw g h = cc
set_gateway-found (x ∷ gs) n gw g h = elim (Bool-cases (x.number == n)) [
  | inl e ↦
      let k : x ≡ g = some_inj (rw (e, gateway_at) at h) in
      rw (e, set_gateway, gateway_at, e) (ap (λ (y : RoutedGateway). some (record y { gw = gw })) k)
  | inr e ↦
      rw (e, set_gateway, gateway_at, e) (set_gateway-found gs n gw g (rw (e, gateway_at) at h))
]

abbrev pub Live : ℕ → World → Type 0
Live me w = (g : RoutedGateway) × (gateway_at w.net.gateways me ≡ some g)

gw_of-unknown : (bs : List RoutedBulb) (a : List ℕ) → bulb_get bs a ≡ none → gw_of bs a ≡ none
unfolding gw_of
gw_of-unknown bs a e = rw (e, gw_of) refl

get_or_open_bulb-Linked :
    (me : ℕ) (addr : List ℕ) (now : ℕ) (memory : Bool) (w : World)
    → Live me w
    → Linked w.net
    → Linked (get_or_open_bulb me addr now memory w).1.net
unfolding get_or_open_bulb on_gateway
get_or_open_bulb-Linked me addr now memory w (g, live) l =
    elim (Option-cases (bulb_get w.net.bulbs addr)) [
      | inr (b, e) ↦ rw (e, get_or_open_bulb) l
      | inl e ↦
          rw (e, get_or_open_bulb)
            (if_both (λ (r : Bool × World). Linked r.1.net) memory _ _
              (rw (on_gateway, live)
                (opened-Linked w.net l me g (record { bulb = new_bulb addr now; gw = me }) live refl
                  (gw_of-unknown w.net.bulbs addr e)))
              l)
    ]

with_bulb-Linked :
    (k : World → World) (r : Bool × World)
    → ((w : World) → Linked w.net → Linked (k w).net)
    → Linked r.1.net
    → Linked (with_bulb k r).net
with_bulb-Linked k (false, w) keeps l = l
with_bulb-Linked k (true, w) keeps l = keeps w l

pub on_gateway-Linked :
    (f : Gateway → Gateway) (me : ℕ) (w : World)
    → ((gw : Gateway) → (f gw).bulbs ≡ gw.bulbs)
    → Linked w.net
    → Linked (on_gateway f me w).net
on_gateway-Linked f me w same l = SameLinks-Linked w.net _ (on_gateway-SameLinks f me w same) l

handle_tag_labels_at-Linked :
    (me tags : ℕ) (label : Label) (memory : ℕ → Bool × Bool) (w : World)
    → Linked w.net
    → Linked (handle_tag_labels_at me tags label memory w).net
unfolding handle_tag_labels_at
handle_tag_labels_at-Linked me tags label memory w l =
    elim (Option-cases (gateway_at w.net.gateways me)) [
      | inl e ↦ rw (e, handle_tag_labels_at) l
      | inr (g, e) ↦
          rw (e, handle_tag_labels_at)
            (SameLinks-Linked w.net _
              (
                SameBulbs-refl w.net.bulbs,
                set_gateway-SameGateways w.net.gateways me _ g e (
                    handle_tag_labels-bulbs me (record { gw = g.gw; store = w.net.tags }) tags label
                      memory),
              )
              l)
    ]

on_gateway-Live :
    (f : Gateway → Gateway) (me : ℕ) (w : World) → Live me w → Live me (on_gateway f me w)
unfolding on_gateway
on_gateway-Live f me w (g, e) =
    rw (on_gateway, e) (record g { gw = f g.gw }, set_gateway-found w.net.gateways me (f g.gw) g e)

module _ (host : Host) (client_id : ℕ) (M : PacketInfoMap) where
  set_bulb_attr-Linked :
      (me : ℕ) (addr : List ℕ) (now : ℕ) (memory : Bool) (bulb_fn : ℕ → BulbState → BulbState)
      (w : World)
      → ((at : ℕ) → Keeps host client_id M (bulb_fn at))
      → Live me w
      → Linked w.net
      → Linked (set_bulb_attr me addr now memory bulb_fn w).net
  unfolding set_bulb_attr
  set_bulb_attr-Linked me addr now memory bulb_fn w keeps live l =
      with_bulb-Linked (λ v. on_bulb (bulb_fn (last_pkt_at_of v me)) addr v)
        (get_or_open_bulb me addr now memory w)
        (λ v lv.
          SameLinks-Linked v.net _
            (on_bulb-SameLinks host client_id M (bulb_fn (last_pkt_at_of v me)) addr v
              (keeps (last_pkt_at_of v me)))
            lv)
        (get_or_open_bulb-Linked me addr now memory w live l)

  handle_light_status_at-Linked :
      (me : ℕ) (addr : List ℕ) (now : ℕ) (memory : Bool) (pkt : LightState) (w : World)
      → Live me w
      → Linked w.net
      → Linked (handle_light_status_at host client_id M me addr now memory pkt w).net
  unfolding handle_light_status_at
  handle_light_status_at-Linked me addr now memory pkt w live l =
      with_bulb-Linked _ (get_or_open_bulb me addr now memory w)
        (λ v lv.
          on_gateway-Linked (refresh host client_id M) me _ (refresh-bulbs host client_id M) (
            SameLinks-Linked v.net _
              (on_bulb-SameLinks host client_id M _ addr v
                (light_status-Keeps host client_id M pkt (last_pkt_at_of v me) now))
              lv))
        (get_or_open_bulb-Linked me addr now memory w live l)

  module _ (system : System) where
    pub handle-Linked :
        (me : ℕ) (addr : List ℕ) (type : ℕ) (pkt : Payload) (w : World)
        → Live me w
        → Linked w.net
        → Linked (handle host client_id M system me addr type pkt w).net
    unfolding handle
    handle-Linked me addr type Payload.ignored w live l = l
    handle-Linked me addr type (Payload.light_status pkt) w live l =
        handle_light_status_at-Linked me addr _ _ pkt w live l
    handle-Linked me addr type (Payload.power_state power) w live l =
        set_bulb_attr-Linked me addr _ _ _ w (λ at. set_power_state-Keeps host client_id M power)
          live l
    handle-Linked me addr type (Payload.tag_labels pkt) w live l =
        handle_tag_labels_at-Linked me pkt.tags (before_zero pkt.label) system.tag_memory w l
    handle-Linked me addr type (Payload.tags tags) w live l =
        set_bulb_attr-Linked me addr _ _ _ w (λ at. set_tags-Keeps host client_id M tags) live l
    handle-Linked me addr type (Payload.ip_state pkt) w live l =
        elim (Option-cases (state_ip type)) [
          | inl e ↦ rw (e, handle_ip_state) l
          | inr (ip, e) ↦
              rw (e, handle_ip_state)
                (set_bulb_attr-Linked me addr _ _ _ w (λ at s. (refl, refl)) live l)
        ]
    handle-Linked me addr type (Payload.ip_firmware_info pkt) w live l =
        elim (Option-cases (firmware_ip type)) [
          | inl e ↦ rw (e, handle_ip_firmware_info) l
          | inr (ip, e) ↦
              rw (e, handle_ip_firmware_info)
                (set_bulb_attr-Linked me addr _ _ _ w (λ at s. (refl, refl)) live l)
        ]
    handle-Linked me addr type (Payload.product_info pkt) w live l =
        set_bulb_attr-Linked me addr _ _ _ w (λ at s. (refl, refl)) live l
    handle-Linked me addr type (Payload.runtime_info pkt) w live l =
        set_bulb_attr-Linked me addr _ _ _ w (λ at s. (refl, refl)) live l
    handle-Linked me addr type (Payload.bulb_label label) w live l =
        set_bulb_attr-Linked me addr _ _ _ w (λ at. set_label-Keeps host client_id M label) live l
    handle-Linked me addr type (Payload.ambient_light illuminance) w live l =
        set_bulb_attr-Linked me addr _ _ _ w (λ at s. (refl, refl)) live l

    pub note_packet-Linked :
        (handler : Handler) (at me : ℕ) (w : World)
        → Linked w.net
        → Linked (note_packet host client_id M system handler at me w).net
    note_packet-Linked handler at me w l =
        if_both (λ (v : World). Linked v.net) (is_enosys host client_id M system handler) _ _ l
          (on_gateway-Linked (λ gw. record gw { last_pkt_at = at }) me w (λ gw. refl) l)

    pub note_packet-Live :
        (handler : Handler) (at me : ℕ) (w : World)
        → Live me w
        → Live me (note_packet host client_id M system handler at me w)
    note_packet-Live handler at me w live =
        if_both (Live me) (is_enosys host client_id M system handler) _ _ live
          (on_gateway-Live (λ gw. record gw { last_pkt_at = at }) me w live)
