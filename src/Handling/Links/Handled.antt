-- ===== src/Handling/Links/Handled.antt =====
-- Writes to a bulb and to a gateway that keep the links.
use lightsd.Common.{
  ℕ, ◌≡◌, refl, sym, ap, ◌∙◌, inl, inr, List, [], ◌∷◌, some, Bool-cases, Option-cases, ◌==◌,
}
use lightsd.Common.Bytes.{same_bytes, same_bytes-eq}
use lightsd.Wire.PacketTable.{PacketInfoMap}
use lightsd.Wire.Endian.{Host}
use lightsd.Gateway.State.{Gateway}
use lightsd.Gateway.Bulbs.{Bulb, BulbState}
use lightsd.Router.Network.{RoutedBulb, RoutedGateway, bulb_get, gateway_at, set_gateway}
use lightsd.Discovery.Watchdog.{World}
use lightsd.Handling.{set_bulb, on_gateway, on_bulb}
use lightsd.Handling.Links.{
  SameBulbs, SameGateways, SameLinks, SameBulbs-refl, SameGateways-refl, SameLinks-refl,
}
use lightsd.Handling.Links.Opened.{some_inj}
use lightsd.Handling.Links.Kept.{Keeps}

pub set_bulb-SameBulbs :
    (bs : List RoutedBulb) (addr : List ℕ) (bulb : Bulb)
    → bulb.addr ≡ addr
    → SameBulbs bs (set_bulb bs addr bulb)
unfolding set_bulb
set_bulb-SameBulbs [] addr bulb e = SameBulbs.nil
set_bulb-SameBulbs (b ∷ bs) addr bulb e = elim (Bool-cases (same_bytes b.bulb.addr addr)) [
  | inl f ↦
      rw (f, set_bulb)
        (SameBulbs.cons b (record b { bulb = bulb }) (e ∙ sym (same_bytes-eq b.bulb.addr addr f))
          refl (SameBulbs-refl bs))
  | inr f ↦ rw (f, set_bulb) (SameBulbs.cons b b refl refl (set_bulb-SameBulbs bs addr bulb e))
]

pub set_gateway-SameGateways :
    (gs : List RoutedGateway) (n : ℕ) (gw : Gateway) (g : RoutedGateway)
    → gateway_at gs n ≡ some g
    → gw.bulbs ≡ g.gw.bulbs
    → SameGateways gs (set_gateway gs n gw)
unfolding set_gateway gateway_at
set_gateway-SameGateways [] n gw g h e = cc
set_gateway-SameGateways (x ∷ gs) n gw g h e = elim (Bool-cases (x.number == n)) [
  | inl f ↦
      let k : x ≡ g = some_inj (rw (f, gateway_at) at h) in
      rw (f, set_gateway)
        (SameGateways.cons x (record x { gw = gw }) refl
          (e ∙ sym (ap (λ (y : RoutedGateway). y.gw.bulbs) k)) (SameGateways-refl gs))
  | inr f ↦
      rw (f, set_gateway)
        (SameGateways.cons x x refl refl
          (set_gateway-SameGateways gs n gw g (rw (f, gateway_at) at h) e))
]

pub on_gateway-SameLinks :
    (f : Gateway → Gateway) (me : ℕ) (w : World)
    → ((gw : Gateway) → (f gw).bulbs ≡ gw.bulbs)
    → SameLinks w.net (on_gateway f me w).net
unfolding on_gateway
on_gateway-SameLinks f me w same = elim (Option-cases (gateway_at w.net.gateways me)) [
  | inl e ↦ rw (e, on_gateway) (SameLinks-refl w.net)
  | inr (g, e) ↦
      rw (e, on_gateway)
        (
          SameBulbs-refl w.net.bulbs,
          set_gateway-SameGateways w.net.gateways me (f g.gw) g e (same g.gw),
        )
]

module _ (host : Host) (client_id : ℕ) (M : PacketInfoMap) where
  pub on_bulb-SameLinks :
      (f : BulbState → BulbState) (addr : List ℕ) (w : World)
      → Keeps host client_id M f
      → SameLinks w.net (on_bulb f addr w).net
  unfolding on_bulb
  on_bulb-SameLinks f addr w keeps = elim (Option-cases (bulb_get w.net.bulbs addr)) [
    | inl e ↦ rw (e, on_bulb) (SameLinks-refl w.net)
    | inr (b, e) ↦ elim (Option-cases (gateway_at w.net.gateways b.gw)) [
      | inl k ↦ rw (e, k, on_bulb) (SameLinks-refl w.net)
      | inr (g, k) ↦
          let (addr_same, bulbs_same) =
            keeps
              (record { bulb = b.bulb; gw = g.gw; bulbs_powered_on = w.stats.bulbs_powered_on }) in
          rw (e, k, on_bulb)
            (
              set_bulb-SameBulbs w.net.bulbs b.bulb.addr _ addr_same,
              set_gateway-SameGateways w.net.gateways b.gw _ g k bulbs_same,
            )
    ]
  ]
