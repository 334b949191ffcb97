-- ===== src/Discovery/Watchdog/Keeping.antt =====
-- The loops of the watchdog keep bulbs and gateways linked.
use mathlib.Core.Path.{subst}
use lightsd.Common.{
  ℕ, ◌≡◌, ◌≢◌, refl, sym, ap, ◌∙◌, inl, inr, List, [], ◌∷◌, Any, true, false, some, Bool-cases,
  ◌==◌, ==_refl, arith,
}
use lightsd.Common.Bytes.{same_bytes, same_bytes_refl}
use lightsd.Router.Network.{RoutedBulb, RoutedGateway, bulb_get, gateway_at}
use lightsd.Router.Devices.Known.{InTable}
use lightsd.Router.Devices.Insert.{Distinct}
use lightsd.Discovery.Watchdog.{
  World, bulb_close, remove_and_close_bulb, gateway_close, bulb_lags, gateway_lags,
  device_timeout_msecs, device_force_refresh_msecs, close_bulbs, close_gateways, watchdog_interval,
}
use lightsd.Discovery.Watchdog.Removal.{Is, Is-InTable}
use lightsd.Discovery.Watchdog.Forgetting.{gw_of-remove_other}
use lightsd.Discovery.Watchdog.Closing.{not_same}
use lightsd.Discovery.Watchdog.Unlisted.{bulbs_at-remove_other, gateway_close-Linked}
use lightsd.Discovery.Watchdog.Linked.{remove_and_close_bulb-Linked}
use lightsd.Handling.Links.{gw_of, bulbs_at, Numbered, DistinctNumbers, Linked}

abbrev IsGateway : RoutedGateway → List RoutedGateway → Type 0
IsGateway g gateways = Any (λ (x : RoutedGateway). x ≡ g) gateways

gw_of-Is :
    (bs : List RoutedBulb) (b : RoutedBulb)
    → Distinct bs
    → Is b bs
    → gw_of bs b.bulb.addr ≡ some b.gw
unfolding gw_of bulb_get
gw_of-Is [] b d h = absurd h
gw_of-Is (x ∷ bs) b (fresh, d) (inl e) =
    let f : same_bytes x.bulb.addr b.bulb.addr ≡ true =
      ap (λ (y : RoutedBulb). same_bytes y.bulb.addr b.bulb.addr) e ∙ same_bytes_refl b.bulb.addr in
    rw (f, gw_of, bulb_get) (ap (λ (y : RoutedBulb). some (y.gw)) e)
gw_of-Is (x ∷ bs) b (fresh, d) (inr h) =
    let f : same_bytes x.bulb.addr b.bulb.addr ≡ false =
      not_same x.bulb.addr b.bulb.addr
        (λ e. fresh (subst (λ (a : List ℕ). InTable a bs) (sym e) (Is-InTable b bs h))) in
    rw (f, gw_of, bulb_get) (gw_of-Is bs b d h)

IsGateway-Numbered :
    (gs : List RoutedGateway) (g : RoutedGateway) → IsGateway g gs → Numbered g.number gs
IsGateway-Numbered [] g h = h
IsGateway-Numbered (x ∷ gs) g (inl e) = inl (ap (λ (y : RoutedGateway). y.number) e)
IsGateway-Numbered (x ∷ gs) g (inr h) = inr (IsGateway-Numbered gs g h)

other_number :
    (gs : List RoutedGateway) (x g : RoutedGateway)
    → ¬ Numbered x.number gs
    → IsGateway g gs
    → x.number ≢ g.number
other_number gs x g fresh h e =
    fresh (subst (λ (n : ℕ). Numbered n gs) (sym e) (IsGateway-Numbered gs g h))

bulbs_at-IsGateway :
    (gs : List RoutedGateway) (g : RoutedGateway)
    → DistinctNumbers gs
    → IsGateway g gs
    → bulbs_at gs g.number ≡ some g.gw.bulbs
unfolding bulbs_at gateway_at
bulbs_at-IsGateway [] g d h = absurd h
bulbs_at-IsGateway (x ∷ gs) g (fresh, d) (inl e) =
    let f : (x.number == g.number) ≡ true =
      ap (λ (y : RoutedGateway). y.number == g.number) e ∙ ==_refl g.number in
    rw (f, bulbs_at, gateway_at) (ap (λ (y : RoutedGateway). some (y.gw.bulbs)) e)
bulbs_at-IsGateway (x ∷ gs) g (fresh, d) (inr h) =
    let ne = other_number gs x g fresh h in
    let f : (x.number == g.number) ≡ false = ground arith in
    rw (f, bulbs_at, gateway_at) (bulbs_at-IsGateway gs g d h)

close_bulbs-Linked :
    (now : ℕ) (left : List RoutedBulb) (w : World)
    → Distinct left
    → ((b : RoutedBulb) → Is b left → gw_of w.net.bulbs b.bulb.addr ≡ some b.gw)
    → Linked w.net
    → Linked (close_bulbs now w left).0.net
unfolding close_bulbs remove_and_close_bulb bulb_close
close_bulbs-Linked now [] w d known l = l
close_bulbs-Linked now (x ∷ left) w (fresh, d) known l = elim (Bool-cases (bulb_lags now x)) [
  | inr e ↦ rw (e, close_bulbs) (close_bulbs-Linked now left w d (λ b h. known b (inr h)) l)
  | inl e ↦
      rw (e, close_bulbs)
        (close_bulbs-Linked now left (remove_and_close_bulb w x) d
          (λ b h.
            gw_of-remove_other w.net.bulbs x.bulb.addr b.bulb.addr (
              not_same x.bulb.addr b.bulb.addr
                (λ f. fresh (subst (λ (a : List ℕ). InTable a left) (sym f) (Is-InTable b left h))))
            ∙ known b (inr h))
          (remove_and_close_bulb-Linked w x l (known x (inl refl))))
]

close_gateways-Linked :
    (now : ℕ) (left : List RoutedGateway) (w : World)
    → DistinctNumbers left
    → ((g : RoutedGateway) → IsGateway g left → bulbs_at w.net.gateways g.number ≡ some g.gw.bulbs)
    → Linked w.net
    → Linked (close_gateways now w left).0.net
unfolding close_gateways
close_gateways-Linked now [] w d known l = l
close_gateways-Linked now (x ∷ left) w (fresh, d) known l =
    elim (Bool-cases (gateway_lags now device_timeout_msecs x)) [
      | inl e ↦
          let (linked, removed) = gateway_close-Linked w x (known x (inl refl)) l in
          rw (e, close_gateways)
            (close_gateways-Linked now left (gateway_close w x) d
              (λ g h.
                ap (λ (gs : List RoutedGateway). bulbs_at gs g.number) removed
                ∙ bulbs_at-remove_other w.net.gateways x.number g.number
                    (other_number left x g fresh h)
                ∙ known g (inr h))
              linked)
      | inr e ↦
          let rest = close_gateways-Linked now left w d (λ g h. known g (inr h)) l in
          elim (Bool-cases (gateway_lags now device_force_refresh_msecs x)) [
            | inl f ↦ rw (e, f, close_gateways) rest
            | inr f ↦ rw (e, f, close_gateways) rest
          ]
    ]

-- If bulbs and gateways are linked, they are after the watchdog has closed those that it has not heard of
-- for 20 seconds: no bulb is left on a gateway that was closed, and no gateway lists a bulb that was.
pub watchdog_interval-Linked :
    (now : ℕ) (w : World) → Linked w.net → Linked (watchdog_interval now w).0.net
unfolding watchdog_interval
watchdog_interval-Linked now w l =
    let closed : World = (close_bulbs now w w.net.bulbs).0 in
    let linked : Linked closed.net =
      close_bulbs-Linked now w.net.bulbs w l.distinct (λ b h. gw_of-Is w.net.bulbs b l.distinct h)
        l in
    close_gateways-Linked now closed.net.gateways closed linked.numbers
      (λ g h. bulbs_at-IsGateway closed.net.gateways g linked.numbers h) linked
