-- ===== src/Examples/Watchdog.antt =====
-- The theorems on the watchdog, for a bulb whose last light state is a second old.
use lightsd.Common.{◌≡◌, refl, inl, [], ◌∷◌, Any}
use lightsd.Router.Network.{RoutedBulb}
use lightsd.Discovery.Watchdog.{World, close_bulbs, close_gateways, watchdog_interval}
use lightsd.Discovery.Watchdog.Recent.{close_bulbs-exact, watchdog_interval-Recent, IsYoung}
use lightsd.Discovery.Watchdog.Keeping.{watchdog_interval-Linked}
use lightsd.Handling.Links.{Linked}
use lightsd.Examples.Router.{bulb, net}
use lightsd.Examples.Handling.{lit, lit_Linked}

abbrev world : World
world = record { net = net; stats = record { gateways = 1; bulbs = 1; bulbs_powered_on = 0 } }

close_bulbs-exact_example :
    (Any (λ (x : RoutedBulb). x ≡ bulb) (close_bulbs 1000 world (bulb ∷ [])).0.net.bulbs
      → IsYoung 1000 bulb × Any (λ (x : RoutedBulb). x ≡ bulb) (bulb ∷ []))
    × (IsYoung 1000 bulb
        → Any (λ (x : RoutedBulb). x ≡ bulb) (bulb ∷ [])
        → Any (λ (x : RoutedBulb). x ≡ bulb) (close_bulbs 1000 world (bulb ∷ [])).0.net.bulbs)
close_bulbs-exact_example = close_bulbs-exact 1000 world ((λ h. h), tt) bulb

watchdog_interval-Recent_example :
    IsYoung 1000 bulb × Any (λ (x : RoutedBulb). x ≡ bulb) (bulb ∷ [])
unfolding watchdog_interval close_bulbs close_gateways
watchdog_interval-Recent_example =
    watchdog_interval-Recent 1000 world ((λ h. h), tt) bulb (inl refl)

-- A minute later nothing has been heard of the bulb and of the gateway.
watchdog_interval-Linked_example : Linked (watchdog_interval 60000 lit).0.net
watchdog_interval-Linked_example = watchdog_interval-Linked 60000 lit lit_Linked
