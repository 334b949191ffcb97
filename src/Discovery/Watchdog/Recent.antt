-- ===== src/Discovery/Watchdog/Recent.antt =====
-- What the watchdog leaves in the table of bulbs.
use mathlib.Core.Path.{subst}
use lightsd.Common.{
  ℕ, ◌+◌, ◌-◌, ◌%◌, ◌^◌, ◌<◌, ◌≤◌, ◌≡◌, ◌⊎◌, ltb, leb, ◌&&◌, arith, refl, sym, ap, ◌∙◌, inl, inr,
  List, [], ◌∷◌, Any, Bool, true, false, Bool-cases, Option-cases,
}
use lightsd.Router.Network.{RoutedBulb, RoutedGateway, bulb_get}
use lightsd.Router.Devices.Known.{InTable}
use lightsd.Router.Devices.Insert.{Distinct}
use lightsd.Discovery.Watchdog.{
  World, device_timeout_msecs, device_force_refresh_msecs, remove_bulb, bulb_close,
  remove_and_close_bulb, close_each, gateway_close, bulb_lags, gateway_lags, close_bulbs,
  close_gateways, watchdog_interval,
}
use lightsd.Discovery.Watchdog.Removal.{
  Is, Is-InTable, remove_bulb-Is, remove_bulb-Distinct, remove_bulb-gone, Distinct-Is,
  remove_bulb-other,
}

-- The table of a world.
abbrev table : World → List RoutedBulb
table w = w.net.bulbs

table-remove_and_close_bulb :
    (w : World) (b : RoutedBulb)
    → table (remove_and_close_bulb w b) ≡ remove_bulb (table w) b.bulb.addr
unfolding remove_and_close_bulb bulb_close
table-remove_and_close_bulb w b = refl

-- Each bulb of the table is recent, or is still to come.
abbrev Recent : ℕ → List RoutedBulb → List RoutedBulb → Type 0
Recent now left bulbs = (b : RoutedBulb) → Is b bulbs → (bulb_lags now b ≡ false) ⊎ Is b left

close_bulbs-Recent :
    (now : ℕ) (left : List RoutedBulb) (w : World)
    → Distinct (table w)
    → Recent now left (table w)
    → Recent now [] (table (close_bulbs now w left).0)
unfolding close_bulbs
close_bulbs-Recent now [] w d r = r
close_bulbs-Recent now (x ∷ left) w d r = elim (Bool-cases (bulb_lags now x)) [
  | inl e ↦
      rw (e, close_bulbs)
        (close_bulbs-Recent now left (remove_and_close_bulb w x)
          (subst Distinct (sym (table-remove_and_close_bulb w x))
            (remove_bulb-Distinct (table w) x.bulb.addr d))
          (subst (Recent now left) (sym (table-remove_and_close_bulb w x)) (λ b h.
            elim (r b (remove_bulb-Is (table w) x.bulb.addr b h)) [
              | inl k ↦ inl k
              | inr k ↦ elim k [
                | inl same ↦ absurd (
                    remove_bulb-gone (table w) x.bulb.addr d (
                      subst (λ (a : List ℕ). InTable a (remove_bulb (table w) x.bulb.addr))
                        (sym (ap (λ (y : RoutedBulb). y.bulb.addr) same))
                        (Is-InTable b (remove_bulb (table w) x.bulb.addr) h)))
                | inr j ↦ inr j
              ]
            ])))
  | inr e ↦
      rw (e, close_bulbs)
        (close_bulbs-Recent now left w d (λ b h. elim (r b h) [
          | inl k ↦ inl k
          | inr k ↦ elim k [
            | inl same ↦ inl (subst (λ (y : RoutedBulb). bulb_lags now y ≡ false) same e)
            | inr j ↦ inr j
          ]
        ]))
]

close_bulbs-keeps :
    (now : ℕ) (left : List RoutedBulb) (w : World) (b : RoutedBulb)
    → ((x : RoutedBulb) → Is x left → bulb_lags now x ≡ true → ¬ (x.bulb.addr ≡ b.bulb.addr))
    → Is b (table w)
    → Is b (table (close_bulbs now w left).0)
unfolding close_bulbs
close_bulbs-keeps now [] w b apart h = h
close_bulbs-keeps now (x ∷ left) w b apart h = elim (Bool-cases (bulb_lags now x)) [
  | inl e ↦
      rw (e, close_bulbs)
        (close_bulbs-keeps now left (remove_and_close_bulb w x) b (λ y k. apart y (inr k))
          (subst (Is b) (sym (table-remove_and_close_bulb w x))
            (remove_bulb-other (table w) x.bulb.addr b (apart x (inl refl) e) h)))
  | inr e ↦ rw (e, close_bulbs) (close_bulbs-keeps now left w b (λ y k. apart y (inr k)) h)
]

-- Closing leaves no bulb that was not there.
abbrev Within : World → World → Type 0
Within w w' = (b : RoutedBulb) → Is b (table w') → Is b (table w)

remove_and_close_bulb-Within : (w : World) (b : RoutedBulb) → Within w (remove_and_close_bulb w b)
remove_and_close_bulb-Within w x b h =
    remove_bulb-Is (table w) x.bulb.addr b (subst (Is b) (table-remove_and_close_bulb w x) h)

close_each-Within : (addrs : List (List ℕ)) (w : World) → Within w (close_each w addrs)
unfolding close_each
close_each-Within [] w b h = h
close_each-Within (addr ∷ addrs) w b h = elim (Option-cases (bulb_get (table w) addr)) [
  | inl e ↦
      let f : close_each w (addr ∷ addrs) ≡ close_each w addrs = rw (e, close_each) refl in
      close_each-Within addrs w b (subst (λ (v : World). Is b (table v)) f h)
  | inr (x, e) ↦
      let f : close_each w (addr ∷ addrs) ≡ close_each (remove_and_close_bulb w x) addrs =
        rw (e, close_each) refl in
      remove_and_close_bulb-Within w x b (
        close_each-Within addrs (remove_and_close_bulb w x) b
          (subst (λ (v : World). Is b (table v)) f h))
]

gateway_close-Within : (w : World) (g : RoutedGateway) → Within w (gateway_close w g)
unfolding gateway_close
gateway_close-Within w g b h = close_each-Within g.gw.bulbs _ b h

close_bulbs-Within :
    (now : ℕ) (left : List RoutedBulb) (w : World) → Within w (close_bulbs now w left).0
unfolding close_bulbs
close_bulbs-Within now [] w b h = h
close_bulbs-Within now (x ∷ left) w b h = elim (Bool-cases (bulb_lags now x)) [
  | inl e ↦
      let f : close_bulbs now w (x ∷ left)
          ≡ ((close_bulbs now (remove_and_close_bulb w x) left).0, true) =
        rw (e, close_bulbs) refl in
      remove_and_close_bulb-Within w x b (
        close_bulbs-Within now left (remove_and_close_bulb w x) b
          (subst (λ (v : World × Bool). Is b (table v.0)) f h))
  | inr e ↦
      let f : close_bulbs now w (x ∷ left) ≡ close_bulbs now w left = rw (e, close_bulbs) refl in
      close_bulbs-Within now left w b (subst (λ (v : World × Bool). Is b (table v.0)) f h)
]

close_gateways-Within :
    (now : ℕ) (gateways : List RoutedGateway) (w : World)
    → Within w (close_gateways now w gateways).0
unfolding close_gateways
close_gateways-Within now [] w b h = h
close_gateways-Within now (g ∷ gateways) w b h =
    elim (Bool-cases (gateway_lags now device_timeout_msecs g)) [
      | inl e ↦
          let f : (close_gateways now w (g ∷ gateways)).0
              ≡ (close_gateways now (gateway_close w g) gateways).0 =
            rw (e, close_gateways) refl in
          gateway_close-Within w g b (
            close_gateways-Within now gateways (gateway_close w g) b
              (subst (λ (v : World). Is b (table v)) f h))
      | inr e ↦ elim (Bool-cases (gateway_lags now device_force_refresh_msecs g)) [
        | inl k ↦
            let f : (close_gateways now w (g ∷ gateways)).0 ≡ (close_gateways now w gateways).0 =
              rw (e, k, close_gateways) refl in
            close_gateways-Within now gateways w b (subst (λ (v : World). Is b (table v)) f h)
        | inr k ↦
            let f : (close_gateways now w (g ∷ gateways)).0 ≡ (close_gateways now w gateways).0 =
              rw (e, k, close_gateways) refl in
            close_gateways-Within now gateways w b (subst (λ (v : World). Is b (table v)) f h)
      ]
    ]

-- The age of the last light state of a bulb in milliseconds, as an int has it: its low 32 bits.
abbrev pub age : ℕ → RoutedBulb → ℕ
age now b = (now + 2 ^ 64 - b.bulb.last_light_state_at) % 2 ^ 64 % 2 ^ 32

-- Less than 20 seconds old by these bits, or with the bit 31, so that the int is negative.
abbrev pub IsYoung : ℕ → RoutedBulb → Type 0
IsYoung now b = (age now b < 20000) ⊎ (2 ^ 31 ≤ age now b)

young_if : (m : ℕ) → (ltb m (2 ^ 31) && leb 20000 m) ≡ false → (m < 20000) ⊎ (2 ^ 31 ≤ m)
young_if m e = ground arith

kept_if : (m : ℕ) → (m < 20000) ⊎ (2 ^ 31 ≤ m) → (ltb m (2 ^ 31) && leb 20000 m) ≡ false
kept_if m h = ground arith

lags-exact :
    (now : ℕ) (w : World)
    → Distinct w.net.bulbs
    → (b : RoutedBulb)
    → (Is b (close_bulbs now w w.net.bulbs).0.net.bulbs
        → (bulb_lags now b ≡ false) × Is b w.net.bulbs)
      × (bulb_lags now b ≡ false
          → Is b w.net.bulbs
          → Is b (close_bulbs now w w.net.bulbs).0.net.bulbs)
lags-exact now w d b = (
  (λ h. elim (close_bulbs-Recent now (table w) w d (λ x k. inr k) b h) [
    | inl e ↦ (e, close_bulbs-Within now (table w) w b h)
    | inr k ↦ absurd k
  ]),
  (λ e h.
      close_bulbs-keeps now (table w) w b (λ x k late same. late_and_recent x k late same e h) h),
)
  where
    late_and_recent :
        (x : RoutedBulb)
        → Is x (table w)
        → bulb_lags now x ≡ true
        → x.bulb.addr ≡ b.bulb.addr
        → bulb_lags now b ≡ false
        → Is b (table w)
        → ⊥
    late_and_recent x k late same e h =
        let f : x ≡ b = Distinct-Is (table w) x b d k h same in
        let g : true ≡ false = sym late ∙ ap (λ (y : RoutedBulb). bulb_lags now y) f ∙ e in cc

-- When no two bulbs of the table have the same address, the loop of the watchdog over the bulbs leaves
-- exactly those in the table whose last light state is less than 20000 milliseconds old by the low 32 bits of
-- the age, or whose age has its bit 31 set, so that the int to which it is cut is negative.
pub close_bulbs-exact :
    (now : ℕ) (w : World)
    → Distinct w.net.bulbs
    → (b : RoutedBulb)
    → (Any (λ (x : RoutedBulb). x ≡ b) (close_bulbs now w w.net.bulbs).0.net.bulbs
        → IsYoung now b × Any (λ (x : RoutedBulb). x ≡ b) w.net.bulbs)
      × (IsYoung now b
          → Any (λ (x : RoutedBulb). x ≡ b) w.net.bulbs
          → Any (λ (x : RoutedBulb). x ≡ b) (close_bulbs now w w.net.bulbs).0.net.bulbs)
close_bulbs-exact now w d b =
    let (from, to) = lags-exact now w d b in
    (
      (λ h. let (e, i) = from h in (young_if (age now b) e, i)),
      (λ y i. to (kept_if (age now b) y) i),
    )

-- When no two bulbs of the table have the same address, then each bulb that is in the table after the
-- watchdog was in it before, and its last light state is less than 20000 milliseconds old at that time by the low
-- 32 bits of the age, or the age has its bit 31 set, so that the int to which it is cut is negative.
pub watchdog_interval-Recent :
    (now : ℕ) (w : World)
    → Distinct w.net.bulbs
    → (b : RoutedBulb) → Any (λ (x : RoutedBulb). x ≡ b) (watchdog_interval now w).0.net.bulbs
    → IsYoung now b × Any (λ (x : RoutedBulb). x ≡ b) w.net.bulbs
unfolding watchdog_interval
watchdog_interval-Recent now w d b h =
    let closed : World = (close_bulbs now w (table w)).0 in
    (close_bulbs-exact now w d b).0 (close_gateways-Within now closed.net.gateways closed b h)
