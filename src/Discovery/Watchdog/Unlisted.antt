-- ===== src/Discovery/Watchdog/Unlisted.antt =====
-- A gateway that is taken out of the list, and its bulbs after it.
use mathlib.Core.Path.{subst}
use lightsd.Common.{
  ℕ, ◌≡◌, ◌≢◌, refl, sym, ap, ap₂, ◌∙◌, inl, inr, List, [], ◌∷◌, false, none, some, Bool-cases,
  ◌==◌, ℕ_discrete, arith,
}
use lightsd.Tagging.{Tags}
use lightsd.Router.Network.{RoutedBulb, RoutedGateway, Network, gateway_at}
use lightsd.Router.Devices.Known.{Listed}
use lightsd.Discovery.Watchdog.{
  World, remove_bulb, remove_gateway, forget_bulb_at, bulb_close, remove_and_close_bulb, close_each,
  gateway_close, decref_each,
}
use lightsd.Discovery.Watchdog.Closing.{
  Orphaned, Orphaned-Linked, forget_bulb_at-absent, gw_of-bulb_get, close_one-Orphaned,
}
use lightsd.Handling.Links.{bulbs_at, Numbered, DistinctNumbers, Linked}

remove_gateway-Numbered :
    (gs : List RoutedGateway) (n m : ℕ) → Numbered m (remove_gateway gs n) → Numbered m gs
unfolding remove_gateway
remove_gateway-Numbered [] n m h = h
remove_gateway-Numbered (x ∷ gs) n m h = elim (Bool-cases (x.number == n)) [
  | inl e ↦ inr (rw (e, remove_gateway) at h)
  | inr e ↦ elim (rw (e, remove_gateway) at h) as (λ y. Numbered m (x ∷ gs)) [
    | inl k ↦ inl k
    | inr k ↦ inr (remove_gateway-Numbered gs n m k)
  ]
]

remove_gateway-DistinctNumbers :
    (gs : List RoutedGateway) (n : ℕ) → DistinctNumbers gs → DistinctNumbers (remove_gateway gs n)
unfolding remove_gateway
remove_gateway-DistinctNumbers [] n d = tt
remove_gateway-DistinctNumbers (x ∷ gs) n (fresh, d) = elim (Bool-cases (x.number == n)) [
  | inl e ↦ rw (e, remove_gateway) d
  | inr e ↦
      rw (e, remove_gateway)
        (
          (λ h. fresh (remove_gateway-Numbered gs n x.number h)),
          remove_gateway-DistinctNumbers gs n d,
        )
]

bulbs_at-unnumbered : (gs : List RoutedGateway) (n : ℕ) → ¬ Numbered n gs → bulbs_at gs n ≡ none
unfolding bulbs_at gateway_at
bulbs_at-unnumbered [] n h = refl
bulbs_at-unnumbered (x ∷ gs) n h = elim (Bool-cases (x.number == n)) [
  | inl e ↦ absurd (h (inl (ground arith)))
  | inr e ↦ rw (e, bulbs_at, gateway_at) (bulbs_at-unnumbered gs n (λ k. h (inr k)))
]

bulbs_at-removed :
    (gs : List RoutedGateway) (n : ℕ) → DistinctNumbers gs → bulbs_at (remove_gateway gs n) n ≡ none
unfolding bulbs_at gateway_at remove_gateway
bulbs_at-removed [] n d = refl
bulbs_at-removed (x ∷ gs) n (fresh, d) = elim (Bool-cases (x.number == n)) [
  | inl e ↦
      let f : x.number ≡ n = ground arith in
      rw (e, remove_gateway) (bulbs_at-unnumbered gs n (subst (λ (m : ℕ). ¬ Numbered m gs) f fresh))
  | inr e ↦ rw (e, remove_gateway, bulbs_at, gateway_at, e) (bulbs_at-removed gs n d)
]

pub bulbs_at-remove_other :
    (gs : List RoutedGateway) (n m : ℕ) → n ≢ m → bulbs_at (remove_gateway gs n) m ≡ bulbs_at gs m
unfolding bulbs_at gateway_at remove_gateway
bulbs_at-remove_other [] n m ne = refl
bulbs_at-remove_other (x ∷ gs) n m ne = elim (Bool-cases (x.number == n)) [
  | inl e ↦
      let f : (x.number == m) ≡ false = ground arith in
      rw (e, f, remove_gateway, bulbs_at, gateway_at) refl
  | inr e ↦ elim (Bool-cases (x.number == m)) [
    | inl f ↦ rw (e, f, remove_gateway, bulbs_at, gateway_at) refl
    | inr f ↦ rw (e, f, remove_gateway, bulbs_at, gateway_at) (bulbs_at-remove_other gs n m ne)
  ]
]

-- The bulbs of a gateway that was linked are orphans once it is out of the list.
removed-Orphaned :
    (net : Network) (n : ℕ) (l : List (List ℕ)) (tags : Tags)
    → Linked net
    → bulbs_at net.gateways n ≡ some l
    → Orphaned (record net { gateways = remove_gateway net.gateways n; tags = tags }) n l
removed-Orphaned net n l tags k e = record {
  distinct = k.distinct;
  numbers = remove_gateway-DistinctNumbers net.gateways n k.numbers;
  home = λ addr m h.
      let (list, f, i) = k.home addr m h in
      elim (ℕ_discrete n m) [
        | no ne ↦ inr (list, bulbs_at-remove_other net.gateways n m ne ∙ f, i)
        | yes same ↦
            let g : some list ≡ some l =
              sym f ∙ ap (λ (x : ℕ). bulbs_at net.gateways x) (sym same) ∙ e in
            let t : list ≡ l = cc in inl (same, subst (Listed addr) t i)
      ];
  back = λ m list addr h i. k.back m list addr (kept m list h) i;
  once = λ m list h. k.once m list (kept m list h);
  orphans = λ addr i. k.back n l addr e i;
  orphans_once = k.once n l e;
  absent = bulbs_at-removed net.gateways n k.numbers;
}
  where
    kept :
        (m : ℕ) (list : List (List ℕ))
        → bulbs_at (remove_gateway net.gateways n) m ≡ some list
        → bulbs_at net.gateways m ≡ some list
    kept m list h = elim (ℕ_discrete n m) [
      | no ne ↦ sym (bulbs_at-remove_other net.gateways n m ne) ∙ h
      | yes same ↦
          let t : none ≡ some list =
            sym (bulbs_at-removed net.gateways n k.numbers)
            ∙ ap (λ (x : ℕ). bulbs_at (remove_gateway net.gateways n) x) same
            ∙ h in
          cc
    ]

closed_net :
    (w : World) (b : RoutedBulb) (addr : List ℕ)
    → b.bulb.addr ≡ addr
    → forget_bulb_at w.net.gateways b.gw b.bulb ≡ w.net.gateways
    → (remove_and_close_bulb w b).net ≡ record (w.net) { bulbs = remove_bulb w.net.bulbs addr }
unfolding remove_and_close_bulb bulb_close
closed_net w b addr at same =
    ap₂
      (λ (g : List RoutedGateway) (a : List ℕ). record (w.net) {
        gateways = g;
        bulbs = remove_bulb w.net.bulbs a;
      })
      same at

-- The loop closes them all, and leaves the lists of the other gateways.
close_each-Linked :
    (gone : ℕ) (addrs : List (List ℕ)) (w : World)
    → Orphaned w.net gone addrs
    → Linked (close_each w addrs).net × ((close_each w addrs).net.gateways ≡ w.net.gateways)
unfolding close_each
close_each-Linked gone [] w o = (Orphaned-Linked w.net gone o, refl)
close_each-Linked gone (addr ∷ addrs) w o =
    let (b, e, on, at) = gw_of-bulb_get w.net.bulbs addr gone (o.orphans addr (inl refl)) in
    let same : forget_bulb_at w.net.gateways b.gw b.bulb ≡ w.net.gateways =
      forget_bulb_at-absent w.net.gateways b.gw b.bulb
        (ap (λ (x : ℕ). bulbs_at w.net.gateways x) on ∙ o.absent) in
    let o' = close_one-Orphaned w.net gone addr addrs o in
    let f = closed_net w b addr at same in
    let (linked, gateways_same) =
      close_each-Linked gone addrs (remove_and_close_bulb w b)
        (subst (λ (n : Network). Orphaned n gone addrs) (sym f) o') in
    rw (e, close_each) (linked, gateways_same ∙ ap (λ (n : Network). n.gateways) f)

-- lgtd_lifx_gateway_close of a gateway of the list.
pub gateway_close-Linked :
    (w : World) (g : RoutedGateway)
    → bulbs_at w.net.gateways g.number ≡ some g.gw.bulbs
    → Linked w.net
    → Linked (gateway_close w g).net
      × ((gateway_close w g).net.gateways ≡ remove_gateway w.net.gateways g.number)
unfolding gateway_close
gateway_close-Linked w g e l =
    close_each-Linked g.number g.gw.bulbs _
      (removed-Orphaned w.net g.number g.gw.bulbs (decref_each w.net.tags g.gw.tags g.number) l e)
