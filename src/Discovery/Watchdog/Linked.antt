-- ===== src/Discovery/Watchdog/Linked.antt =====
-- The watchdog keeps bulbs and gateways linked.
use mathlib.Core.Path.{subst}
use lightsd.Common.{
  ℕ, ◌≡◌, sym, ap, ◌∙◌, inl, inr, List, [], ◌∷◌, some, Bool-cases, ◌==◌, ℕ_discrete,
}
use lightsd.Common.Bytes.{same_bytes, same_bytes-eq}
use lightsd.Gateway.Bulbs.{Bulb}
use lightsd.Router.Network.{RoutedBulb, RoutedGateway}
use lightsd.Router.Devices.Known.{Listed}
use lightsd.Router.Devices.Insert.{NoDuplicates}
use lightsd.Discovery.Watchdog.{
  World, remove_bulb, remove_addr, forget_bulb_at, bulb_close, remove_and_close_bulb,
}
use lightsd.Discovery.Watchdog.Removal.{remove_bulb-Distinct}
use lightsd.Discovery.Watchdog.Forgetting.{
  remove_addr-Listed, remove_addr-other, remove_addr-NoDuplicates, remove_addr-gone,
  gw_of-remove_other, gw_of-removed, bulbs_at-forget_self, bulbs_at-forget_other,
}
use lightsd.Discovery.Watchdog.Closing.{not_same}
use lightsd.Handling.Links.{gw_of, bulbs_at, Numbered, DistinctNumbers, Linked}
use lightsd.Handling.Links.Opened.{some_inj}

forget_bulb_at-Numbered :
    (gs : List RoutedGateway) (n : ℕ) (bulb : Bulb) (m : ℕ)
    → Numbered m (forget_bulb_at gs n bulb)
    → Numbered m gs
unfolding forget_bulb_at
forget_bulb_at-Numbered [] n bulb m h = h
forget_bulb_at-Numbered (x ∷ gs) n bulb m h = elim (Bool-cases (x.number == n)) [
  | inl e ↦ rw (e, forget_bulb_at) at h
  | inr e ↦ elim (rw (e, forget_bulb_at) at h) as (λ y. Numbered m (x ∷ gs)) [
    | inl k ↦ inl k
    | inr k ↦ inr (forget_bulb_at-Numbered gs n bulb m k)
  ]
]

forget_bulb_at-DistinctNumbers :
    (gs : List RoutedGateway) (n : ℕ) (bulb : Bulb)
    → DistinctNumbers gs
    → DistinctNumbers (forget_bulb_at gs n bulb)
unfolding forget_bulb_at
forget_bulb_at-DistinctNumbers [] n bulb d = tt
forget_bulb_at-DistinctNumbers (x ∷ gs) n bulb (fresh, d) = elim (Bool-cases (x.number == n)) [
  | inl e ↦ rw (e, forget_bulb_at) (fresh, d)
  | inr e ↦
      rw (e, forget_bulb_at)
        (
          (λ h. fresh (forget_bulb_at-Numbered gs n bulb x.number h)),
          forget_bulb_at-DistinctNumbers gs n bulb d,
        )
]

module _ (w : World) (b : RoutedBulb) (l : Linked w.net)
    (known : gw_of w.net.bulbs b.bulb.addr ≡ some b.gw) where
  abbrev addr' : List ℕ
  addr' = b.bulb.addr

  abbrev gateways' : List RoutedGateway
  gateways' = forget_bulb_at w.net.gateways b.gw b.bulb

  -- What a gateway lists now: what it listed, but on the bulb's gateway without the bulb.
  found_now :
      (n : ℕ) (list : List (List ℕ))
      → bulbs_at gateways' n ≡ some list
      → (old : List (List ℕ)) × (bulbs_at w.net.gateways n ≡ some old)
        × ((a : List ℕ) → Listed a list → Listed a old × ¬ (addr' ≡ a))
        × NoDuplicates list
  found_now n list h = elim (ℕ_discrete b.gw n) [
    | no ne ↦
        let e = sym (bulbs_at-forget_other w.net.gateways b.gw n b.bulb ne) ∙ h in
        (
          list,
          e,
          (λ a i. (
            i,
            λ f.
                let k : some b.gw ≡ some n =
                  sym known ∙ ap (λ (x : List ℕ). gw_of w.net.bulbs x) f ∙ l.back n list a e i in
                ne (some_inj k),
          )),
          l.once n list e,
        )
    | yes same ↦
        let (old, e, i) = l.home addr' b.gw known in
        let e' = ap (λ (x : ℕ). bulbs_at w.net.gateways x) (sym same) ∙ e in
        let k : list ≡ remove_addr old addr' = some_inj (
          sym h
          ∙ ap (λ (x : ℕ). bulbs_at gateways' x) (sym same)
          ∙ bulbs_at-forget_self w.net.gateways b.gw b.bulb old e) in
        (
          old,
          e',
          (λ a j.
              let j' = subst (Listed a) k j in
              (
                remove_addr-Listed old addr' a j',
                λ f.
                    remove_addr-gone old addr' (l.once b.gw old e)
                      (subst (λ (x : List ℕ). Listed x (remove_addr old addr')) (sym f) j'),
              )),
          subst NoDuplicates (sym k) (remove_addr-NoDuplicates old addr' (l.once b.gw old e)),
        )
  ]

  home' :
      (a : List ℕ) (n : ℕ)
      → gw_of (remove_bulb w.net.bulbs addr') a ≡ some n
      → (list : List (List ℕ)) × (bulbs_at gateways' n ≡ some list) × Listed a list
  home' a n h = elim (Bool-cases (same_bytes addr' a)) [
    | inl f ↦ absurd (
        gw_of-removed w.net.bulbs addr' n l.distinct (
          ap (λ (x : List ℕ). gw_of (remove_bulb w.net.bulbs addr') x) (same_bytes-eq addr' a f)
          ∙ h))
    | inr f ↦
        let (old, e, i) = l.home a n (sym (gw_of-remove_other w.net.bulbs addr' a f) ∙ h) in
        elim (ℕ_discrete b.gw n) [
          | no ne ↦ (old, bulbs_at-forget_other w.net.gateways b.gw n b.bulb ne ∙ e, i)
          | yes same ↦ (
            remove_addr old addr',
            ap (λ (x : ℕ). bulbs_at gateways' x) (sym same)
                ∙ bulbs_at-forget_self w.net.gateways b.gw b.bulb old
                    (ap (λ (x : ℕ). bulbs_at w.net.gateways x) same ∙ e),
            remove_addr-other old addr' a f i,
          )
        ]
  ]

  pub remove_and_close_bulb-Linked : Linked (remove_and_close_bulb w b).net
  unfolding remove_and_close_bulb bulb_close
  remove_and_close_bulb-Linked = record {
    distinct = remove_bulb-Distinct w.net.bulbs addr' l.distinct;
    numbers = forget_bulb_at-DistinctNumbers w.net.gateways b.gw b.bulb l.numbers;
    home = home';
    back = λ n list a h i.
        let (old, e, was, single) = found_now n list h in
        let (j, ne) = was a i in
        gw_of-remove_other w.net.bulbs addr' a (not_same addr' a ne) ∙ l.back n old a e j;
    once = λ n list h. (found_now n list h).3;
  }
