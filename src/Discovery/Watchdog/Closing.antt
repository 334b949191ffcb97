-- ===== src/Discovery/Watchdog/Closing.antt =====
-- A gateway that is closed: its bulbs are closed one after the other.
use mathlib.Core.Path.{subst}
use lightsd.Common.{
  ℕ, ◌≡◌, ◌⊎◌, refl, sym, ap, ◌∙◌, inl, inr, List, [], ◌∷◌, true, false, none, some, Bool-cases,
  Option-cases, ◌==◌,
}
use lightsd.Common.Bytes.{same_bytes, same_bytes_refl, same_bytes-eq}
use lightsd.Gateway.Bulbs.{Bulb}
use lightsd.Router.Network.{RoutedBulb, RoutedGateway, Network, bulb_get, gateway_at}
use lightsd.Router.Devices.Known.{Listed, bulb_get-InTable}
use lightsd.Router.Devices.Insert.{NoDuplicates, Distinct}
use lightsd.Discovery.Watchdog.{remove_bulb, forget_bulb_at}
use lightsd.Discovery.Watchdog.Removal.{remove_bulb-Distinct}
use lightsd.Discovery.Watchdog.Forgetting.{gw_of-remove_other, gw_of-removed}
use lightsd.Handling.Links.{gw_of, bulbs_at, DistinctNumbers, Linked}
use lightsd.Handling.Links.Opened.{some_inj}

-- Linked, but for the bulbs of a gateway that is not in the list any more, which are still to be closed.
pub record Orphaned (net : Network) (gone : ℕ) (pending : List (List ℕ)) : Type 0 where
  pub distinct : Distinct net.bulbs
  pub numbers : DistinctNumbers net.gateways
  pub home :
      (addr : List ℕ) (n : ℕ)
      → gw_of net.bulbs addr ≡ some n
      → ((gone ≡ n) × Listed addr pending)
        ⊎ ((l : List (List ℕ)) × (bulbs_at net.gateways n ≡ some l) × Listed addr l)
  pub back :
      (n : ℕ) (l : List (List ℕ)) (addr : List ℕ)
      → bulbs_at net.gateways n ≡ some l
      → Listed addr l
      → gw_of net.bulbs addr ≡ some n
  pub once : (n : ℕ) (l : List (List ℕ)) → bulbs_at net.gateways n ≡ some l → NoDuplicates l
  pub orphans : (addr : List ℕ) → Listed addr pending → gw_of net.bulbs addr ≡ some gone
  pub orphans_once : NoDuplicates pending
  pub absent : bulbs_at net.gateways gone ≡ none

pub Orphaned-Linked : (net : Network) (gone : ℕ) → Orphaned net gone [] → Linked net
Orphaned-Linked net gone o = record {
  distinct = o.distinct;
  numbers = o.numbers;
  home = λ addr n e. elim (o.home addr n e) [ inl h ↦ absurd h.1 | inr h ↦ h ];
  back = o.back;
  once = o.once;
}

pub forget_bulb_at-absent :
    (gs : List RoutedGateway) (n : ℕ) (bulb : Bulb)
    → bulbs_at gs n ≡ none
    → forget_bulb_at gs n bulb ≡ gs
unfolding bulbs_at gateway_at forget_bulb_at
forget_bulb_at-absent [] n bulb h = refl
forget_bulb_at-absent (x ∷ gs) n bulb h = elim (Bool-cases (x.number == n)) [
  | inl e ↦ let f : some x.gw.bulbs ≡ none = rw (e, bulbs_at, gateway_at) at h in cc
  | inr e ↦
      rw (e, forget_bulb_at)
        (ap (◌∷◌ x) (forget_bulb_at-absent gs n bulb (rw (e, bulbs_at, gateway_at) at h)))
]

pub gw_of-bulb_get :
    (bs : List RoutedBulb) (addr : List ℕ) (n : ℕ)
    → gw_of bs addr ≡ some n
    → (b : RoutedBulb) × (bulb_get bs addr ≡ some b) × (b.gw ≡ n) × (b.bulb.addr ≡ addr)
unfolding gw_of
gw_of-bulb_get bs addr n h = elim (Option-cases (bulb_get bs addr)) [
  | inl e ↦ let f : none ≡ some n = rw (e, gw_of) at h in cc
  | inr (b, e) ↦
      let f : some b.gw ≡ some n = rw (e, gw_of) at h in
      (b, e, some_inj f, (bulb_get-InTable bs addr b e).1)
]

pub not_same : (addr a : List ℕ) → ¬ (addr ≡ a) → same_bytes addr a ≡ false
not_same addr a ne = elim (Bool-cases (same_bytes addr a)) [
  | inl e ↦ absurd (ne (same_bytes-eq addr a e))
  | inr e ↦ e
]

module _ (net : Network) (gone : ℕ) (addr : List ℕ) (pending : List (List ℕ)) where
  pub close_one-Orphaned :
      Orphaned net gone (addr ∷ pending)
      → Orphaned (record net { bulbs = remove_bulb net.bulbs addr }) gone pending
  close_one-Orphaned o = record {
    distinct = remove_bulb-Distinct net.bulbs addr o.distinct;
    numbers = o.numbers;
    home = λ a n e. elim (Bool-cases (same_bytes addr a)) [
      | inl f ↦ absurd (
          gw_of-removed net.bulbs addr n o.distinct (
            ap (λ (x : List ℕ). gw_of (remove_bulb net.bulbs addr) x) (same_bytes-eq addr a f) ∙ e))
      | inr f ↦ elim (o.home a n (sym (gw_of-remove_other net.bulbs addr a f) ∙ e)) [
        | inr h ↦ inr h
        | inl (g, inr h) ↦ inl (g, h)
        | inl (g, inl h) ↦
            let k : same_bytes addr a ≡ true =
              ap (λ (x : List ℕ). same_bytes addr x) (sym h) ∙ same_bytes_refl addr in
            let t : true ≡ false = sym k ∙ f in cc
      ]
    ];
    back = λ n l a e i.
        let known = o.back n l a e i in
        gw_of-remove_other net.bulbs addr a (not_same addr a (λ f. apart n l a e known f)) ∙ known;
    once = o.once;
    orphans = λ a i.
        gw_of-remove_other net.bulbs addr a (
          not_same addr a
            (λ f. o.orphans_once.0 (subst (λ (x : List ℕ). Listed x pending) (sym f) i)))
        ∙ o.orphans a (inr i);
    orphans_once = o.orphans_once.1;
    absent = o.absent;
  }
    where
      apart :
          (n : ℕ) (l : List (List ℕ)) (a : List ℕ)
          → bulbs_at net.gateways n ≡ some l
          → gw_of net.bulbs a ≡ some n
          → ¬ (addr ≡ a)
      apart n l a e known f =
          let k : some gone ≡ some n =
            sym (o.orphans addr (inl refl)) ∙ ap (λ (x : List ℕ). gw_of net.bulbs x) f ∙ known in
          let t : some l ≡ none =
            sym e ∙ ap (λ (x : ℕ). bulbs_at net.gateways x) (sym (some_inj k)) ∙ o.absent in
          cc
