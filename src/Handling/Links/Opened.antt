-- ===== src/Handling/Links/Opened.antt =====
-- The links after lgtd_lifx_gateway_get_or_open_bulb.
use mathlib.Core.Path.{subst}
use lightsd.Common.{
  ℕ, ◌≡◌, ◌⊎◌, refl, sym, ap, ◌∙◌, inl, inr, List, [], ◌∷◌, none, some, Bool-cases, ◌==◌,
  ℕ_discrete, arith,
}
use lightsd.Common.Bytes.{same_bytes, same_bytes-eq}
use lightsd.Gateway.State.{Gateway}
use lightsd.Router.Network.{RoutedBulb, RoutedGateway, Network, gateway_at, set_gateway}
use lightsd.Router.Devices.Known.{Listed, InTable}
use lightsd.Router.Devices.Insert.{NoDuplicates}
use lightsd.Handling.{insert_bulb, list_bulb}
use lightsd.Handling.Links.{gw_of, bulbs_at, Numbered, DistinctNumbers, Linked}
use lightsd.Handling.Links.Opening.{
  insert_bulb-Distinct, gw_of-insert_self, gw_of-insert_other, gw_of-InTable, bulbs_at-set_self,
  bulbs_at-set_other,
}

Numbered-set_gateway :
    (gs : List RoutedGateway) (n : ℕ) (gw : Gateway) (m : ℕ)
    → Numbered m (set_gateway gs n gw)
    → Numbered m gs
unfolding set_gateway
Numbered-set_gateway [] n gw m h = h
Numbered-set_gateway (x ∷ gs) n gw m h = elim (Bool-cases (x.number == n)) [
  | inl e ↦ rw (e, set_gateway) at h
  | inr e ↦ elim (rw (e, set_gateway) at h) as (λ y. Numbered m (x ∷ gs)) [
    | inl k ↦ inl k
    | inr k ↦ inr (Numbered-set_gateway gs n gw m k)
  ]
]

pub DistinctNumbers-set_gateway :
    (gs : List RoutedGateway) (n : ℕ) (gw : Gateway)
    → DistinctNumbers gs
    → DistinctNumbers (set_gateway gs n gw)
unfolding set_gateway
DistinctNumbers-set_gateway [] n gw d = tt
DistinctNumbers-set_gateway (x ∷ gs) n gw (fresh, d) = elim (Bool-cases (x.number == n)) [
  | inl e ↦ rw (e, set_gateway) (fresh, d)
  | inr e ↦
      rw (e, set_gateway)
        (
          (λ h. fresh (Numbered-set_gateway gs n gw x.number h)),
          DistinctNumbers-set_gateway gs n gw d,
        )
]

pub bulbs_at-gateway_at :
    (gs : List RoutedGateway) (n : ℕ) (g : RoutedGateway)
    → gateway_at gs n ≡ some g
    → bulbs_at gs n ≡ some g.gw.bulbs
unfolding bulbs_at
bulbs_at-gateway_at gs n g h = rw (h, bulbs_at) refl

pub gateway_at-number :
    (gs : List RoutedGateway) (n : ℕ) (g : RoutedGateway) → gateway_at gs n ≡ some g → g.number ≡ n
unfolding gateway_at
gateway_at-number [] n g h = let f : none ≡ some g = h in cc
gateway_at-number (x ∷ gs) n g h = elim (Bool-cases (x.number == n)) [
  | inl e ↦
      let f : some x ≡ some g = rw (e, gateway_at) at h in
      let k : x ≡ g = cc in
      let m : x.number ≡ n = ground arith in ap (λ (y : RoutedGateway). y.number) (sym k) ∙ m
  | inr e ↦ gateway_at-number gs n g (rw (e, gateway_at) at h)
]

pub gateway_at-itself :
    (gs : List RoutedGateway) (n : ℕ) (g : RoutedGateway)
    → gateway_at gs n ≡ some g
    → gateway_at gs g.number ≡ some g
gateway_at-itself gs n g h = ap (λ (m : ℕ). gateway_at gs m) (gateway_at-number gs n g h) ∙ h

pub some_inj {ℓ} : {A : Type ℓ} {a b : A} → some a ≡ some b → a ≡ b
some_inj e = cc

module _ (net : Network) (l : Linked net) (me : ℕ) (g : RoutedGateway) (new : RoutedBulb)
    (found : gateway_at net.gateways me ≡ some g) (on : new.gw ≡ me)
    (unknown : gw_of net.bulbs new.bulb.addr ≡ none) where
  abbrev addr' : List ℕ
  addr' = new.bulb.addr

  abbrev gateways' : List RoutedGateway
  gateways' = set_gateway net.gateways me (list_bulb addr' g.gw)

  abbrev bulbs' : List RoutedBulb
  bulbs' = insert_bulb new net.bulbs

  mine : bulbs_at net.gateways me ≡ some g.gw.bulbs
  mine = bulbs_at-gateway_at net.gateways me g found

  not_none : (a : List ℕ) (n : ℕ) → gw_of net.bulbs a ≡ some n → ¬ (addr' ≡ a)
  not_none a n h e =
      let k : none ≡ some n = sym unknown ∙ ap (λ (x : List ℕ). gw_of net.bulbs x) e ∙ h in cc

  known_as_before : (a : List ℕ) (n : ℕ) → gw_of net.bulbs a ≡ some n → gw_of bulbs' a ≡ some n
  known_as_before a n h = elim (Bool-cases (same_bytes addr' a)) [
    | inl e ↦ absurd (not_none a n h (same_bytes-eq addr' a e))
    | inr e ↦ gw_of-insert_other new net.bulbs a e ∙ h
  ]

  home' :
      (a : List ℕ) (n : ℕ)
      → gw_of bulbs' a ≡ some n
      → (list : List (List ℕ)) × (bulbs_at gateways' n ≡ some list) × Listed a list
  home' a n h = elim (Bool-cases (same_bytes addr' a)) [
    | inl e ↦
        let f : addr' ≡ a = same_bytes-eq addr' a e in
        let k : some n ≡ some me =
          sym h
          ∙ ap (λ (x : List ℕ). gw_of bulbs' x) (sym f)
          ∙ gw_of-insert_self new net.bulbs unknown
          ∙ ap (λ (x : ℕ). some x) on in
        (
          addr' ∷ g.gw.bulbs,
          subst (λ (x : ℕ). bulbs_at gateways' x ≡ some (addr' ∷ g.gw.bulbs)) (sym (some_inj k))
              (bulbs_at-set_self net.gateways me (list_bulb addr' g.gw) g found),
          inl f,
        )
    | inr e ↦
        let (list, f, i) = l.home a n (sym (gw_of-insert_other new net.bulbs a e) ∙ h) in
        elim (ℕ_discrete me n) [
          | no ne ↦ (list, bulbs_at-set_other net.gateways me n (list_bulb addr' g.gw) ne ∙ f, i)
          | yes same ↦
              let k : some list ≡ some g.gw.bulbs =
                sym f ∙ ap (λ (x : ℕ). bulbs_at net.gateways x) (sym same) ∙ mine in
              (
                addr' ∷ g.gw.bulbs,
                subst (λ (x : ℕ). bulbs_at gateways' x ≡ some (addr' ∷ g.gw.bulbs)) same
                    (bulbs_at-set_self net.gateways me (list_bulb addr' g.gw) g found),
                inr (subst (Listed a) (some_inj k) i),
              )
        ]
  ]

  -- What a gateway lists now: what it listed, and on `me` the new bulb.
  listed_now :
      (n : ℕ) (list : List (List ℕ))
      → bulbs_at gateways' n ≡ some list
      → ((me ≡ n) × (list ≡ addr' ∷ g.gw.bulbs)) ⊎ (bulbs_at net.gateways n ≡ some list)
  listed_now n list h = elim (ℕ_discrete me n) [
    | no ne ↦ inr (sym (bulbs_at-set_other net.gateways me n (list_bulb addr' g.gw) ne) ∙ h)
    | yes same ↦
        let k : some list ≡ some (addr' ∷ g.gw.bulbs) =
          sym h
          ∙ ap (λ (x : ℕ). bulbs_at gateways' x) (sym same)
          ∙ bulbs_at-set_self net.gateways me (list_bulb addr' g.gw) g found in
        inl (same, some_inj k)
  ]

  back' :
      (n : ℕ) (list : List (List ℕ)) (a : List ℕ)
      → bulbs_at gateways' n ≡ some list
      → Listed a list
      → gw_of bulbs' a ≡ some n
  back' n list a h i = elim (listed_now n list h) [
    | inr f ↦ known_as_before a n (l.back n list a f i)
    | inl (same, f) ↦ elim (subst (Listed a) f i) [
      | inl e ↦
          ap (λ (x : List ℕ). gw_of bulbs' x) (sym e)
          ∙ gw_of-insert_self new net.bulbs unknown
          ∙ ap (λ (x : ℕ). some x) (on ∙ same)
      | inr j ↦ known_as_before a n (l.back me g.gw.bulbs a mine j ∙ ap (λ (x : ℕ). some x) same)
    ]
  ]

  once' : (n : ℕ) (list : List (List ℕ)) → bulbs_at gateways' n ≡ some list → NoDuplicates list
  once' n list h = elim (listed_now n list h) [
    | inr f ↦ l.once n list f
    | inl (same, f) ↦ subst NoDuplicates (sym f) (
      (λ i. not_none addr' me (l.back me g.gw.bulbs addr' mine i) refl),
      l.once me g.gw.bulbs mine,
    )
  ]

  fresh' : ¬ InTable addr' net.bulbs
  fresh' i = let (n, e) = gw_of-InTable net.bulbs addr' i in not_none addr' n e refl

  pub opened-Linked : Linked (record net { bulbs = bulbs'; gateways = gateways' })
  opened-Linked = record {
    distinct = insert_bulb-Distinct new net.bulbs fresh' l.distinct;
    numbers = DistinctNumbers-set_gateway net.gateways me (list_bulb addr' g.gw) l.numbers;
    home = home';
    back = back';
    once = once';
  }
