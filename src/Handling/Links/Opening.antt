-- ===== src/Handling/Links/Opening.antt =====
-- lgtd_lifx_gateway_get_or_open_bulb puts a new bulb into the table and into the list of the gateway.
use lightsd.Common.{
  ℕ, ◌≡◌, ◌≢◌, ◌⊎◌, refl, sym, ap, ◌∙◌, inl, inr, List, [], ◌∷◌, true, false, none, some,
  Bool-cases, ◌==◌, arith,
}
use lightsd.Common.Bytes.{same_bytes, same_bytes_refl}
use lightsd.Gateway.State.{Gateway}
use lightsd.Router.Network.{RoutedBulb, RoutedGateway, bulb_get, gateway_at, set_gateway}
use lightsd.Router.Devices.Known.{InTable}
use lightsd.Router.Devices.Insert.{Distinct}
use lightsd.Handling.{less_bytes, insert_bulb}
use lightsd.Handling.Links.{gw_of, bulbs_at}

module _ (new : RoutedBulb) where
  insert_bulb-InTable :
      (bs : List RoutedBulb) (a : List ℕ)
      → InTable a (insert_bulb new bs)
      → (new.bulb.addr ≡ a) ⊎ InTable a bs
  unfolding insert_bulb
  insert_bulb-InTable [] a (inl e) = inl e
  insert_bulb-InTable [] a (inr h) = absurd h
  insert_bulb-InTable (b ∷ bs) a h = elim (Bool-cases (less_bytes new.bulb.addr b.bulb.addr)) [
    | inl e ↦ rw (e, insert_bulb) at h
    | inr e ↦ elim (rw (e, insert_bulb) at h) as (λ x. (new.bulb.addr ≡ a) ⊎ InTable a (b ∷ bs)) [
      | inl k ↦ inr (inl k)
      | inr k ↦ elim (insert_bulb-InTable bs a k) [ inl f ↦ inl f | inr f ↦ inr (inr f) ]
    ]
  ]

  pub insert_bulb-Distinct :
      (bs : List RoutedBulb)
      → ¬ InTable new.bulb.addr bs
      → Distinct bs
      → Distinct (insert_bulb new bs)
  unfolding insert_bulb
  insert_bulb-Distinct [] fresh d = ((λ h. h), tt)
  insert_bulb-Distinct (b ∷ bs) fresh (apart, d) =
      elim (Bool-cases (less_bytes new.bulb.addr b.bulb.addr)) [
        | inl e ↦ rw (e, insert_bulb) (fresh, (apart, d))
        | inr e ↦
            rw (e, insert_bulb)
              (
                (λ h. elim (insert_bulb-InTable bs b.bulb.addr h) [
                  | inl f ↦ fresh (inl (sym f))
                  | inr f ↦ apart f
                ]),
                insert_bulb-Distinct bs (λ h. fresh (inr h)) d,
              )
      ]

  -- The lookup of the new address, and of another one.
  pub gw_of-insert_self :
      (bs : List RoutedBulb)
      → gw_of bs new.bulb.addr ≡ none
      → gw_of (insert_bulb new bs) new.bulb.addr ≡ some new.gw
  unfolding gw_of bulb_get insert_bulb
  gw_of-insert_self [] h = rw (gw_of, bulb_get, same_bytes_refl new.bulb.addr) refl
  gw_of-insert_self (b ∷ bs) h = elim (Bool-cases (less_bytes new.bulb.addr b.bulb.addr)) [
    | inl e ↦ rw (e, insert_bulb, gw_of, bulb_get, same_bytes_refl new.bulb.addr) refl
    | inr e ↦ elim (Bool-cases (same_bytes b.bulb.addr new.bulb.addr)) [
      | inl f ↦ let k : some b.gw ≡ none = rw (f, gw_of, bulb_get) at h in cc
      | inr f ↦
          rw (e, f, insert_bulb, bulb_get, gw_of)
            (gw_of-insert_self bs (rw (f, gw_of, bulb_get) at h))
    ]
  ]

  pub gw_of-insert_other :
      (bs : List RoutedBulb) (a : List ℕ)
      → same_bytes new.bulb.addr a ≡ false
      → gw_of (insert_bulb new bs) a ≡ gw_of bs a
  unfolding gw_of bulb_get insert_bulb
  gw_of-insert_other [] a h = rw (gw_of, bulb_get, h) refl
  gw_of-insert_other (b ∷ bs) a h = elim (Bool-cases (less_bytes new.bulb.addr b.bulb.addr)) [
    | inl e ↦ rw (e, insert_bulb, gw_of, bulb_get, h) refl
    | inr e ↦ elim (Bool-cases (same_bytes b.bulb.addr a)) [
      | inl f ↦ rw (e, f, insert_bulb, bulb_get, gw_of) refl
      | inr f ↦ rw (e, f, insert_bulb, bulb_get, gw_of) (gw_of-insert_other bs a h)
    ]
  ]

-- An address that is in the table has a gateway.
pub gw_of-InTable :
    (bs : List RoutedBulb) (a : List ℕ) → InTable a bs → (n : ℕ) × (gw_of bs a ≡ some n)
unfolding gw_of bulb_get
gw_of-InTable [] a h = absurd h
gw_of-InTable (b ∷ bs) a h = elim (Bool-cases (same_bytes b.bulb.addr a)) [
  | inl e ↦ (b.gw, rw (e, gw_of, bulb_get) refl)
  | inr e ↦ elim h [
    | inl f ↦
        let g : same_bytes b.bulb.addr a ≡ true =
          ap (λ (x : List ℕ). same_bytes x a) f ∙ same_bytes_refl a in
        let k : true ≡ false = sym g ∙ e in cc
    | inr k ↦ let (n, f) = gw_of-InTable bs a k in (n, rw (e, gw_of, bulb_get) f)
  ]
]

-- The list of a gateway that was written to, and of another one.
pub bulbs_at-set_self :
    (gs : List RoutedGateway) (n : ℕ) (gw : Gateway) (g : RoutedGateway)
    → gateway_at gs n ≡ some g
    → bulbs_at (set_gateway gs n gw) n ≡ some gw.bulbs
unfolding bulbs_at gateway_at set_gateway
bulbs_at-set_self [] n gw g h = cc
bulbs_at-set_self (x ∷ gs) n gw g h = elim (Bool-cases (x.number == n)) [
  | inl e ↦ rw (e, set_gateway, bulbs_at, gateway_at, e) refl
  | inr e ↦
      rw (e, set_gateway, bulbs_at, gateway_at, e)
        (bulbs_at-set_self gs n gw g (rw (e, gateway_at) at h))
]

pub bulbs_at-set_other :
    (gs : List RoutedGateway) (n m : ℕ) (gw : Gateway)
    → n ≢ m
    → bulbs_at (set_gateway gs n gw) m ≡ bulbs_at gs m
unfolding bulbs_at gateway_at set_gateway
bulbs_at-set_other [] n m gw ne = refl
bulbs_at-set_other (x ∷ gs) n m gw ne = elim (Bool-cases (x.number == n)) [
  | inl e ↦
      let f : (x.number == m) ≡ false = ground arith in
      rw (e, set_gateway, bulbs_at, gateway_at, f) refl
  | inr e ↦ elim (Bool-cases (x.number == m)) [
    | inl f ↦ rw (e, f, set_gateway, bulbs_at, gateway_at) refl
    | inr f ↦ rw (e, f, set_gateway, bulbs_at, gateway_at) (bulbs_at-set_other gs n m gw ne)
  ]
]
