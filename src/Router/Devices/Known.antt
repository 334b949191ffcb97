-- ===== src/Router/Devices/Known.antt =====
-- Each device that a target stands for is in the table of bulbs.
use mathlib.Core.Path.{subst}
use mathlib.Core.List.{◌++◌}
use lightsd.Common.{
  ℕ, ◌≡◌, ◌⊎◌, refl, sym, ap, ◌∙◌, inl, inr, List, [], ◌∷◌, Any, Bool, true, false, none, some,
  Bool-cases, Option-cases, get_or, bit_and, ◌==◌, if◌then◌else◌,
}
use lightsd.Common.Bits.Digits.{zero-bit_and}
use lightsd.Common.Bytes.{same_bytes, same_bytes-eq}
use lightsd.Wire.TagIds.{tag_id_to_value}
use lightsd.Tagging.{Site, find_tag}
use lightsd.Router.Network.{
  RoutedBulb, Network, bulb_get, gateway_at, has_label, isxdigit, strtoull, addr_of,
  device_addr_to_device,
}
use lightsd.Router.Devices.{
  bulb_tags, tagged_bulbs, site_bulbs, labelled_bulbs, tag_target, name_target, target_devices,
}

abbrev pub Listed : List ℕ → List (List ℕ) → Type 0
Listed addr addrs = Any (λ (a : List ℕ). a ≡ addr) addrs

abbrev pub InTable : List ℕ → List RoutedBulb → Type 0
InTable addr bulbs = Any (λ (b : RoutedBulb). b.bulb.addr ≡ addr) bulbs

-- The bulb that is found has the address, and is in the table.
pub bulb_get-InTable :
    (bulbs : List RoutedBulb) (addr : List ℕ) (b : RoutedBulb)
    → bulb_get bulbs addr ≡ some b
    → (InTable addr bulbs) × (b.bulb.addr ≡ addr)
unfolding bulb_get
bulb_get-InTable [] addr b h = cc
bulb_get-InTable (x ∷ bulbs) addr b h = elim (Bool-cases (same_bytes x.bulb.addr addr)) [
  | inl e ↦
      let f : bulb_get (x ∷ bulbs) addr ≡ some x = rw (e, bulb_get) refl in
      let g : some x ≡ some b = sym f ∙ h in
      let k : x ≡ b = cc in
      (
        inl (same_bytes-eq x.bulb.addr addr e),
        ap (λ (y : RoutedBulb). y.bulb.addr) (sym k) ∙ same_bytes-eq x.bulb.addr addr e,
      )
  | inr e ↦
      let f : bulb_get (x ∷ bulbs) addr ≡ bulb_get bulbs addr = rw (e, bulb_get) refl in
      let (i, k) = bulb_get-InTable bulbs addr b (sym f ∙ h) in (inr i, k)
]

pub Listed-append :
    (a : List ℕ) (xs ys : List (List ℕ)) → Listed a (xs ++ ys) → Listed a xs ⊎ Listed a ys
Listed-append a [] ys h = inr h
Listed-append a (x ∷ xs) ys (inl h) = inl (inl h)
Listed-append a (x ∷ xs) ys (inr h) = elim (Listed-append a xs ys h) [
  | inl k ↦ inl (inr k)
  | inr k ↦ inr k
]

labelled_bulbs-InTable :
    (bulbs : List RoutedBulb) (label a : List ℕ)
    → Listed a (labelled_bulbs bulbs label)
    → InTable a bulbs
unfolding labelled_bulbs
labelled_bulbs-InTable [] label a h = absurd h
labelled_bulbs-InTable (b ∷ bulbs) label a h =
    by_label (has_label b.bulb label) (labelled_bulbs-InTable bulbs label a) h
  where
    by_label :
        (has : Bool)
        → (Listed a (labelled_bulbs bulbs label) → InTable a bulbs)
        → Listed a
            (if has then b.bulb.addr ∷ labelled_bulbs bulbs label else labelled_bulbs bulbs label)
        → InTable a (b ∷ bulbs)
    by_label true rest (inl e) = inl e
    by_label true rest (inr k) = inr (rest k)
    by_label false rest k = inr (rest k)

module _ (net : Network) where
  tagged-InTable :
      (tag : ℕ) (a : List ℕ) → (bit_and (bulb_tags net a) tag == 0) ≡ false → InTable a net.bulbs
  tagged-InTable tag a h = elim (Option-cases (bulb_get net.bulbs a)) [
    | inl e ↦
        let f : bulb_tags net a ≡ 0 = rw (e, bulb_tags) refl in
        let g : bit_and (bulb_tags net a) tag ≡ 0 =
          ap (λ (t : ℕ). bit_and t tag) f ∙ zero-bit_and tag in
        let k : (bit_and (bulb_tags net a) tag == 0) ≡ true = rw g refl in
        let l : true ≡ false = sym k ∙ h in cc
    | inr (b, e) ↦ (bulb_get-InTable net.bulbs a b e).0
  ]

  tagged_bulbs-InTable :
      (tag : ℕ) (addrs : List (List ℕ)) (a : List ℕ)
      → Listed a (tagged_bulbs net tag addrs)
      → InTable a net.bulbs
  unfolding tagged_bulbs
  tagged_bulbs-InTable tag [] a h = absurd h
  tagged_bulbs-InTable tag (addr ∷ addrs) a h =
      elim (Bool-cases (bit_and (bulb_tags net addr) tag == 0)) [
        | inl e ↦
            let f : tagged_bulbs net tag (addr ∷ addrs) ≡ tagged_bulbs net tag addrs =
              rw (e, tagged_bulbs) refl in
            tagged_bulbs-InTable tag addrs a (subst (Listed a) f h)
        | inr e ↦
            let f : tagged_bulbs net tag (addr ∷ addrs) ≡ addr ∷ tagged_bulbs net tag addrs =
              rw (e, tagged_bulbs) refl in
            elim (subst (Listed a) f h) [
              | inl k ↦ subst (λ (x : List ℕ). InTable x net.bulbs) k (tagged-InTable tag addr e)
              | inr k ↦ tagged_bulbs-InTable tag addrs a k
            ]
      ]

  site_bulbs-InTable :
      (sites : List Site) (a : List ℕ) → Listed a (site_bulbs net sites) → InTable a net.bulbs
  unfolding site_bulbs
  site_bulbs-InTable [] a h = absurd h
  site_bulbs-InTable (site ∷ sites) a h = elim (Option-cases (gateway_at net.gateways site.gw)) [
    | inl e ↦
        let f : site_bulbs net (site ∷ sites) ≡ site_bulbs net sites = rw (e, site_bulbs) refl in
        site_bulbs-InTable sites a (subst (Listed a) f h)
    | inr (g, e) ↦
        let here : List (List ℕ) = tagged_bulbs net (tag_id_to_value site.tag_id) g.gw.bulbs in
        let f : site_bulbs net (site ∷ sites) ≡ here ++ site_bulbs net sites =
          rw (e, site_bulbs) refl in
        elim (Listed-append a here (site_bulbs net sites) (subst (Listed a) f h)) [
          | inl k ↦ tagged_bulbs-InTable (tag_id_to_value site.tag_id) g.gw.bulbs a k
          | inr k ↦ site_bulbs-InTable sites a k
        ]
  ]

  tag_target-InTable : (label a : List ℕ) → Listed a (tag_target net label) → InTable a net.bulbs
  tag_target-InTable label a h = elim (Option-cases (find_tag net.tags label)) [
    | inl e ↦
        let f : tag_target net label ≡ [] = rw (e, tag_target) refl in absurd (subst (Listed a) f h)
    | inr (t, e) ↦
        let f : tag_target net label ≡ site_bulbs net t.sites = rw (e, tag_target) refl in
        site_bulbs-InTable t.sites a (subst (Listed a) f h)
  ]

  device-InTable :
      (target : List ℕ) (b : RoutedBulb)
      → device_addr_to_device net target ≡ some b
      → InTable b.bulb.addr net.bulbs
  unfolding device_addr_to_device
  device-InTable target b h = elim (Option-cases (strtoull target)) [
    | inl e ↦
        let f : device_addr_to_device net target ≡ none = rw (e, device_addr_to_device) refl in
        let g : none ≡ some b = sym f ∙ h in cc
    | inr (device, e) ↦
        let f : device_addr_to_device net target ≡ bulb_get net.bulbs (addr_of device) =
          rw (e, device_addr_to_device) refl in
        let (i, k) = bulb_get-InTable net.bulbs (addr_of device) b (sym f ∙ h) in
        subst (λ (x : List ℕ). InTable x net.bulbs) (sym k) i
  ]

  name_target-InTable :
      (target a : List ℕ) → Listed a (name_target net target) → InTable a net.bulbs
  name_target-InTable target a h = elim (Bool-cases (isxdigit (get_or target 0 0))) [
    | inr e ↦
        let f : name_target net target ≡ labelled_bulbs net.bulbs target =
          rw (e, name_target) refl in
        labelled_bulbs-InTable net.bulbs target a (subst (Listed a) f h)
    | inl e ↦ elim (Option-cases (device_addr_to_device net target)) [
      | inl d ↦
          let f : name_target net target ≡ labelled_bulbs net.bulbs target =
            rw (e, d, name_target) refl in
          labelled_bulbs-InTable net.bulbs target a (subst (Listed a) f h)
      | inr (b, d) ↦
          let f : name_target net target ≡ b.bulb.addr ∷ [] = rw (e, d, name_target) refl in
          elim (subst (Listed a) f h) [
            | inl k ↦ subst (λ (x : List ℕ). InTable x net.bulbs) k (device-InTable target b d)
            | inr k ↦ absurd k
          ]
    ]
  ]

  pub target_devices-InTable :
      (target a : List ℕ) → Listed a (target_devices net target) → InTable a net.bulbs
  target_devices-InTable [] a h = absurd h
  target_devices-InTable (c ∷ label) a h = elim (Bool-cases (c == b'#')) [
    | inl e ↦
        let f : target_devices net (c ∷ label) ≡ tag_target net label = rw e refl in
        tag_target-InTable label a (subst (Listed a) f h)
    | inr e ↦
        let f : target_devices net (c ∷ label) ≡ name_target net (c ∷ label) = rw e refl in
        name_target-InTable (c ∷ label) a (subst (Listed a) f h)
  ]
