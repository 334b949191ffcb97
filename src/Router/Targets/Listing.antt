-- ===== src/Router/Targets/Listing.antt =====
-- The lists that core/router.c makes of the bulbs with a label and of those with a tag.
use mathlib.Core.Path.{subst}
use mathlib.Core.List.{◌++◌}
use lightsd.Common.{
  ℕ, ◌≡◌, ◌≢◌, ◌⊎◌, refl, sym, ap, ◌∙◌, inl, inr, List, [], ◌∷◌, Any, true, false, none, some,
  Bool-cases, Option-cases, bit_and, ◌==◌, arith,
}
use lightsd.Common.Bits.Digits.{zero-bit_and}
use lightsd.Wire.TagIds.{tag_id_to_value}
use lightsd.Tagging.{Site, Tag, find_tag}
use lightsd.Router.Network.{RoutedBulb, RoutedGateway, Network, bulb_get, gateway_at, has_label}
use lightsd.Router.Devices.{bulb_tags, tagged_bulbs, site_bulbs, labelled_bulbs, tag_target}
use lightsd.Router.Devices.Known.{Listed, Listed-append}
use lightsd.Router.Targets.{HasTag, HasLabel}

append-Listed :
    (a : List ℕ) (xs ys : List (List ℕ)) → Listed a xs ⊎ Listed a ys → Listed a (xs ++ ys)
append-Listed a [] ys (inl h) = absurd h
append-Listed a [] ys (inr h) = h
append-Listed a (x ∷ xs) ys (inl (inl h)) = inl h
append-Listed a (x ∷ xs) ys (inl (inr h)) = inr (append-Listed a xs ys (inl h))
append-Listed a (x ∷ xs) ys (inr h) = inr (append-Listed a xs ys (inr h))

-- Both ways between two types.
abbrev pub Both : Type 0 → Type 0 → Type 0
Both A B = (A → B) × (B → A)

pub labelled_bulbs-exact :
    (label a : List ℕ) (bulbs : List RoutedBulb)
    → Both (Listed a (labelled_bulbs bulbs label)) (Any (HasLabel label a) bulbs)
unfolding labelled_bulbs
labelled_bulbs-exact label a [] = ((λ h. h), (λ h. h))
labelled_bulbs-exact label a (b ∷ bulbs) =
    let (from, to) = labelled_bulbs-exact label a bulbs in
    elim (Bool-cases (has_label b.bulb label)) [
      | inl e ↦
          let f : labelled_bulbs (b ∷ bulbs) label ≡ b.bulb.addr ∷ labelled_bulbs bulbs label =
            rw (e, labelled_bulbs) refl in
          (
            (λ h. elim (subst (Listed a) f h) [ inl k ↦ inl (e, k) | inr k ↦ inr (from k) ]),
            (λ h. subst (Listed a) (sym f) (elim h [ inl k ↦ inl k.1 | inr k ↦ inr (to k) ])),
          )
      | inr e ↦
          let f : labelled_bulbs (b ∷ bulbs) label ≡ labelled_bulbs bulbs label =
            rw (e, labelled_bulbs) refl in
          (
            (λ h. inr (from (subst (Listed a) f h))),
            (λ h. subst (Listed a) (sym f) (elim h [
              | inl k ↦ absurd (let g : true ≡ false = sym k.0 ∙ e in cc)
              | inr k ↦ to k
            ])),
          )
    ]

module _ (net : Network) (a : List ℕ) where
  -- The tag is among those of the bulb.
  abbrev Carries : ℕ → Type 0
  Carries value = (bit_and (bulb_tags net a) value == 0) ≡ false

  tagged_bulbs-exact :
      (value : ℕ) (addrs : List (List ℕ))
      → Both (Listed a (tagged_bulbs net value addrs)) (Listed a addrs × Carries value)
  unfolding tagged_bulbs
  tagged_bulbs-exact value [] = ((λ h. absurd h), (λ h. absurd h.0))
  tagged_bulbs-exact value (addr ∷ addrs) =
      let (from, to) = tagged_bulbs-exact value addrs in
      elim (Bool-cases (bit_and (bulb_tags net addr) value == 0)) [
        | inl e ↦
            let f : tagged_bulbs net value (addr ∷ addrs) ≡ tagged_bulbs net value addrs =
              rw (e, tagged_bulbs) refl in
            (
              (λ h. let (l, c) = from (subst (Listed a) f h) in (inr l, c)),
              (λ h. subst (Listed a) (sym f) (elim h.0 [
                | inl k ↦ absurd (
                    let g : (bit_and (bulb_tags net a) value == 0) ≡ true =
                      subst (λ (x : List ℕ). (bit_and (bulb_tags net x) value == 0) ≡ true) k e in
                    let i : true ≡ false = sym g ∙ h.1 in cc)
                | inr k ↦ to (k, h.1)
              ])),
            )
        | inr e ↦
            let f : tagged_bulbs net value (addr ∷ addrs) ≡ addr ∷ tagged_bulbs net value addrs =
              rw (e, tagged_bulbs) refl in
            (
              (λ h. elim (subst (Listed a) f h) [
                | inl k ↦ (
                  inl k,
                  subst (λ (x : List ℕ). (bit_and (bulb_tags net x) value == 0) ≡ false) k e,
                )
                | inr k ↦ let (l, c) = from k in (inr l, c)
              ]),
              (λ h.
                  subst (Listed a) (sym f)
                    (elim h.0 [ inl k ↦ inl k | inr k ↦ inr (to (k, h.1)) ])),
            )
      ]

  Carries-bulb :
      (value : ℕ)
      → Both (Carries value) (
          (b : RoutedBulb) × (bulb_get net.bulbs a ≡ some b)
          × (bit_and b.bulb.state.tags value ≢ 0))
  Carries-bulb value = elim (Option-cases (bulb_get net.bulbs a)) [
    | inl e ↦ (
      (λ c.
          let f : bulb_tags net a ≡ 0 = rw (e, bulb_tags) refl in
          let g : (bit_and (bulb_tags net a) value == 0) ≡ true =
            rw (ap (λ (t : ℕ). bit_and t value) f ∙ zero-bit_and value) refl in
          let h : true ≡ false = sym g ∙ c in absurd (cc)),
      (λ h. let f : none ≡ some h.0 = sym e ∙ h.1 in cc),
    )
    | inr (b, e) ↦
        let f : bulb_tags net a ≡ b.bulb.state.tags = rw (e, bulb_tags) refl in
        (
          (λ c. (
            b,
            e,
            λ z.
                let g : bit_and (bulb_tags net a) value ≡ 0 =
                  ap (λ (t : ℕ). bit_and t value) f ∙ z in
                ground arith,
          )),
          (λ h.
              let g : some b ≡ some h.0 = sym e ∙ h.1 in
              let k : b ≡ h.0 = cc in
              let same : bulb_tags net a ≡ h.0.bulb.state.tags =
                f ∙ ap (λ (x : RoutedBulb). x.bulb.state.tags) k in
              nonzero (bit_and (bulb_tags net a) value)
                (λ z. h.2 (ap (λ (t : ℕ). bit_and t value) (sym same) ∙ z))),
        )
  ]
    where
      nonzero : (n : ℕ) → n ≢ 0 → (n == 0) ≡ false
      nonzero n h = ground arith

  site_bulbs-exact :
      (sites : List Site) → Both (Listed a (site_bulbs net sites)) (Any (HasTag net a) sites)
  unfolding site_bulbs
  site_bulbs-exact [] = ((λ h. h), (λ h. h))
  site_bulbs-exact (site ∷ sites) =
      let (from, to) = site_bulbs-exact sites in
      let value : ℕ = tag_id_to_value site.tag_id in
      elim (Option-cases (gateway_at net.gateways site.gw)) [
        | inl e ↦
            let f : site_bulbs net (site ∷ sites) ≡ site_bulbs net sites =
              rw (e, site_bulbs) refl in
            (
              (λ h. inr (from (subst (Listed a) f h))),
              (λ h. subst (Listed a) (sym f) (elim h [
                | inl k ↦
                    absurd (let (g, b, i, _, _, _) = k in let j : none ≡ some g = sym e ∙ i in cc)
                | inr k ↦ to k
              ])),
            )
        | inr (g, e) ↦
            let here : List (List ℕ) = tagged_bulbs net value g.gw.bulbs in
            let f : site_bulbs net (site ∷ sites) ≡ here ++ site_bulbs net sites =
              rw (e, site_bulbs) refl in
            let (from1, to1) = tagged_bulbs-exact value g.gw.bulbs in
            let (from2, to2) = Carries-bulb value in
            (
              (λ h. elim (Listed-append a here (site_bulbs net sites) (subst (Listed a) f h)) [
                | inl k ↦ let (l, c) = from1 k in let (b, i, j) = from2 c in inl (g, b, e, l, i, j)
                | inr k ↦ inr (from k)
              ]),
              (λ h. subst (Listed a) (sym f) (elim h [
                | inl k ↦
                    let (g', b, e', l, i, j) = k in
                    let s : some g' ≡ some g = sym e' ∙ e in
                    let same : g' ≡ g = cc in
                    append-Listed a here (site_bulbs net sites) (
                      inl (
                        to1 (
                          subst (λ (x : RoutedGateway). Listed a x.gw.bulbs) same l,
                          to2 (b, i, j),
                        )))
                | inr k ↦ append-Listed a here (site_bulbs net sites) (inr (to k))
              ])),
            )
      ]

  -- A tag, and a name.
  pub tag_target-exact :
      (label : List ℕ)
      → Both
          (Listed a (tag_target net label))
          ((tag : Tag) × (find_tag net.tags label ≡ some tag) × Any (HasTag net a) tag.sites)
  tag_target-exact label = elim (Option-cases (find_tag net.tags label)) [
    | inl e ↦ (
      (λ h. absurd (rw (e, tag_target) at h)),
      (λ h. absurd (let f : none ≡ some h.0 = sym e ∙ h.1 in cc)),
    )
    | inr (tag, e) ↦
        let (from, to) = site_bulbs-exact tag.sites in
        (
          (λ h. (tag, e, from (rw (e, tag_target) at h))),
          (λ h.
              let f : some h.0 ≡ some tag = sym h.1 ∙ e in
              let same : h.0 ≡ tag = cc in
              rw (e, tag_target) (to (subst (λ (t : Tag). Any (HasTag net a) t.sites) same h.2))),
        )
  ]
