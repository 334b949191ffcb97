-- ===== src/Router/Targets/Found.antt =====
-- The bulbs that the functions of core/router.c find for a target are those that it stands for.
use lightsd.Common.{
  ℕ, ◌≡◌, ◌⊎◌, refl, sym, ap, ◌∙◌, inl, inr, List, [], ◌∷◌, Any, true, false, none, some,
  Bool-cases, Option-cases, get_or, ◌==◌, if◌then◌else◌, arith,
}
use lightsd.Common.Bytes.{same_bytes, same_bytes-eq, same_bytes_refl, codes}
use lightsd.Router.Network.{RoutedBulb, Network, isxdigit, device_addr_to_device}
use lightsd.Router.Devices.{tag_target, name_target, target_devices, is_everything}
use lightsd.Router.Devices.Known.{Listed, InTable}
use lightsd.Router.Targets.{IsName, IsAddress, IsNoAddress, HasLabel, Selects}
use lightsd.Router.Targets.Listing.{Both, labelled_bulbs-exact, tag_target-exact}

-- The same by the functions of core/router.c.
abbrev pub Stands : Network → List ℕ → List ℕ → Type 0
Stands net addr target =
    if is_everything target then InTable addr net.bulbs else Listed addr (target_devices net target)

everything : (target : List ℕ) → target ≡ codes "*" → is_everything target ≡ true
everything target e = ap (λ (t : List ℕ). same_bytes t (codes "*")) e ∙ same_bytes_refl (codes "*")

pub is_name :
    (c : ℕ) (label : List ℕ)
    → is_everything (c ∷ label) ≡ false
    → (c == b'#') ≡ false
    → IsName (c ∷ label)
is_name c label e f = record {
  some_text = λ h. cc;
  not_everything = λ h.
      let g : is_everything (c ∷ label) ≡ true = everything (c ∷ label) h in
      let i : true ≡ false = sym g ∙ e in cc;
  no_tag = λ h. ground arith;
}

name_not_everything : (target : List ℕ) → IsName target → is_everything target ≡ false
name_not_everything target n = elim (Bool-cases (is_everything target)) [
  | inl e ↦ absurd (n.not_everything (same_bytes-eq target (codes "*") e))
  | inr e ↦ e
]

module _ (net : Network) (a : List ℕ) where
  abbrev Named : List ℕ → Type 0
  Named target =
      ((b : RoutedBulb) × IsAddress net target b × (b.bulb.addr ≡ a))
      ⊎ (IsNoAddress net target × Any (HasLabel target a) net.bulbs)

  name_target-exact : (target : List ℕ) → Both (Listed a (name_target net target)) (Named target)
  name_target-exact target =
      let (from, to) = labelled_bulbs-exact target a net.bulbs in
      elim (Bool-cases (isxdigit (get_or target 0 0))) [
        | inr e ↦ (
          (λ h. inr (inl e, from (rw (e, name_target) at h))),
          (λ h. elim h [
            | inl k ↦ absurd (let f : true ≡ false = sym k.1.0 ∙ e in cc)
            | inr k ↦ rw (e, name_target) (to k.1)
          ]),
        )
        | inl e ↦ elim (Option-cases (device_addr_to_device net target)) [
          | inl d ↦ (
            (λ h. inr (inr d, from (rw (e, d, name_target) at h))),
            (λ h. elim h [
              | inl k ↦ absurd (let f : none ≡ some k.0 = sym d ∙ k.1.1 in cc)
              | inr k ↦ rw (e, d, name_target) (to k.1)
            ]),
          )
          | inr (b, d) ↦ (
            (λ h. elim (rw (e, d, name_target) at h) [
              | inl k ↦ inl (b, (e, d), k)
              | inr k ↦ absurd k
            ]),
            (λ h. elim h [
              | inl k ↦
                  let f : some k.0 ≡ some b = sym k.1.1 ∙ d in
                  let same : k.0 ≡ b = cc in
                  rw (e, d, name_target)
                    (inl (ap (λ (x : RoutedBulb). x.bulb.addr) (sym same) ∙ k.2))
              | inr k ↦ elim k.0 [
                | inl f ↦ absurd (let g : true ≡ false = sym e ∙ f in cc)
                | inr f ↦ absurd (let g : none ≡ some b = sym f ∙ d in cc)
              ]
            ]),
          )
        ]
      ]

  name_devices :
      (target : List ℕ) → IsName target → target_devices net target ≡ name_target net target
  name_devices [] n = absurd (n.some_text refl)
  name_devices (c ∷ label) n = elim (Bool-cases (c == b'#')) [
    | inl e ↦ absurd (n.no_tag (ground arith))
    | inr e ↦ rw e refl
  ]

  -- The functions find exactly the bulbs that the target stands for.
  pub Stands-Selects : (target : List ℕ) → Stands net a target → Selects net a target
  Stands-Selects target h = elim (Bool-cases (is_everything target)) [
    | inl e ↦ Selects.everything (same_bytes-eq target (codes "*") e) (rw e at h)
    | inr e ↦ other target e (rw e at h)
  ]
    where
      by_name : (target : List ℕ) → IsName target → Named target → Selects net a target
      by_name target n (inl (b, i, k)) = Selects.device b n i k
      by_name target n (inr (i, k)) = Selects.labelled n i k

      by_tag :
          (c : ℕ) (label : List ℕ)
          → c ≡ b'#'
          → Listed a (tag_target net label)
          → Selects net a (c ∷ label)
      by_tag c label e h =
          let (tag, f, k) = (tag_target-exact net a label).0 h in
          Selects.tagged label tag (ap (λ (x : ℕ). x ∷ label) e) f k

      other :
          (target : List ℕ)
          → is_everything target ≡ false
          → Listed a (target_devices net target)
          → Selects net a target
      other [] e h = absurd h
      other (c ∷ label) e h = elim (Bool-cases (c == b'#')) [
        | inl f ↦ by_tag c label (ground arith) (rw f at h)
        | inr f ↦
            by_name (c ∷ label) (is_name c label e f)
              ((name_target-exact (c ∷ label)).0 (rw f at h))
      ]

  pub Selects-Stands : (target : List ℕ) → Selects net a target → Stands net a target
  unfolding same_bytes
  Selects-Stands target (Selects.everything e h) = rw (everything target e) h
  Selects-Stands target (Selects.tagged label tag e f k) =
      rw e ((tag_target-exact net a label).1 (tag, f, k))
  Selects-Stands target (Selects.device b n i k) =
      rw (name_not_everything target n, name_devices target n)
        ((name_target-exact target).1 (inl (b, i, k)))
  Selects-Stands target (Selects.labelled n i k) =
      rw (name_not_everything target n, name_devices target n)
        ((name_target-exact target).1 (inr (i, k)))
