-- ===== src/Router/Devices/Exact.antt =====
-- The devices that lgtd_router_targets_to_devices finds, as a set.
use mathlib.Core.Path.{subst}
use lightsd.Common.{
  ℕ, ◌≡◌, ◌⊎◌, refl, inl, inr, List, [], ◌∷◌, Any, Bool, true, false, some, Bool-cases,
  if◌then◌else◌,
}
use lightsd.Router.Targets.{Selects}
use lightsd.Router.Targets.Found.{Stands, Stands-Selects, Selects-Stands}
use lightsd.Router.Network.{Network}
use lightsd.Router.Devices.{target_devices, is_everything, each_target, targets_to_devices}
use lightsd.Router.Devices.Known.{Listed, InTable, target_devices-InTable}
use lightsd.Router.Devices.Insert.{
  NoDuplicates, Distinct, Enough, insert_devices-Adds, insert_table-Adds,
}

Any-map :
    {P Q : List ℕ → Type 0}
    → ((x : List ℕ) → P x → Q x)
    → (xs : List (List ℕ)) → Any P xs
    → Any Q xs
Any-map f [] h = h
Any-map f (x ∷ xs) (inl p) = inl (f x p)
Any-map f (x ∷ xs) (inr h) = inr (Any-map f xs h)

module _ (net : Network) (distinct : Distinct net.bulbs) where
  Stands-InTable :
      (a : List ℕ) (targets : List (List ℕ)) → Any (Stands net a) targets → InTable a net.bulbs
  Stands-InTable a [] h = absurd h
  Stands-InTable a (target ∷ targets) (inr h) = Stands-InTable a targets h
  Stands-InTable a (target ∷ targets) (inl h) = elim (Bool-cases (is_everything target)) [
    | inl e ↦ Stands_all a target e h
    | inr e ↦ target_devices-InTable net target a (Stands_some a target e h)
  ]
    where
      Stands_all :
          (a target : List ℕ)
          → is_everything target ≡ true
          → Stands net a target
          → InTable a net.bulbs
      Stands_all a target e h =
          subst
            (λ (b : Bool). if b then InTable a net.bulbs else Listed a (target_devices net target))
            e h

      Stands_some :
          (a target : List ℕ)
          → is_everything target ≡ false
          → Stands net a target
          → Listed a (target_devices net target)
      Stands_some a target e h =
          subst
            (λ (b : Bool). if b then InTable a net.bulbs else Listed a (target_devices net target))
            e h

  each_target-exact :
      (targets devices : List (List ℕ)) (memory : List Bool)
      → Enough memory
      → NoDuplicates devices
      → ((a : List ℕ) → Listed a devices → InTable a net.bulbs)
      → (devices' : List (List ℕ)) × (memory' : List Bool) × (each_target net targets devices memory
          ≡ some (devices', memory'))
        × NoDuplicates devices'
        × ((a : List ℕ) → Listed a devices' → Any (Stands net a) targets ⊎ Listed a devices)
        × ((a : List ℕ) → Any (Stands net a) targets ⊎ Listed a devices → Listed a devices')
  unfolding each_target
  each_target-exact [] devices memory enough single sub = (
    devices,
    memory,
    refl,
    single,
    (λ a l. inr l),
    (λ a h. elim h [ inl k ↦ absurd k | inr l ↦ l ]),
  )
  each_target-exact (target ∷ targets) devices memory enough single sub =
      elim (Bool-cases (is_everything target)) [
        | inl e ↦
            let (d, m, f, (single', from, to)) =
              insert_table-Adds net.bulbs [] memory enough distinct (λ a h l. l) tt in
            (
              d,
              m,
              rw (e, each_target) f,
              single',
              (λ a l. elim (from a l) [ inl k ↦ inl (inl (rw e k)) | inr k ↦ absurd k ]),
              (λ a h. to a (
                  inl
                    (elim h [ inl k ↦ Stands-InTable a (target ∷ targets) k | inr k ↦ sub a k ]))),
            )
        | inr e ↦
            let (d1, m1, f, enough1, (single1, from1, to1)) =
              insert_devices-Adds (target_devices net target) devices memory enough single in
            let sub1 : (a : List ℕ) → Listed a d1 → InTable a net.bulbs = λ a l. elim (from1 a l) [
              | inl k ↦ target_devices-InTable net target a k
              | inr k ↦ sub a k
            ] in
            let (d2, m2, g, single2, from2, to2) =
              each_target-exact targets d1 m1 enough1 single1 sub1 in
            (
              d2,
              m2,
              rw (e, f, each_target) g,
              single2,
              (λ a l. elim (from2 a l) [
                | inl k ↦ inl (inr k)
                | inr k ↦ elim (from1 a k) [ inl j ↦ inl (inl (rw e j)) | inr j ↦ inr j ]
              ]),
              (λ a h. elim h [
                | inl k ↦ elim k [
                  | inl j ↦ to2 a (inr (to1 a (inl (chosen a e j))))
                  | inr j ↦ to2 a (inl j)
                ]
                | inr k ↦ to2 a (inr (to1 a (inr k)))
              ]),
            )
      ]
    where
      chosen :
          (a : List ℕ)
          → is_everything target ≡ false
          → Stands net a target
          → Listed a (target_devices net target)
      chosen a e h =
          subst
            (λ (b : Bool). if b then InTable a net.bulbs else Listed a (target_devices net target))
            e h

  targets_to_devices-Stands :
      (targets : List (List ℕ)) (memory : List Bool)
      → Enough memory
      → (devices : List (List ℕ)) × (memory' : List Bool) × (targets_to_devices net targets memory
          ≡ some (devices, memory'))
        × NoDuplicates devices
        × ((a : List ℕ) → Listed a devices → Any (Stands net a) targets)
        × ((a : List ℕ) → Any (Stands net a) targets → Listed a devices)
  unfolding targets_to_devices
  targets_to_devices-Stands targets [] enough =
      let (d, m, e, single, from, to) = each_target-exact targets [] [] tt tt (λ a l. absurd l) in
      (
        d,
        m,
        e,
        single,
        (λ a l. elim (from a l) [ inl k ↦ k | inr k ↦ absurd k ]),
        (λ a h. to a (inl h)),
      )
  targets_to_devices-Stands targets (true ∷ memory) (t, enough) =
      let (d, m, e, single, from, to) =
        each_target-exact targets [] memory enough tt (λ a l. absurd l) in
      (
        d,
        m,
        e,
        single,
        (λ a l. elim (from a l) [ inl k ↦ k | inr k ↦ absurd k ]),
        (λ a h. to a (inl h)),
      )
  targets_to_devices-Stands targets (false ∷ memory) (t, enough) = cc

  -- When no two bulbs of the table have the same address and memory is not short, a list of devices is
  -- made that has none twice, and has exactly the devices that some target stands for: all those of the
  -- table for "*"; for "#" and the label of a tag, those in the list of a gateway of the tag that have its id
  -- there; and for a text that is not empty, not "*" and does not begin with "#", the bulb with this address, or,
  -- if the text begins with no hexadecimal digit or no bulb has the address, all those with this label.
  pub targets_to_devices-exact :
      (targets : List (List ℕ)) (memory : List Bool)
      → Enough memory
      → (devices : List (List ℕ)) × (memory' : List Bool) × (targets_to_devices net targets memory
          ≡ some (devices, memory'))
        × NoDuplicates devices
        × ((a : List ℕ) → Listed a devices → Any (Selects net a) targets)
        × ((a : List ℕ) → Any (Selects net a) targets → Listed a devices)
  targets_to_devices-exact targets memory enough =
      let (d, m, e, single, from, to) = targets_to_devices-Stands targets memory enough in
      (
        d,
        m,
        e,
        single,
        (λ a l. Any-map (Stands-Selects net a) targets (from a l)),
        (λ a h. to a (Any-map (Selects-Stands net a) targets h)),
      )
