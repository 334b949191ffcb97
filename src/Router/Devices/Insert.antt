-- ===== src/Router/Devices/Insert.antt =====
-- The loops of lgtd_router_targets_to_devices that insert devices.
use mathlib.Core.Path.{subst}
use lightsd.Common.{
  ℕ, ◌≡◌, ◌⊎◌, refl, sym, ap, ◌∙◌, inl, inr, List, [], ◌∷◌, All, Bool, true, false, some,
  Bool-cases,
}
use lightsd.Common.Bytes.{same_bytes, same_bytes_refl, same_bytes-eq}
use lightsd.Router.Network.{RoutedBulb}
use lightsd.Router.Devices.{
  is_listed, insert_device, insert_device_if_not_in_list, insert_devices, insert_table,
}
use lightsd.Router.Devices.Known.{Listed, InTable}

abbrev pub NoDuplicates : List (List ℕ) → Type 0
NoDuplicates [] = Unit {0}
NoDuplicates (a ∷ addrs) = (¬ Listed a addrs) × NoDuplicates addrs

-- No two bulbs of the table have the same address.
abbrev pub Distinct : List RoutedBulb → Type 0
Distinct [] = Unit {0}
Distinct (b ∷ bulbs) = (¬ InTable b.bulb.addr bulbs) × Distinct bulbs

abbrev pub Enough : List Bool → Type 0
Enough memory = All (λ (b : Bool). b ≡ true) memory

-- Of the devices in front of an insertion, those that it adds and those behind it.
abbrev pub Adds : (List ℕ → Type 0) → List (List ℕ) → List (List ℕ) → Type 0
Adds New devices devices' =
    NoDuplicates devices'
    × ((a : List ℕ) → Listed a devices' → New a ⊎ Listed a devices)
    × ((a : List ℕ) → New a ⊎ Listed a devices → Listed a devices')

is_listed-Listed :
    (devices : List (List ℕ)) (addr : List ℕ) → is_listed devices addr ≡ true → Listed addr devices
is_listed-Listed [] addr h = cc
is_listed-Listed (it ∷ devices) addr h = elim (Bool-cases (same_bytes it addr)) [
  | inl e ↦ inl (same_bytes-eq it addr e)
  | inr e ↦
      let f : is_listed (it ∷ devices) addr ≡ is_listed devices addr = rw e refl in
      inr (is_listed-Listed devices addr (sym f ∙ h))
]

is_listed-fresh :
    (devices : List (List ℕ)) (addr : List ℕ)
    → is_listed devices addr ≡ false
    → ¬ Listed addr devices
is_listed-fresh [] addr h l = l
is_listed-fresh (it ∷ devices) addr h l = elim (Bool-cases (same_bytes it addr)) [
  | inl e ↦
      let f : is_listed (it ∷ devices) addr ≡ true = rw e refl in
      let g : true ≡ false = sym f ∙ h in cc
  | inr e ↦
      let f : is_listed (it ∷ devices) addr ≡ is_listed devices addr = rw e refl in
      elim l [
        | inl k ↦
            let g : true ≡ false =
              sym (same_bytes_refl addr) ∙ sym (ap (λ (x : List ℕ). same_bytes x addr) k) ∙ e in
            cc
        | inr k ↦ is_listed-fresh devices addr (sym f ∙ h) k
      ]
]

insert_device-Enough :
    (devices : List (List ℕ)) (addr : List ℕ) (memory : List Bool)
    → Enough memory
    → (memory' : List Bool) × (insert_device devices addr memory ≡ some (addr ∷ devices, memory'))
      × Enough memory'
unfolding insert_device
insert_device-Enough devices addr [] enough = ([], refl, tt)
insert_device-Enough devices addr (true ∷ memory) (e, enough) = (memory, refl, enough)
insert_device-Enough devices addr (false ∷ memory) (e, enough) = cc

insert_device_if_not_in_list-Adds :
    (devices : List (List ℕ)) (addr : List ℕ) (memory : List Bool)
    → Enough memory
    → NoDuplicates devices
    → (devices' : List (List ℕ)) × (memory' : List Bool) × (insert_device_if_not_in_list devices
          addr memory
        ≡ some (devices', memory'))
      × Enough memory'
      × Adds (λ a. addr ≡ a) devices devices'
unfolding insert_device_if_not_in_list
insert_device_if_not_in_list-Adds devices addr memory enough single =
    elim (Bool-cases (is_listed devices addr)) [
      | inl e ↦
          let there : Listed addr devices = is_listed-Listed devices addr e in
          (
            devices,
            memory,
            rw (e, insert_device_if_not_in_list) refl,
            enough,
            (
              single,
              (λ a l. inr l),
              (λ a h. elim h [
                | inl k ↦ subst (λ (x : List ℕ). Listed x devices) k there
                | inr l ↦ l
              ]),
            ),
          )
      | inr e ↦
          let (memory', f, enough') = insert_device-Enough devices addr memory enough in
          (
            addr ∷ devices,
            memory',
            rw (e, insert_device_if_not_in_list) f,
            enough',
            ((is_listed-fresh devices addr e, single), (λ a l. l), (λ a l. l)),
          )
    ]

pub insert_devices-Adds :
    (addrs devices : List (List ℕ)) (memory : List Bool)
    → Enough memory
    → NoDuplicates devices
    → (devices' : List (List ℕ)) × (memory' : List Bool) × (insert_devices addrs devices memory
        ≡ some (devices', memory'))
      × Enough memory'
      × Adds (λ a. Listed a addrs) devices devices'
unfolding insert_devices
insert_devices-Adds [] devices memory enough single = (
  devices,
  memory,
  refl,
  enough,
  (single, (λ a l. inr l), (λ a h. elim h [ inl k ↦ absurd k | inr l ↦ l ])),
)
insert_devices-Adds (addr ∷ addrs) devices memory enough single =
    let (d1, m1, e, enough1, (single1, from1, to1)) =
      insert_device_if_not_in_list-Adds devices addr memory enough single in
    let (d2, m2, f, enough2, (single2, from2, to2)) =
      insert_devices-Adds addrs d1 m1 enough1 single1 in
    (
      d2,
      m2,
      rw (e, insert_devices) f,
      enough2,
      (
        single2,
        (λ a l. elim (from2 a l) [
          | inl k ↦ inl (inr k)
          | inr k ↦ elim (from1 a k) [ inl j ↦ inl (inl j) | inr j ↦ inr j ]
        ]),
        (λ a h. elim h [
          | inl k ↦ elim k [ inl j ↦ to2 a (inr (to1 a (inl j))) | inr j ↦ to2 a (inl j) ]
          | inr k ↦ to2 a (inr (to1 a (inr k)))
        ]),
      ),
    )

pub insert_table-Adds :
    (bulbs : List RoutedBulb) (devices : List (List ℕ)) (memory : List Bool)
    → Enough memory
    → Distinct bulbs
    → ((a : List ℕ) → InTable a bulbs → ¬ Listed a devices)
    → NoDuplicates devices
    → (devices' : List (List ℕ)) × (memory' : List Bool) × (insert_table bulbs devices memory
        ≡ some (devices', memory'))
      × Adds (λ a. InTable a bulbs) devices devices'
unfolding insert_table
insert_table-Adds [] devices memory enough distinct apart single = (
  devices,
  memory,
  refl,
  (single, (λ a l. inr l), (λ a h. elim h [ inl k ↦ absurd k | inr l ↦ l ])),
)
insert_table-Adds (b ∷ bulbs) devices memory enough (fresh, distinct) apart single =
    let addr : List ℕ = b.bulb.addr in
    let (m1, e, enough1) = insert_device-Enough devices addr memory enough in
    let apart' : (a : List ℕ) → InTable a bulbs → ¬ Listed a (addr ∷ devices) = λ a h l. elim l [
      | inl k ↦ fresh (subst (λ (x : List ℕ). InTable x bulbs) (sym k) h)
      | inr k ↦ apart a (inr h) k
    ] in
    let (d2, m2, f, (single2, from2, to2)) =
      insert_table-Adds bulbs (addr ∷ devices) m1 enough1 distinct apart'
        (apart addr (inl refl), single) in
    (
      d2,
      m2,
      rw (e, insert_table) f,
      (
        single2,
        (λ a l. elim (from2 a l) [
          | inl k ↦ inl (inr k)
          | inr k ↦ elim k [ inl j ↦ inl (inl j) | inr j ↦ inr j ]
        ]),
        (λ a h. elim h [
          | inl k ↦ elim k [ inl j ↦ to2 a (inr (inl j)) | inr j ↦ to2 a (inl j) ]
          | inr k ↦ to2 a (inr (inr k))
        ]),
      ),
    )
