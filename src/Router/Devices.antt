-- ===== src/Router/Devices.antt =====
-- lgtd_router_targets_to_devices: the devices that targets stand for. A device list has the address of
-- each device; the Booleans that calloc consumes say whether it gives memory, and past them it does.
pub mod Known
pub mod Insert
pub mod Exact
use lightsd.Common.{
  ℕ, ◌+◌, List, [], ◌∷◌, ◌++◌, Bool, true, false, not, ◌&&◌, Option, none, some, bit_and, ◌==◌,
  get_or, if◌then◌else◌,
}
use lightsd.Common.Bytes.{same_bytes, codes}
use lightsd.Wire.TagIds.{tag_id_to_value}
use lightsd.Tagging.{Site, Tag, find_tag}
use lightsd.Router.Network.{
  RoutedBulb, Network, bulb_get, gateway_at, has_label, isxdigit, device_addr_to_device,
}

-- struct lgtd_router_device_list, with what is left of the answers of calloc.
abbrev pub Found : Type 0
Found = Option (List (List ℕ) × List Bool)

abbrev pub is_listed : List (List ℕ) → List ℕ → Bool
is_listed [] addr = false
is_listed (it ∷ devices) addr = if same_bytes it addr then true else is_listed devices addr

-- calloc of a device, and its place at the head of the list.
unfoldable pub insert_device : List (List ℕ) → List ℕ → List Bool → Found
insert_device devices addr [] = some (addr ∷ devices, [])
insert_device devices addr (true ∷ memory) = some (addr ∷ devices, memory)
insert_device devices addr (false ∷ memory) = none

-- lgtd_router_insert_device_if_not_in_list
unfoldable pub insert_device_if_not_in_list : List (List ℕ) → List ℕ → List Bool → Found
insert_device_if_not_in_list devices addr memory =
    if is_listed devices addr then some (devices, memory) else insert_device devices addr memory

-- The loops that insert what is not listed, over the devices that their conditions select.
unfoldable pub insert_devices : List (List ℕ) → List (List ℕ) → List Bool → Found
insert_devices [] devices memory = some (devices, memory)
insert_devices (addr ∷ addrs) devices memory =
    elim (insert_device_if_not_in_list devices addr memory) [
      | none ↦ none
      | some (devices', memory') ↦ insert_devices addrs devices' memory'
    ]

-- The loop for "*", into an empty list.
unfoldable pub insert_table : List RoutedBulb → List (List ℕ) → List Bool → Found
insert_table [] devices memory = some (devices, memory)
insert_table (b ∷ bulbs) devices memory = elim (insert_device devices b.bulb.addr memory) [
  | none ↦ none
  | some (devices', memory') ↦ insert_table bulbs devices' memory'
]

abbrev pub bulb_tags : Network → List ℕ → ℕ
bulb_tags net addr = elim (bulb_get net.bulbs addr) [ none ↦ 0 | some b ↦ b.bulb.state.tags ]

-- The bulbs of a gateway that have a tag.
unfoldable pub tagged_bulbs : Network → ℕ → List (List ℕ) → List (List ℕ)
tagged_bulbs net tag [] = []
tagged_bulbs net tag (addr ∷ addrs) =
    let rest = tagged_bulbs net tag addrs in
    if not (bit_and (bulb_tags net addr) tag == 0) then addr ∷ rest else rest

unfoldable pub site_bulbs : Network → List Site → List (List ℕ)
site_bulbs net [] = []
site_bulbs net (site ∷ sites) =
    let rest = site_bulbs net sites in
    elim (gateway_at net.gateways site.gw) [
      | none ↦ rest
      | some g ↦ tagged_bulbs net (tag_id_to_value site.tag_id) g.gw.bulbs ++ rest
    ]

unfoldable pub labelled_bulbs : List RoutedBulb → List ℕ → List (List ℕ)
labelled_bulbs [] label = []
labelled_bulbs (b ∷ bulbs) label =
    let rest = labelled_bulbs bulbs label in
    if has_label b.bulb label then b.bulb.addr ∷ rest else rest

abbrev pub tag_target : Network → List ℕ → List (List ℕ)
tag_target net label = elim (find_tag net.tags label) [
  | none ↦ []
  | some tag ↦ site_bulbs net tag.sites
]

-- An address, if it is that of a bulb, and else a label.
abbrev pub name_target : Network → List ℕ → List (List ℕ)
name_target net target =
    if isxdigit (get_or target 0 0)
    then (elim (device_addr_to_device net target) [
      | none ↦ labelled_bulbs net.bulbs target
      | some b ↦ b.bulb.addr ∷ []
    ])
    else labelled_bulbs net.bulbs target

-- The devices of a target that is not "*".
abbrev pub target_devices : Network → List ℕ → List (List ℕ)
target_devices net [] = []
target_devices net (c ∷ label) =
    if c == b'#' then tag_target net label else name_target net (c ∷ label)

abbrev pub is_everything : List ℕ → Bool
is_everything target = same_bytes target (codes "*")

-- The loop over the targets; the list is cleared before all devices are put into it.
unfoldable pub each_target : Network → List (List ℕ) → List (List ℕ) → List Bool → Found
each_target net [] devices memory = some (devices, memory)
each_target net (target ∷ targets) devices memory =
    if is_everything target
    then insert_table net.bulbs [] memory
    else (elim (insert_devices (target_devices net target) devices memory) [
      | none ↦ none
      | some (devices', memory') ↦ each_target net targets devices' memory'
    ])

-- lgtd_router_targets_to_devices, the list itself being allocated first; `none` is NULL.
unfoldable pub targets_to_devices : Network → List (List ℕ) → List Bool → Found
targets_to_devices net targets [] = each_target net targets [] []
targets_to_devices net targets (true ∷ memory) = each_target net targets [] memory
targets_to_devices net targets (false ∷ memory) = none
