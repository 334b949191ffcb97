-- ===== src/Router/Targets.antt =====
-- What the targets of a request stand for, as core/router.c documents them: "*" for all bulbs, "#" with the
-- label of a tag, the address of a bulb, or a label.
pub mod Listing
pub mod Found
use mathlib.Core.Path.{subst}
use mathlib.Core.List.{◌++◌}
use lightsd.Common.{
  ℕ, ◌≡◌, ◌≢◌, ◌⊎◌, refl, sym, ap, ◌∙◌, inl, inr, List, [], ◌∷◌, Any, Bool, true, false, Option,
  none, some, Bool-cases, Option-cases, get_or, bit_and, ◌==◌, ==_refl, if◌then◌else◌, arith,
}
use lightsd.Common.Bits.Digits.{zero-bit_and}
use lightsd.Common.Bytes.{same_bytes, same_bytes-eq, same_bytes_refl, codes}
use lightsd.Wire.TagIds.{tag_id_to_value}
use lightsd.Tagging.{Site, Tag, find_tag}
use lightsd.Router.Network.{
  RoutedBulb, RoutedGateway, Network, bulb_get, gateway_at, has_label, isxdigit,
  device_addr_to_device,
}
use lightsd.Router.Devices.{
  bulb_tags, tagged_bulbs, site_bulbs, labelled_bulbs, tag_target, name_target, target_devices,
  is_everything,
}
use lightsd.Router.Devices.Known.{Listed, InTable, Listed-append}

-- A text that is not empty, not "*" and no tag.
pub record IsName (target : List ℕ) : Type 0 where
  pub some_text : target ≢ []
  pub not_everything : target ≢ codes "*"
  pub no_tag : get_or target 0 0 ≢ b'#'

-- A text that begins with a hexadecimal digit and is the address of a bulb.
abbrev pub IsAddress : Network → List ℕ → RoutedBulb → Type 0
IsAddress net target b =
    (isxdigit (get_or target 0 0) ≡ true) × (device_addr_to_device net target ≡ some b)

abbrev pub IsNoAddress : Network → List ℕ → Type 0
IsNoAddress net target =
    (isxdigit (get_or target 0 0) ≡ false) ⊎ (device_addr_to_device net target ≡ none)

-- A bulb in the list of a gateway of the tag, which has the id that the tag has there.
abbrev pub HasTag : Network → List ℕ → Site → Type 0
HasTag net addr site =
    (g : RoutedGateway) × (b : RoutedBulb) × (gateway_at net.gateways site.gw ≡ some g)
    × Listed addr g.gw.bulbs
    × (bulb_get net.bulbs addr ≡ some b)
    × (bit_and b.bulb.state.tags (tag_id_to_value site.tag_id) ≢ 0)

abbrev pub HasLabel : List ℕ → List ℕ → RoutedBulb → Type 0
HasLabel label addr b = (has_label b.bulb label ≡ true) × (b.bulb.addr ≡ addr)

-- A target stands for the bulb with an address.
pub data Selects (net : Network) (addr target : List ℕ) : Type 0 where
  everything : target ≡ codes "*" → InTable addr net.bulbs → Selects net addr target
  tagged :
      (label : List ℕ) (tag : Tag)
      → target ≡ b'#' ∷ label
      → find_tag net.tags label ≡ some tag
      → Any (HasTag net addr) tag.sites
      → Selects net addr target
  device :
      (b : RoutedBulb)
      → IsName target
      → IsAddress net target b
      → b.bulb.addr ≡ addr
      → Selects net addr target
  labelled :
      IsName target
      → IsNoAddress net target
      → Any (HasLabel target addr) net.bulbs
      → Selects net addr target
