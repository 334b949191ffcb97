-- ===== src/Router/Network.antt =====
-- The bulbs, gateways and tags that core/router.c looks at. The tree of bulbs is a list, in the order of
-- the tree; a pointer to a bulb is its address, a pointer to a gateway its number. The peer of a gateway is
-- the bytes of its socket address, which hold the address family.
use lightsd.Common.{
  ℕ, ◌+◌, ◌-◌, ◌*◌, ◌/◌, ◌%◌, ◌^◌, List, [], ◌∷◌, Bool, true, false, ◌&&◌, ◌||◌, Option, none, some,
  take, leb, ltb, ◌==◌, if◌then◌else◌,
}
use lightsd.Common.Bytes.{same_bytes}
use lightsd.Gateway.State.{Gateway}
use lightsd.Gateway.Bulbs.{Bulb}
use lightsd.Tagging.{Tags}

pub record RoutedBulb : Type 0 where
  pub bulb : Bulb
  pub gw : ℕ

pub record RoutedGateway : Type 0 where
  pub number : ℕ
  pub peer : List ℕ
  pub gw : Gateway

-- lgtd_lifx_bulbs_table, lgtd_lifx_gateways and lgtd_lifx_tags.
pub record Network : Type 0 where
  pub bulbs : List RoutedBulb
  pub gateways : List RoutedGateway
  pub tags : Tags

-- RB_FIND of the tree of bulbs.
unfoldable pub bulb_get : List RoutedBulb → List ℕ → Option RoutedBulb
bulb_get [] addr = none
bulb_get (b ∷ bulbs) addr = if same_bytes b.bulb.addr addr then some b else bulb_get bulbs addr

unfoldable pub gateway_at : List RoutedGateway → ℕ → Option RoutedGateway
gateway_at [] number = none
gateway_at (g ∷ gateways) number = if g.number == number then some g else gateway_at gateways number

-- A write to a gateway.
unfoldable pub set_gateway : List RoutedGateway → ℕ → Gateway → List RoutedGateway
set_gateway [] number gw = []
set_gateway (g ∷ gateways) number gw =
    if g.number == number
    then record g { gw = gw } ∷ gateways
    else g ∷ set_gateway gateways number gw

-- The bytes in front of the first zero.
unfoldable pub before_zero : List ℕ → List ℕ
before_zero [] = []
before_zero (c ∷ cs) = let rest = before_zero cs in if c == 0 then [] else c ∷ rest

-- lgtd_lifx_bulb_has_label: both labels are at most 32 bytes long.
unfoldable pub has_label : Bulb → List ℕ → Bool
has_label bulb label = same_bytes (before_zero (take 32 (bulb.state.label))) (take 32 label)

-- The value of a hexadecimal digit.
unfoldable pub hex_digit : ℕ → Option ℕ
hex_digit c =
    if leb b'0' c && leb c b'9'
    then some (c - b'0')
    else if leb b'a' c && leb c b'f'
    then some (c - b'a' + 10)
    else if leb b'A' c && leb c b'F'
    then some (c - b'A' + 10)
    else none

abbrev pub isxdigit : ℕ → Bool
unfolding hex_digit
isxdigit c = elim (hex_digit c) [ none ↦ false | some d ↦ true ]

-- The number that the digits at the beginning of a text make, behind the digits of `acc`, if it ends with
-- the text.
unfoldable pub hex_value : List ℕ → ℕ → Option ℕ
hex_value [] acc = some acc
hex_value (c ∷ cs) acc = elim (hex_digit c) [ none ↦ none | some d ↦ hex_value cs (acc * 16 + d) ]

-- strtoull in base 16 of a text that begins with a digit: "0x" may stand before the digits. `none` means
-- that the text goes on behind the number, or that the number is out of the range of 64 bits.
unfoldable pub strtoull : List ℕ → Option ℕ
strtoull text = elim (hex_value (without_prefix text) 0) [
  | none ↦ none
  | some value ↦ if ltb value (2 ^ 64) then some value else none
]
  where
    without_prefix : List ℕ → List ℕ
    without_prefix (zero' ∷ x ∷ c ∷ cs) =
        if (zero' == b'0') && (((x == b'x') || (x == b'X')) && isxdigit c)
        then c ∷ cs
        else zero' ∷ x ∷ c ∷ cs
    without_prefix other = other

-- The lower six bytes of a number, the highest of them first.
abbrev pub addr_of : ℕ → List ℕ
addr_of device =
    (device / 2 ^ 40 % 256)
    ∷ (device / 2 ^ 32 % 256)
    ∷ (device / 2 ^ 24 % 256)
    ∷ (device / 2 ^ 16 % 256)
    ∷ (device / 2 ^ 8 % 256)
    ∷ (device % 256)
    ∷ []

-- lgtd_router_device_addr_to_device
unfoldable pub device_addr_to_device : Network → List ℕ → Option RoutedBulb
device_addr_to_device net device_addr = elim (strtoull device_addr) [
  | none ↦ none
  | some device ↦ bulb_get net.bulbs (addr_of device)
]
