-- ===== src/Tagging.antt =====
-- lifx/tagging.c: the global list of tags, and of each tag the sites (gateways) that know it. A
-- pointer to a tag is its number; a gateway is a number too. A label is its bytes up to the
-- terminating zero. calloc may fail: `Bool` arguments say whether it gives memory.
pub mod Labels
pub mod Store
pub mod Counting
use lightsd.Common.{
  ℕ, zero, suc, ◌+◌, ◌<◌, ◌≡◌, List, [], ◌∷◌, Bool, true, false, ◌&&◌, not, Option, none, some,
  ◌==◌, if◌then◌else◌, take,
}
use lightsd.Common.Bytes.{same_bytes}
use Labels.{Label}

-- struct lgtd_lifx_site
pub record Site : Type 0 where
  pub gw : ℕ
  pub tag_id : ℕ

-- struct lgtd_lifx_tag
pub record Tag : Type 0 where
  pub number : ℕ
  pub label : Label
  pub sites : List Site

-- lgtd_lifx_tags, and the next address that calloc gives.
pub record Tags : Type 0 where
  pub list : List Tag
  pub fresh : ℕ

unfoldable pub find_site : List Site → ℕ → Option Site
find_site [] gw = none
find_site (s ∷ sites) gw = if s.gw == gw then some s else find_site sites gw

unfoldable pub find_tag_in : List Tag → Label → Option Tag
find_tag_in [] label = none
find_tag_in (t ∷ tags) label = if same_bytes t.label label then some t else find_tag_in tags label

-- lgtd_lifx_tagging_find_tag
abbrev pub find_tag : Tags → Label → Option Tag
find_tag tags label = find_tag_in tags.list label

-- The label is cut at 31 bytes.
abbrev pub new_tag : Tags → Label → Tag
new_tag tags label = record { number = tags.fresh; label = take 31 label; sites = [] }

unfoldable pub allocate_tag : Tags → Label → Bool → Option (Tag × Tags)
allocate_tag tags label false = none
allocate_tag tags label true =
    some
      (new_tag tags label, record { list = new_tag tags label ∷ tags.list; fresh = tags.fresh + 1 })

-- LIST_REMOVE of the tag at an address.
unfoldable pub remove_tag : List Tag → ℕ → List Tag
remove_tag [] number = []
remove_tag (t ∷ tags) number = if t.number == number then tags else t ∷ remove_tag tags number

-- lgtd_lifx_tagging_deallocate_tag
abbrev pub deallocate_tag : Tags → ℕ → Tags
deallocate_tag tags number = record tags { list = remove_tag tags.list number }

-- A write to `tag->sites`.
unfoldable pub set_sites : List Tag → ℕ → List Site → List Tag
set_sites [] number sites = []
set_sites (t ∷ tags) number sites =
    if t.number == number
    then record t { sites = sites } ∷ tags
    else t ∷ set_sites tags number sites

-- The second half of lgtd_lifx_tagging_incref, once the tag is there: `dealloc_tag` says that it is
-- a new one.
unfoldable pub add_site : Tags → Tag → Bool → ℕ → ℕ → Bool → Option ℕ × Tags
add_site tags tag dealloc_tag gw tag_id memory = elim (find_site tag.sites gw) [
  | some site ↦ (some tag.number, tags)
  | none ↦
      if memory
      then (
        some tag.number,
        record tags {
          list = set_sites tags.list tag.number (record { gw = gw; tag_id = tag_id } ∷ tag.sites);
        },
      )
      else (none, if dealloc_tag then deallocate_tag tags tag.number else tags)
]

-- lgtd_lifx_tagging_incref, with what the two callocs give.
unfoldable pub incref : Tags → Label → ℕ → ℕ → Bool → Bool → Option ℕ × Tags
unfolding allocate_tag
incref tags label gw tag_id tag_memory site_memory = elim (find_tag tags label) [
  | some tag ↦ add_site tags tag false gw tag_id site_memory
  | none ↦ elim (allocate_tag tags label tag_memory) [
    | none ↦ (none, tags)
    | some (tag, tags') ↦ add_site tags' tag true gw tag_id site_memory
  ]
]

-- LIST_REMOVE of the site of a gateway.
unfoldable pub remove_site : List Site → ℕ → List Site
remove_site [] gw = []
remove_site (s ∷ sites) gw = if s.gw == gw then sites else s ∷ remove_site sites gw

-- The tag at an address.
unfoldable pub tag_at : List Tag → ℕ → Option Tag
tag_at [] number = none
tag_at (t ∷ tags) number = if t.number == number then some t else tag_at tags number

-- lgtd_lifx_tagging_decref; nothing is done through a pointer to no tag.
unfoldable pub decref : Tags → ℕ → ℕ → Tags
decref tags number gw = elim (tag_at tags.list number) [
  | none ↦ tags
  | some tag ↦ elim (remove_site tag.sites gw) [
    | [] ↦ deallocate_tag tags number
    | s ∷ sites ↦ record tags { list = set_sites tags.list number (s ∷ sites) }
  ]
]
