-- ===== src/Gateway/TagIds.antt =====
-- lifx/gateway.c: the tag ids of a gateway, and what its replies about tag labels do to them. `me`
-- is the gateway's address. An `int` tag id that is -1 is `none`; the Booleans say which callocs of
-- lgtd_lifx_tagging_incref give memory.
pub mod Agree
pub mod Lowest
pub mod Labels
pub mod Lookup
use lightsd.Common.{
  ℕ, ◌-◌, List, [], ◌∷◌, Bool, true, false, Option, none, some, ◌==◌, not, if◌then◌else◌, get_or,
  set, bit_and, bit_or,
}
use lightsd.Wire.TagIds.{u64_mod, tag_id_to_value, bitscan64_forward, foreach_tag_id}
use lightsd.Tagging.Labels.{Label}
use lightsd.Tagging.{Tags, incref, decref}
use lightsd.Gateway.State.{Gateway}

-- A gateway and the global list of tags.
pub record TagState : Type 0 where
  pub gw : Gateway
  pub store : Tags

-- The NULL test on a pointer to a tag, and the equality of two.
abbrev pub is_tag : Option ℕ → ℕ → Bool
is_tag none tag = false
is_tag (some t) tag = t == tag

unfoldable pub first_with_tag : List ℕ → List (Option ℕ) → ℕ → Option ℕ
first_with_tag [] tags tag = none
first_with_tag (i ∷ ids) tags tag =
    if is_tag (get_or tags i none) tag then some i else first_with_tag ids tags tag

unfoldable pub get_tag_id : Gateway → ℕ → Option ℕ
get_tag_id gw tag = first_with_tag (foreach_tag_id gw.tag_ids) gw.tags tag

abbrev pub is_allocated : Gateway → ℕ → Bool
is_allocated gw id = not (bit_and gw.tag_ids (tag_id_to_value id) == 0)

-- `tag_id`, or the first id that is free.
abbrev pub chosen_tag_id : Gateway → Option ℕ → Option ℕ
chosen_tag_id gw (some id) = some id
chosen_tag_id gw none = bitscan64_forward (u64_mod - 1 - gw.tag_ids)

-- What follows lgtd_lifx_tagging_incref.
abbrev pub register : Gateway → ℕ → Option ℕ × Tags → Option ℕ × TagState
register gw id (none, store) = (none, record { gw = gw; store = store })
register gw id (some tag, store) = (
  some id,
  record {
    gw = record gw {
      tag_ids = bit_or gw.tag_ids (tag_id_to_value id);
      tags = set gw.tags id (some tag);
    };
    store = store;
  },
)

abbrev pub allocate_given : ℕ → TagState → ℕ → Label → Bool → Bool → Option ℕ × TagState
allocate_given me s id label tag_memory site_memory =
    if is_allocated s.gw id
    then (some id, s)
    else register s.gw id (incref s.store label me id tag_memory site_memory)

unfoldable pub allocate_tag_id : ℕ → TagState → Option ℕ → Label → Bool → Bool → Option ℕ × TagState
allocate_tag_id me s tag_id label tag_memory site_memory = elim (chosen_tag_id s.gw tag_id) [
  | none ↦ (none, s)
  | some id ↦ allocate_given me s id label tag_memory site_memory
]

-- lgtd_lifx_tagging_decref of what may be NULL.
abbrev pub release : Tags → Option ℕ → ℕ → Tags
release store none me = store
release store (some tag) me = decref store tag me

unfoldable pub deallocate_tag_id : ℕ → TagState → ℕ → TagState
deallocate_tag_id me s id =
    if is_allocated s.gw id
    then record {
      gw = record (s.gw) {
        tag_ids = bit_and s.gw.tag_ids (u64_mod - 1 - tag_id_to_value id);
        tags = set s.gw.tags id none;
      };
      store = release s.store (get_or s.gw.tags id none) me;
    }
    else s

-- One round of the loop of lgtd_lifx_gateway_handle_tag_labels.
abbrev pub handle_tag_label : ℕ → TagState → ℕ → Label → Bool → Bool → TagState
handle_tag_label me s id [] tag_memory site_memory = elim (get_or s.gw.tags id none) [
  | none ↦ s
  | some tag ↦ deallocate_tag_id me s id
]
handle_tag_label me s id (c ∷ label) tag_memory site_memory =
    (allocate_tag_id me s (some id) (c ∷ label) tag_memory site_memory).1

-- `memory` gives the two answers of calloc for each tag id.
unfoldable pub label_each : ℕ → TagState → List ℕ → Label → (ℕ → Bool × Bool) → TagState
label_each me s [] label memory = s
label_each me s (id ∷ ids) label memory =
    label_each me (handle_tag_label me s id label (memory id).0 (memory id).1) ids label memory

unfoldable pub handle_tag_labels : ℕ → TagState → ℕ → Label → (ℕ → Bool × Bool) → TagState
handle_tag_labels me s pkt_tags label memory =
    label_each me s (foreach_tag_id pkt_tags) label memory
