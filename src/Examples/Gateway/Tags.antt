-- ===== src/Examples/Gateway/Tags.antt =====
-- The theorems about the tag ids, the counters and the bulbs of a gateway.
use lightsd.Common.{
  ◌≢◌, ℕ, ◌+◌, ◌<◌, ◌≡◌, refl, inl, inr, List, [], ◌∷◌, true, none, some, arith, get_or, set,
  replicate,
}
use lightsd.Common.Bits.{bit}
use lightsd.Wire.PacketTable.Find.{row_list}
use lightsd.Wire.Endian.{Host}
use lightsd.Tagging.Labels.{Label}
use lightsd.Gateway.State.{Gateway, opened}
use lightsd.Gateway.TagIds.Lookup.{get_tag_id-tag}
use lightsd.Gateway.TagIds.{get_tag_id, TagState, allocate_tag_id, handle_tag_labels}
use lightsd.Gateway.TagIds.Lowest.{allocate_tag_id-lowest}
use lightsd.Gateway.TagIds.Agree.{TagsAgree, opened-TagsAgree, allocate_tag_id-TagsAgree}
use lightsd.Gateway.TagIds.Labels.{handle_tag_labels-TagsAgree}
use lightsd.Gateway.Refcounts.{update_tag_refcounts, remove_bulb_tags}
use lightsd.Gateway.Refcounts.Exact.{update_tag_refcounts-exact, remove_bulb_tags-exact}
use lightsd.Gateway.Hardware.{no_hardware}
use lightsd.Gateway.Bulbs.{BulbState, LightState, power_on, power_off, set_light_state}
use lightsd.Gateway.Bulbs.Power.{lit, set_light_state-exact}

abbrev test_site : List ℕ
test_site = 1 ∷ 2 ∷ 3 ∷ 4 ∷ 5 ∷ 6 ∷ []

abbrev no_tags : TagState
no_tags = record { gw = opened test_site 5; store = record { list = []; fresh = 1 } }

abbrev kitchen : Label
kitchen = 107 ∷ 105 ∷ []

no_tags-TagsAgree : TagsAgree no_tags.gw
no_tags-TagsAgree = opened-TagsAgree test_site 5

handle_tag_labels-TagsAgree_example :
    TagsAgree (handle_tag_labels 100 no_tags 5 kitchen (λ id. (true, true))).gw
handle_tag_labels-TagsAgree_example =
    handle_tag_labels-TagsAgree 100 no_tags 5 kitchen (λ id. (true, true)) (omega arith)
      no_tags-TagsAgree

-- A gateway on which the ids 0 and 2 are taken, and one with all of them.
abbrev taken : ℕ → TagState
taken ids = record no_tags { gw = record (no_tags.gw) { tag_ids = ids } }

allocate_tag_id-lowest_example :
    (k : ℕ) × (k < 64)
    × (bit 5 k ≡ 0)
    × ((i : ℕ) → i < k → bit 5 i ≡ 1)
    × (allocate_tag_id 100 (taken 5) none kitchen true true
        ≡ allocate_tag_id 100 (taken 5) (some k) kitchen true true)
allocate_tag_id-lowest_example =
    allocate_tag_id-lowest 100 (taken 5) kitchen true true (omega arith)

no_id : (id : ℕ) → none ≡ some id → id < 64
no_id id e = cc

abbrev with_kitchen : TagState
with_kitchen = (allocate_tag_id 100 no_tags none kitchen true true).1

with_kitchen-TagsAgree : TagsAgree (allocate_tag_id 100 no_tags none kitchen true true).1.gw
with_kitchen-TagsAgree =
    allocate_tag_id-TagsAgree 100 no_tags none kitchen true true no_id no_tags-TagsAgree

-- One bulb has the tag 2.
abbrev counting : Gateway
counting = record (no_tags.gw) { tag_ids = 5; tag_refcounts = set (replicate 64 0) 2 1 }

update_tag_refcounts-exact_example :
    get_or (update_tag_refcounts Host.little 7 row_list counting 4 1).tag_refcounts 2 0 + bit 4 2
    ≡ get_or counting.tag_refcounts 2 0 + bit 1 2
unfolding bit
update_tag_refcounts-exact_example =
    update_tag_refcounts-exact Host.little 7 row_list counting 4 1 2 (omega arith) (omega arith)
      (omega arith) refl (omega arith) (omega arith)

remove_bulb_tags-exact_example :
    get_or (remove_bulb_tags counting 4).tag_refcounts 2 0 + bit 4 2
    ≡ get_or counting.tag_refcounts 2 0
unfolding bit
remove_bulb_tags-exact_example =
    remove_bulb_tags-exact counting 4 2 (omega arith) (omega arith) refl (omega arith) (omega arith)

abbrev dark : LightState
dark = record {
  hue = 1;
  saturation = 2;
  brightness = 3;
  kelvin = 4000;
  dim = 0;
  power = power_off;
  label = kitchen;
  tags = 4;
}

abbrev bright : LightState
bright = record dark { power = power_on; tags = 5 }

abbrev one_bulb : BulbState
one_bulb = record {
  bulb = record {
    addr = test_site;
    last_light_state_at = 3;
    dirty_at = 0;
    expected_power_on = 0;
    hardware = no_hardware;
    state = dark;
  };
  gw = counting;
  bulbs_powered_on = 2;
}

set_light_state-exact_example :
    ((set_light_state Host.little 7 row_list one_bulb bright 9).bulb.state ≡ bright)
    × ((set_light_state Host.little 7 row_list one_bulb bright 9).bulbs_powered_on + lit power_off
        ≡ 2 + lit power_on)
    × (get_or (set_light_state Host.little 7 row_list one_bulb bright 9).gw.tag_refcounts 0 0
          + bit 4 0
        ≡ get_or counting.tag_refcounts 0 0 + bit 5 0)
unfolding bit
set_light_state-exact_example =
    set_light_state-exact Host.little 7 row_list one_bulb bright 9 0 (inl refl) (inr refl)
      (omega arith) (omega arith) (omega arith) (omega arith) refl (omega arith) (omega arith)

get_tag_id-tag_example :
    ((i : ℕ) → get_tag_id with_kitchen.gw 1 ≡ some i → get_or with_kitchen.gw.tags i none ≡ some 1)
    × (get_tag_id with_kitchen.gw 1 ≡ none
        → (i : ℕ) → i < 64
        → get_or with_kitchen.gw.tags i none ≢ some 1)
get_tag_id-tag_example = get_tag_id-tag with_kitchen.gw 1 with_kitchen-TagsAgree
