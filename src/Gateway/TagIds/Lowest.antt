-- ===== src/Gateway/TagIds/Lowest.antt =====
-- The id that lgtd_lifx_gateway_allocate_tag_id chooses when it is given none.
use lightsd.Common.{ℕ, ◌-◌, ◌<◌, ◌≡◌, refl, Bool, none, some, arith}
use lightsd.Common.Bits.{bit, bit-le-one}
use lightsd.Common.Bits.Words.{bit-complement}
use lightsd.Wire.TagIds.{u64_mod, bitscan64_forward}
use lightsd.Wire.TagIds.Lowest.{bitscan64_forward-IsLowest}
use lightsd.Tagging.Labels.{Label}
use lightsd.Gateway.TagIds.{TagState, allocate_tag_id}

-- While one of the 64 ids is free, lgtd_lifx_gateway_allocate_tag_id without a given id does what it
-- does for the lowest id that is free.
pub allocate_tag_id-lowest :
    (me : ℕ) (s : TagState) (label : Label) (tag_memory site_memory : Bool)
    → s.gw.tag_ids < u64_mod - 1
    → (k : ℕ) × (k < 64)
      × (bit s.gw.tag_ids k ≡ 0)
      × ((i : ℕ) → i < k → bit s.gw.tag_ids i ≡ 1)
      × (allocate_tag_id me s none label tag_memory site_memory
          ≡ allocate_tag_id me s (some k) label tag_memory site_memory)
unfolding allocate_tag_id
allocate_tag_id-lowest me s label tm sm h =
    let (k, e, lt, l) =
      bitscan64_forward-IsLowest (u64_mod - 1 - s.gw.tag_ids) (omega arith) (omega arith) in
    (
      k,
      lt,
      omega (
        arith,
        l.is_set,
        bit-complement 64 s.gw.tag_ids k (omega arith) lt,
        bit-le-one s.gw.tag_ids k,
      ),
      (λ i p. omega (
        arith,
        l.clear_below i p,
        bit-complement 64 s.gw.tag_ids i (omega arith) (omega arith),
        bit-le-one s.gw.tag_ids i,
      )),
      rw (e, allocate_tag_id) refl,
    )

-- When all 64 ids are taken, lgtd_lifx_gateway_allocate_tag_id without a given id gives -1 and changes
-- neither the gateway nor the list of tags.
allocate_tag_id-full :
    (me : ℕ) (s : TagState) (label : Label) (tag_memory site_memory : Bool)
    → s.gw.tag_ids ≡ u64_mod - 1
    → allocate_tag_id me s none label tag_memory site_memory ≡ (none, s)
unfolding allocate_tag_id bitscan64_forward
allocate_tag_id-full me s label tm sm h = rw h refl
