-- ===== src/Gateway/TagIds/Agree.antt =====
-- The two records that a gateway keeps of its tag ids: the word of bits and the array of pointers.
use lightsd.Common.{
  ℕ, ◌-◌, ◌<◌, ◌≡◌, ◌≢◌, refl, sym, ◌∙◌, ◌^◌, List, Bool, Option, none, some, arith, get_or, set,
  length, bit_and, bit_or, ap, dec_lt, ℕ_discrete, inl, inr, Bool-cases, Option-cases, length-set,
  get_or-set_self, get_or-set_ne, get_or-replicate,
}
use lightsd.Common.Bits.{
  bit, bit-le-one, bit-bit_and, bit-bit_or, bit-pow_self, bit-pow_ne, zero-bit,
}
use lightsd.Common.Bits.Words.{bit-complement, bit_and_lt, bit_or_lt, pow_lt}
use lightsd.Wire.TagIds.{u64_mod, tag_id_to_value, bitscan64_forward}
use lightsd.Wire.TagIds.Lowest.{bitscan64_forward-IsLowest}
use lightsd.Tagging.Labels.{Label}
use lightsd.Tagging.{Tags, incref}
use lightsd.Gateway.State.{Gateway, opened}
use lightsd.Gateway.TagIds.{
  TagState, is_allocated, chosen_tag_id, register, allocate_given, allocate_tag_id,
  deallocate_tag_id,
}

-- 1 for a pointer that is not NULL.
abbrev pub present : Option ℕ → ℕ
present none = 0
present (some tag) = 1

-- Of the 64 ids, those whose bit is set are those that have a tag.
pub record TagsAgree (gw : Gateway) : Type 0 where
  pub all_ids : length gw.tags ≡ 64
  pub word : gw.tag_ids < u64_mod
  pub agree : (i : ℕ) → i < 64 → bit gw.tag_ids i ≡ present (get_or gw.tags i none)

bit-set_self : (n k : ℕ) → bit (bit_or n (2 ^ k)) k ≡ 1
bit-set_self n k = omega (arith, bit-bit_or n (2 ^ k) k, bit-pow_self k, bit-le-one n k)

bit-set_ne : (n k i : ℕ) → k ≢ i → bit (bit_or n (2 ^ k)) i ≡ bit n i
bit-set_ne n k i ne = omega (arith, bit-bit_or n (2 ^ k) i, bit-pow_ne k i ne)

bit-clear_self : (n k : ℕ) → k < 64 → bit (bit_and n (u64_mod - 1 - 2 ^ k)) k ≡ 0
bit-clear_self n k lt = omega (
  arith,
  bit-bit_and n (u64_mod - 1 - 2 ^ k) k,
  bit-complement 64 (2 ^ k) k (pow_lt k 64 lt) lt,
  bit-pow_self k,
)

bit-clear_ne :
    (n k i : ℕ) → k < 64 → i < 64 → k ≢ i → bit (bit_and n (u64_mod - 1 - 2 ^ k)) i ≡ bit n i
bit-clear_ne n k i lt lt' ne = omega (
  arith,
  bit-bit_and n (u64_mod - 1 - 2 ^ k) i,
  bit-complement 64 (2 ^ k) i (pow_lt k 64 lt) lt',
  bit-pow_ne k i ne,
  bit-le-one n i,
)

-- The gateway with a tag at an id, and with none.
abbrev with_tag : Gateway → ℕ → ℕ → Gateway
with_tag gw k tag = record gw {
  tag_ids = bit_or gw.tag_ids (tag_id_to_value k);
  tags = set gw.tags k (some tag);
}

abbrev without_tag : Gateway → ℕ → Gateway
without_tag gw k = record gw {
  tag_ids = bit_and gw.tag_ids (u64_mod - 1 - tag_id_to_value k);
  tags = set gw.tags k none;
}

with_tag-TagsAgree :
    (gw : Gateway) (k tag : ℕ) → k < 64 → TagsAgree gw → TagsAgree (with_tag gw k tag)
with_tag-TagsAgree gw k tag lt a = record {
  all_ids = length-set gw.tags k (some tag) ∙ a.all_ids;
  word = bit_or_lt 64 gw.tag_ids (2 ^ k) a.word (pow_lt k 64 lt);
  agree = λ i lt'. elim (ℕ_discrete k i) [
    | yes e ↦ rw (← e) (
        rw (get_or-set_self gw.tags k (some tag) none (omega (arith, a.all_ids)))
          (bit-set_self gw.tag_ids k))
    | no ne ↦
        rw (get_or-set_ne gw.tags k i (some tag) none ne)
          (bit-set_ne gw.tag_ids k i ne ∙ a.agree i lt')
  ];
}

without_tag-TagsAgree :
    (gw : Gateway) (k : ℕ) → k < 64 → TagsAgree gw → TagsAgree (without_tag gw k)
without_tag-TagsAgree gw k lt a = record {
  all_ids = length-set gw.tags k none ∙ a.all_ids;
  word = bit_and_lt 64 gw.tag_ids (u64_mod - 1 - 2 ^ k) a.word;
  agree = λ i lt'. elim (ℕ_discrete k i) [
    | yes e ↦ rw (← e) (
        rw (get_or-set_self gw.tags k none none (omega (arith, a.all_ids)))
          (bit-clear_self gw.tag_ids k lt))
    | no ne ↦
        rw (get_or-set_ne gw.tags k i none none ne)
          (bit-clear_ne gw.tag_ids k i lt lt' ne ∙ a.agree i lt')
  ];
}

register-TagsAgree :
    (gw : Gateway) (k : ℕ) (r : Option ℕ × Tags)
    → k < 64
    → TagsAgree gw
    → TagsAgree (register gw k r).1.gw
register-TagsAgree gw k (none, store) lt a = a
register-TagsAgree gw k (some tag, store) lt a = with_tag-TagsAgree gw k tag lt a

allocate_given-TagsAgree :
    (me : ℕ) (s : TagState) (k : ℕ) (label : Label) (tm sm : Bool)
    → k < 64
    → TagsAgree s.gw
    → TagsAgree (allocate_given me s k label tm sm).1.gw
allocate_given-TagsAgree me s k label tm sm lt a = elim (Bool-cases (is_allocated s.gw k)) [
  | inl e ↦ rw e a
  | inr e ↦ rw e (register-TagsAgree s.gw k (incref s.store label me k tm sm) lt a)
]

none_ne : (k : ℕ) → none ≡ some k → ⊥
none_ne k e = cc

some_inj : {a b : ℕ} → some a ≡ some b → a ≡ b
some_inj e = cc

no_lowest : (n k : ℕ) → u64_mod - 1 - n ≡ 0 → bitscan64_forward (u64_mod - 1 - n) ≡ some k → ⊥
unfolding bitscan64_forward
no_lowest n k z e = none_ne k (sym (ap bitscan64_forward z) ∙ e)

chosen_lt :
    (gw : Gateway) (given : Option ℕ) (k : ℕ)
    → gw.tag_ids < u64_mod
    → ((id : ℕ) → given ≡ some id → id < 64)
    → chosen_tag_id gw given ≡ some k
    → k < 64
chosen_lt gw (some id) k w h e = h k e
chosen_lt gw none k w h e = elim (dec_lt 0 (u64_mod - 1 - gw.tag_ids)) [
  | yes p ↦
      let (k', f, lt, l) = bitscan64_forward-IsLowest (u64_mod - 1 - gw.tag_ids) p (omega arith) in
      omega (arith, some_inj (sym e ∙ f))
  | no p ↦ absurd (no_lowest gw.tag_ids k (omega arith) e)
]

-- If the word and the array of tag ids agree, and the id that is given, if one is, is below 64, then
-- they agree after lgtd_lifx_gateway_allocate_tag_id, whatever memory there is.
pub allocate_tag_id-TagsAgree :
    (me : ℕ) (s : TagState) (given : Option ℕ) (label : Label) (tag_memory site_memory : Bool)
    → ((id : ℕ) → given ≡ some id → id < 64)
    → TagsAgree s.gw
    → TagsAgree (allocate_tag_id me s given label tag_memory site_memory).1.gw
unfolding allocate_tag_id
allocate_tag_id-TagsAgree me s given label tm sm h a =
    elim (Option-cases (chosen_tag_id s.gw given)) [
      | inl e ↦ rw (e, allocate_tag_id) a
      | inr (k, e) ↦
          rw (e, allocate_tag_id)
            (allocate_given-TagsAgree me s k label tm sm (chosen_lt s.gw given k a.word h e) a)
    ]

-- If the word and the array of tag ids agree, they agree after lgtd_lifx_gateway_deallocate_tag_id of
-- an id below 64.
pub deallocate_tag_id-TagsAgree :
    (me : ℕ) (s : TagState) (k : ℕ)
    → k < 64
    → TagsAgree s.gw
    → TagsAgree (deallocate_tag_id me s k).gw
unfolding deallocate_tag_id
deallocate_tag_id-TagsAgree me s k lt a = elim (Bool-cases (is_allocated s.gw k)) [
  | inl e ↦ rw (e, deallocate_tag_id) (without_tag-TagsAgree s.gw k lt a)
  | inr e ↦ rw (e, deallocate_tag_id) a
]

-- They agree in a gateway that was just opened.
pub opened-TagsAgree : (site : List ℕ) (received_at : ℕ) → TagsAgree (opened site received_at)
opened-TagsAgree site received_at = record {
  all_ids = refl;
  word = omega arith;
  agree = λ i lt. zero-bit i ∙ ap present (sym (get_or-replicate 64 i none));
}
