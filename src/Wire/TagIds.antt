-- ===== src/Wire/TagIds.antt =====
-- lifx/wire_proto.h: tag ids as the bits of a uint64_t, and the loop over them. An `int` tag id
-- that may be -1 is an option, with `none` for -1.
pub mod Lowest
pub mod Visit
use lightsd.Common.{
  ℕ, zero, suc, ◌+◌, ◌-◌, ◌*◌, ◌/◌, ◌%◌, ◌^◌, ◌≡◌, refl, Bool, true, Option, none, some, List, [],
  ◌∷◌, bit_and, bit_xor, ltb, ◌==◌, if◌then◌else◌, get_or,
}

abbrev pub u64_mod : ℕ
u64_mod = 2 ^ 64

abbrev pub debruijn_number : ℕ
debruijn_number = 0x03f79d71b4cb0a89

abbrev pub debruijn_sequence : List ℕ
debruijn_sequence =
    0 ∷ 47 ∷ 1 ∷ 56 ∷ 48 ∷ 27 ∷ 2 ∷ 60 ∷ 57 ∷ 49 ∷ 41 ∷ 37 ∷ 28 ∷ 16 ∷ 3 ∷ 61 ∷ 54 ∷ 58 ∷ 35 ∷ 52
    ∷ 50 ∷ 42 ∷ 21 ∷ 44 ∷ 38 ∷ 32 ∷ 29 ∷ 23 ∷ 17 ∷ 11 ∷ 4 ∷ 62 ∷ 46 ∷ 55 ∷ 26 ∷ 59 ∷ 40 ∷ 36 ∷ 15
    ∷ 53 ∷ 34 ∷ 51 ∷ 20 ∷ 43 ∷ 31 ∷ 22 ∷ 10 ∷ 45 ∷ 25 ∷ 39 ∷ 14 ∷ 33 ∷ 19 ∷ 30 ∷ 9 ∷ 24 ∷ 13 ∷ 18
    ∷ 8 ∷ 12 ∷ 7 ∷ 6 ∷ 5 ∷ 63 ∷ []

-- LGTD_LIFX_WIRE_TAG_ID_TO_VALUE
abbrev pub tag_id_to_value : ℕ → ℕ
tag_id_to_value x = 2 ^ x

-- The index into the sequence: a product of uint64_t, and its six highest bits.
pub debruijn_index : ℕ → ℕ
debruijn_index n = bit_xor n (n - 1) * debruijn_number % u64_mod / 2 ^ 58

-- A read out of the table would give 64.
unfoldable pub bitscan64_forward : ℕ → Option ℕ
unfolding debruijn_index
bitscan64_forward n = if n == 0 then none else some (get_or debruijn_sequence (debruijn_index n) 64)

-- The first tag id that is still to be looked at.
abbrev pub following : Option ℕ → ℕ
following none = 0
following (some i) = i + 1

-- `tags & (~0ULL << shift)`
pub tags_from : ℕ → ℕ → ℕ
tags_from shift tags = bit_and tags ((u64_mod - 1) * 2 ^ shift % u64_mod)

unfoldable pub next_tag_id : Option ℕ → ℕ → Option ℕ
unfolding tags_from
next_tag_id current tags =
    if ltb (following current) 64
    then bitscan64_forward (tags_from (following current) tags)
    else none

-- The ids that LGTD_LIFX_WIRE_FOREACH_TAG_ID takes in turn, from the one after `current` on.
unfoldable pub tag_ids_after : ℕ → Option ℕ → ℕ → List ℕ
tag_ids_after zero current tags = []
tag_ids_after (suc fuel) current tags = elim (next_tag_id current tags) [
  | none ↦ []
  | some i ↦ i ∷ tag_ids_after fuel (some i) tags
]

-- LGTD_LIFX_WIRE_FOREACH_TAG_ID, on one round for each bit of the word.
unfoldable pub foreach_tag_id : ℕ → List ℕ
foreach_tag_id tags = tag_ids_after 64 none tags

foreach_tag_id_run : foreach_tag_id 0x8000_0000_0001_0005 ≡ 0 ∷ 2 ∷ 16 ∷ 63 ∷ []
unfolding foreach_tag_id tag_ids_after next_tag_id bitscan64_forward
foreach_tag_id_run = refl
