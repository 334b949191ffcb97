-- ===== src/Wire/TagIds/Visit.antt =====
-- The loop over the tag ids of a word against the set bits of the word.
use lightsd.Common.{
  ℕ, zero, suc, ◌+◌, ◌-◌, ◌*◌, ◌%◌, ◌^◌, ◌≤◌, ◌<◌, ◌≡◌, inl, inr, refl, ap, sym, ◌∙◌, Option, none,
  some, List, [], ◌∷◌, ◌==◌, if◌then◌else◌, arith, Bool-cases, ℕ_discrete, dec_lt, ltb, lt→ltb,
  false,
}
use lightsd.Common.Bits.{bit, bit-le-one, bit-bit_and, zero-bit}
use lightsd.Common.Bits.Words.{bit-mask_low, bit-mask_high, bit_and_lt}
use lightsd.Wire.TagIds.{
  u64_mod, bitscan64_forward, following, tags_from, next_tag_id, tag_ids_after, foreach_tag_id,
}
use lightsd.Wire.TagIds.Lowest.{IsLowest, bitscan64_forward-IsLowest}

-- The set bits of `tags` among the `n` positions from `s` on, in ascending order.
abbrev pub set_bits_from : ℕ → ℕ → ℕ → List ℕ
set_bits_from zero s tags = []
set_bits_from (suc n) s tags =
    if bit tags s == 1 then s ∷ set_bits_from n (suc s) tags else set_bits_from n (suc s) tags

abbrev pub set_bits : ℕ → List ℕ
set_bits tags = set_bits_from 64 0 tags

-- The first set bit among the `n` positions from `s` on.
abbrev pub first_from : ℕ → ℕ → ℕ → Option ℕ
first_from zero s tags = none
first_from (suc n) s tags = if bit tags s == 1 then some s else first_from n (suc s) tags

first_from_clear :
    (n s tags : ℕ) → ((i : ℕ) → s ≤ i → i < s + n → bit tags i ≡ 0) → first_from n s tags ≡ none
first_from_clear zero s tags h = refl
first_from_clear (suc n) s tags h =
    rw (h s (omega arith) (omega arith))
      (first_from_clear n (suc s) tags (λ i p q. h i (omega arith) (omega arith)))

first_from_found :
    (n s tags k : ℕ)
    → s ≤ k
    → k < s + n
    → bit tags k ≡ 1
    → ((i : ℕ) → s ≤ i → i < k → bit tags i ≡ 0)
    → first_from n s tags ≡ some k
first_from_found zero s tags k p q b h = absurd (omega arith)
first_from_found (suc n) s tags k p q b h = elim (ℕ_discrete s k) [
  | yes e ↦ rw (e, b)
  | no ne ↦ rw (h s (omega arith) (omega arith)) (
      first_from_found n (suc s) tags k (omega arith) (omega arith) b
        (λ i p' q'. h i (omega arith) q'))
]

-- What is left of the tags from `s` on.
bit-tags_from_low : (s tags i : ℕ) → i < s → i < 64 → bit (tags_from s tags) i ≡ 0
unfolding tags_from
bit-tags_from_low s tags i lt lw =
    omega (arith, bit-bit_and tags ((u64_mod - 1) * 2 ^ s % u64_mod) i, bit-mask_low 64 s i lt lw)

bit-tags_from_high : (s tags i : ℕ) → s ≤ i → i < 64 → bit (tags_from s tags) i ≡ bit tags i
unfolding tags_from
bit-tags_from_high s tags i le lw = omega (
  arith,
  bit-bit_and tags ((u64_mod - 1) * 2 ^ s % u64_mod) i,
  bit-mask_high 64 s i le lw,
  bit-le-one tags i,
)

tags_from-lt : (s tags : ℕ) → tags < u64_mod → tags_from s tags < u64_mod
unfolding tags_from
tags_from-lt s tags h = bit_and_lt 64 tags _ h

lowest_ge : (s tags k : ℕ) → k < 64 → IsLowest (tags_from s tags) k → s ≤ k
lowest_ge s tags k kw l = elim (dec_lt k s) [
  | yes lt ↦ absurd (omega (arith, bit-tags_from_low s tags k lt kw, l.is_set))
  | no ge ↦ omega arith
]

scan_found :
    (s tags k : ℕ) → k < 64 → IsLowest (tags_from s tags) k → first_from (64 - s) s tags ≡ some k
scan_found s tags k kw l =
    let ge : s ≤ k = lowest_ge s tags k kw l in
    first_from_found (64 - s) s tags k ge (omega arith)
      (omega (arith, bit-tags_from_high s tags k ge kw, l.is_set))
      (λ i p q. omega (arith, bit-tags_from_high s tags i p (omega arith), l.clear_below i q))

scan_clear : (s tags : ℕ) → s < 64 → tags_from s tags ≡ 0 → first_from (64 - s) s tags ≡ none
scan_clear s tags lt e = first_from_clear (64 - s) s tags (λ i p q.
    omega
      (arith, bit-tags_from_high s tags i p (omega arith), ap (λ (t : ℕ). bit t i) e, zero-bit i))

bitscan64_forward-zero : bitscan64_forward 0 ≡ none
unfolding bitscan64_forward
bitscan64_forward-zero = refl

-- The scan of the rest of the tags finds the first set bit from `s` on.
scan_from :
    (s tags : ℕ)
    → s < 64
    → tags < u64_mod
    → bitscan64_forward (tags_from s tags) ≡ first_from (64 - s) s tags
scan_from s tags lt h = elim (ℕ_discrete (tags_from s tags) 0) [
  | yes e ↦ ap bitscan64_forward e ∙ bitscan64_forward-zero ∙ sym (scan_clear s tags lt e)
  | no ne ↦
      let (k, found, kw, l) =
        bitscan64_forward-IsLowest (tags_from s tags) (omega arith) (tags_from-lt s tags h) in
      found ∙ sym (scan_found s tags k kw l)
]

-- lgtd_lifx_wire_next_tag_id returns the first tag id above the current one (any, from -1) whose bit
-- is set in the tags, and -1 if there is none, for every tag word and every current id.
pub next_tag_id-first_from :
    (current : Option ℕ) (tags : ℕ)
    → tags < u64_mod
    → next_tag_id current tags ≡ first_from (64 - following current) (following current) tags
unfolding next_tag_id
next_tag_id-first_from current tags h = elim (dec_lt (following current) 64) [
  | yes lt ↦ rw (lt→ltb _ _ lt) (scan_from (following current) tags lt h)
  | no ge ↦
      let e : 64 - following current ≡ 0 = omega arith in
      let f : ltb (following current) 64 ≡ false = ground arith in rw (e, f)
]

next_at :
    (n s : ℕ) (current : Option ℕ) (tags : ℕ)
    → tags < u64_mod
    → following current ≡ s
    → s + n ≡ 64
    → next_tag_id current tags ≡ first_from n s tags
next_at n s current tags h f e =
    let g : 64 - following current ≡ n = omega arith in
    rw (← f, ← g) (next_tag_id-first_from current tags h)

stop :
    (fuel : ℕ) (c : Option ℕ) (tags : ℕ)
    → next_tag_id c tags ≡ none
    → tag_ids_after fuel c tags ≡ []
unfolding tag_ids_after
stop zero c tags e = refl
stop (suc fuel) c tags e = rw (e, tag_ids_after)

take_one :
    (fuel : ℕ) (c : Option ℕ) (tags i : ℕ)
    → next_tag_id c tags ≡ some i
    → tag_ids_after (suc fuel) c tags ≡ i ∷ tag_ids_after fuel (some i) tags
unfolding tag_ids_after
take_one fuel c tags i e = rw (e, tag_ids_after)

same_next :
    (fuel : ℕ) (c d : Option ℕ) (tags : ℕ)
    → next_tag_id c tags ≡ next_tag_id d tags
    → tag_ids_after fuel c tags ≡ tag_ids_after fuel d tags
unfolding tag_ids_after
same_next zero c d tags e = refl
same_next (suc fuel) c d tags e = rw (e, tag_ids_after)

visit :
    (n s fuel : ℕ) (current : Option ℕ) (tags : ℕ)
    → tags < u64_mod
    → following current ≡ s
    → s + n ≡ 64
    → n ≤ fuel
    → tag_ids_after fuel current tags ≡ set_bits_from n s tags
visit zero s fuel current tags h f e le = stop fuel current tags (next_at 0 s current tags h f e)
visit (suc n) s zero current tags h f e le = absurd (omega arith)
visit (suc n) s (suc fuel) current tags h f e le = elim (Bool-cases (bit tags s == 1)) [
  | inl on ↦
      take_one fuel current tags s (next_at (suc n) s current tags h f e ∙ rw on refl)
      ∙ rw on (
          ap (◌∷◌ s)
            (visit n (suc s) fuel (some s) tags h (omega arith) (omega arith) (omega arith)))
  | inr off ↦
      same_next (suc fuel) current (some s) tags (
        next_at (suc n) s current tags h f e
        ∙ rw off (sym (next_at n (suc s) (some s) tags h (omega arith) (omega arith))))
      ∙ rw off
          (visit n (suc s) (suc fuel) (some s) tags h (omega arith) (omega arith) (omega arith))
]

-- LGTD_LIFX_WIRE_FOREACH_TAG_ID runs its body for exactly the ids below 64 whose bit is set in the
-- tags, each once and in ascending order.
pub foreach_tag_id-set_bits : (tags : ℕ) → tags < u64_mod → foreach_tag_id tags ≡ set_bits tags
unfolding foreach_tag_id
foreach_tag_id-set_bits tags h = visit 64 0 64 none tags h refl refl (omega arith)
