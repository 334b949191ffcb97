-- ===== src/Gateway/TagIds/Lookup.antt =====
-- lgtd_lifx_gateway_get_tag_id, both ways.
use lightsd.Common.{
  ℕ, zero, suc, ◌+◌, ◌<◌, ◌≤◌, ◌≡◌, ◌≢◌, refl, sym, ap, ◌∙◌, List, [], ◌∷◌, true, false, Option,
  none, some, ◌==◌, ==_iff, get_or, All, arith, inl, inr, Bool-cases, ℕ_discrete,
}
use mathlib.Core.Path.{subst}
use lightsd.Common.Bits.{bit}
use lightsd.Wire.TagIds.{foreach_tag_id}
use lightsd.Wire.TagIds.Visit.{set_bits_from, foreach_tag_id-set_bits}
use lightsd.Gateway.State.{Gateway}
use lightsd.Gateway.TagIds.{is_tag, first_with_tag, get_tag_id}
use lightsd.Gateway.TagIds.Agree.{TagsAgree, present}

some_inj : {a b : ℕ} → some a ≡ some b → a ≡ b
some_inj e = cc

is_tag-eq : (o : Option ℕ) (tag : ℕ) → is_tag o tag ≡ true → o ≡ some tag
is_tag-eq none tag h = cc
is_tag-eq (some t) tag h = ap some ((==_iff t tag).0 h)

is_tag-ne : (o : Option ℕ) (tag : ℕ) → is_tag o tag ≡ false → o ≢ some tag
is_tag-ne none tag h e = cc
is_tag-ne (some t) tag h e = ground (arith, h, some_inj e)

found :
    (ids : List ℕ) (tags : List (Option ℕ)) (tag i : ℕ)
    → first_with_tag ids tags tag ≡ some i
    → get_or tags i none ≡ some tag
unfolding first_with_tag
found [] tags tag i h = cc
found (k ∷ ids) tags tag i h = elim (Bool-cases (is_tag (get_or tags k none) tag)) [
  | inl e ↦
      let f : first_with_tag (k ∷ ids) tags tag ≡ some k = rw e refl in
      rw (← some_inj (sym f ∙ h)) (is_tag-eq (get_or tags k none) tag e)
  | inr e ↦
      let f : first_with_tag (k ∷ ids) tags tag ≡ first_with_tag ids tags tag = rw e refl in
      found ids tags tag i (sym f ∙ h)
]

not_found :
    (ids : List ℕ) (tags : List (Option ℕ)) (tag : ℕ)
    → first_with_tag ids tags tag ≡ none
    → All (λ i. get_or tags i none ≢ some tag) ids
unfolding first_with_tag
not_found [] tags tag h = tt
not_found (k ∷ ids) tags tag h = elim (Bool-cases (is_tag (get_or tags k none) tag)) [
  | inl e ↦
      let f : first_with_tag (k ∷ ids) tags tag ≡ some k = rw e refl in absurd (some_ne (sym f ∙ h))
  | inr e ↦
      let f : first_with_tag (k ∷ ids) tags tag ≡ first_with_tag ids tags tag = rw e refl in
      (is_tag-ne (get_or tags k none) tag e, not_found ids tags tag (sym f ∙ h))
]
  where
    some_ne : {j : ℕ} → some j ≡ none → ⊥
    some_ne p = cc

at_bit :
    (P : ℕ → Type 0) (n s tags i : ℕ)
    → All P (set_bits_from n s tags)
    → s ≤ i
    → i < s + n
    → bit tags i ≡ 1
    → P i
at_bit P zero s tags i h le lt b = absurd (omega arith)
at_bit P (suc n) s tags i h le lt b = elim (ℕ_discrete s i) [
  | yes e ↦
      let b' : bit tags s ≡ 1 = rw e b in
      let f : set_bits_from (suc n) s tags ≡ s ∷ set_bits_from n (suc s) tags = rw b' refl in
      rw (← e) ((subst (All P) f h).0)
  | no ne ↦ elim (Bool-cases (bit tags s == 1)) [
    | inl e ↦
        let f : set_bits_from (suc n) s tags ≡ s ∷ set_bits_from n (suc s) tags = rw e refl in
        at_bit P n (suc s) tags i ((subst (All P) f h).1) (omega arith) (omega arith) b
    | inr e ↦
        let f : set_bits_from (suc n) s tags ≡ set_bits_from n (suc s) tags = rw e refl in
        at_bit P n (suc s) tags i (subst (All P) f h) (omega arith) (omega arith) b
  ]
]

-- If the word and the array of tag ids agree, an id that lgtd_lifx_gateway_get_tag_id gives is an id of
-- the tag, and when it gives -1 none of the 64 ids is one of the tag.
pub get_tag_id-tag :
    (gw : Gateway) (tag : ℕ)
    → TagsAgree gw
    → ((i : ℕ) → get_tag_id gw tag ≡ some i → get_or gw.tags i none ≡ some tag)
      × (get_tag_id gw tag ≡ none → (i : ℕ) → i < 64 → get_or gw.tags i none ≢ some tag)
unfolding get_tag_id
get_tag_id-tag gw tag a = (
  (λ i h. found (foreach_tag_id gw.tag_ids) gw.tags tag i h),
  (λ h i lt e.
      at_bit (λ k. get_or gw.tags k none ≢ some tag) 64 0 gw.tag_ids i
        (subst (All (λ k. get_or gw.tags k none ≢ some tag))
          (foreach_tag_id-set_bits gw.tag_ids a.word)
          (not_found (foreach_tag_id gw.tag_ids) gw.tags tag h))
        (omega arith) (omega arith) (a.agree i lt ∙ ap present e) e),
)
