-- ===== src/Gateway/TagIds/Labels.antt =====
-- The loop of lgtd_lifx_gateway_handle_tag_labels.
use lightsd.Common.{
  ℕ, zero, suc, ◌+◌, ◌<◌, ◌≡◌, List, [], ◌∷◌, Bool, none, some, ◌==◌, arith, get_or, All, inl, inr,
  Bool-cases, Option-cases,
}
use lightsd.Common.Bits.{bit}
use lightsd.Wire.TagIds.{u64_mod, foreach_tag_id}
use lightsd.Wire.TagIds.Visit.{set_bits_from, foreach_tag_id-set_bits}
use lightsd.Tagging.Labels.{Label}
use lightsd.Gateway.TagIds.{TagState, handle_tag_label, label_each, handle_tag_labels}
use lightsd.Gateway.TagIds.Agree.{TagsAgree, allocate_tag_id-TagsAgree, deallocate_tag_id-TagsAgree}

set_bits_from-below : (n i tags : ℕ) → All (λ k. k < i + n) (set_bits_from n i tags)
set_bits_from-below zero i tags = tt
set_bits_from-below (suc n) i tags =
    let plus : suc i + n ≡ i + suc n = omega arith in
    let rest : All (λ k. k < i + suc n) (set_bits_from n (suc i) tags) =
      rw (← plus) (set_bits_from-below n (suc i) tags) in
    elim (Bool-cases (bit tags i == 1)) [ inl e ↦ rw e (omega arith, rest) | inr e ↦ rw e rest ]

pub foreach_tag_id-below : (tags : ℕ) → tags < u64_mod → All (λ k. k < 64) (foreach_tag_id tags)
foreach_tag_id-below tags h = rw (foreach_tag_id-set_bits tags h) (set_bits_from-below 64 0 tags)

some_inj : {a b : ℕ} → some a ≡ some b → a ≡ b
some_inj e = cc

handle_tag_label-TagsAgree :
    (me : ℕ) (s : TagState) (k : ℕ) (label : Label) (tm sm : Bool)
    → k < 64
    → TagsAgree s.gw
    → TagsAgree (handle_tag_label me s k label tm sm).gw
handle_tag_label-TagsAgree me s k [] tm sm lt a = elim (Option-cases (get_or s.gw.tags k none)) [
  | inl e ↦ rw (e, handle_tag_label) a
  | inr (tag, e) ↦ rw (e, handle_tag_label) (deallocate_tag_id-TagsAgree me s k lt a)
]
handle_tag_label-TagsAgree me s k (c ∷ label) tm sm lt a =
    allocate_tag_id-TagsAgree me s (some k) (c ∷ label) tm sm (λ id e. rw (← some_inj e) lt) a

label_each-TagsAgree :
    (me : ℕ) (s : TagState) (ids : List ℕ) (label : Label) (memory : ℕ → Bool × Bool)
    → All (λ k. k < 64) ids
    → TagsAgree s.gw
    → TagsAgree (label_each me s ids label memory).gw
unfolding label_each
label_each-TagsAgree me s [] label memory h a = a
label_each-TagsAgree me s (k ∷ ids) label memory h a =
    label_each-TagsAgree me (handle_tag_label me s k label (memory k).0 (memory k).1) ids label
      memory h.1 (handle_tag_label-TagsAgree me s k label (memory k).0 (memory k).1 h.0 a)

-- If the word and the array of tag ids of a gateway agree, they agree after
-- lgtd_lifx_gateway_handle_tag_labels of any packet, whatever memory there is for each tag id.
pub handle_tag_labels-TagsAgree :
    (me : ℕ) (s : TagState) (pkt_tags : ℕ) (label : Label) (memory : ℕ → Bool × Bool)
    → pkt_tags < u64_mod
    → TagsAgree s.gw
    → TagsAgree (handle_tag_labels me s pkt_tags label memory).gw
unfolding handle_tag_labels
handle_tag_labels-TagsAgree me s pkt_tags label memory w a =
    label_each-TagsAgree me s (foreach_tag_id pkt_tags) label memory
      (foreach_tag_id-below pkt_tags w) a
