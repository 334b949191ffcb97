-- ===== src/Handling/Links/Tags.antt =====
-- The handling of tag ids leaves the list of bulbs of a gateway as it was.
use lightsd.Common.{
  ℕ, ◌≡◌, refl, ◌∙◌, inl, inr, List, [], ◌∷◌, Bool, Option, none, some, Option-cases, get_or,
  if_both,
}
use lightsd.Wire.TagIds.{foreach_tag_id}
use lightsd.Tagging.Labels.{Label}
use lightsd.Tagging.{Tags, incref}
use lightsd.Gateway.State.{Gateway}
use lightsd.Gateway.TagIds.{
  TagState, is_allocated, chosen_tag_id, register, allocate_tag_id, deallocate_tag_id,
  handle_tag_label, label_each, handle_tag_labels,
}

register-bulbs :
    (gw : Gateway) (id : ℕ) (r : Option ℕ × Tags) → (register gw id r).1.gw.bulbs ≡ gw.bulbs
register-bulbs gw id (none, store) = refl
register-bulbs gw id (some tag, store) = refl

pub allocate_tag_id-bulbs :
    (me : ℕ) (s : TagState) (given : Option ℕ) (label : Label) (tm sm : Bool)
    → (allocate_tag_id me s given label tm sm).1.gw.bulbs ≡ s.gw.bulbs
unfolding allocate_tag_id
allocate_tag_id-bulbs me s given label tm sm = elim (Option-cases (chosen_tag_id s.gw given)) [
  | inl e ↦ rw (e, allocate_tag_id) refl
  | inr (id, e) ↦
      rw (e, allocate_tag_id)
        (if_both (λ (r : Option ℕ × TagState). r.1.gw.bulbs ≡ s.gw.bulbs) (is_allocated s.gw id) _ _
          refl (register-bulbs s.gw id (incref s.store label me id tm sm)))
]

pub deallocate_tag_id-bulbs :
    (me : ℕ) (s : TagState) (id : ℕ) → (deallocate_tag_id me s id).gw.bulbs ≡ s.gw.bulbs
unfolding deallocate_tag_id
deallocate_tag_id-bulbs me s id =
    if_both (λ (r : TagState). r.gw.bulbs ≡ s.gw.bulbs) (is_allocated s.gw id) _ _ refl refl

handle_tag_label-bulbs :
    (me : ℕ) (s : TagState) (id : ℕ) (label : Label) (tm sm : Bool)
    → (handle_tag_label me s id label tm sm).gw.bulbs ≡ s.gw.bulbs
handle_tag_label-bulbs me s id [] tm sm = elim (Option-cases (get_or s.gw.tags id none)) [
  | inl e ↦ rw (e, handle_tag_label) refl
  | inr (tag, e) ↦ rw (e, handle_tag_label) (deallocate_tag_id-bulbs me s id)
]
handle_tag_label-bulbs me s id (c ∷ label) tm sm =
    allocate_tag_id-bulbs me s (some id) (c ∷ label) tm sm

label_each-bulbs :
    (me : ℕ) (s : TagState) (ids : List ℕ) (label : Label) (memory : ℕ → Bool × Bool)
    → (label_each me s ids label memory).gw.bulbs ≡ s.gw.bulbs
unfolding label_each
label_each-bulbs me s [] label memory = refl
label_each-bulbs me s (id ∷ ids) label memory =
    label_each-bulbs me (handle_tag_label me s id label (memory id).0 (memory id).1) ids label
      memory
    ∙ handle_tag_label-bulbs me s id label (memory id).0 (memory id).1

pub handle_tag_labels-bulbs :
    (me : ℕ) (s : TagState) (tags : ℕ) (label : Label) (memory : ℕ → Bool × Bool)
    → (handle_tag_labels me s tags label memory).gw.bulbs ≡ s.gw.bulbs
unfolding handle_tag_labels
handle_tag_labels-bulbs me s tags label memory =
    label_each-bulbs me s (foreach_tag_id tags) label memory
