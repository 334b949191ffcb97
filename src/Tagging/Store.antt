-- ===== src/Tagging/Store.antt =====
-- lgtd_lifx_tagging_incref and lgtd_lifx_tagging_decref together: what a failure leaves, and what
-- undoes what.
use lightsd.Common.{
  ℕ, ◌+◌, ◌≡◌, refl, ap, ◌∙◌, List, [], ◌∷◌, Bool, true, false, none, some, Option-cases, inl, inr,
  ==_refl, take, arith,
}
use lightsd.Tagging.Labels.{Label}
use lightsd.Tagging.{
  Tag, Tags, find_site, find_tag, new_tag, allocate_tag, remove_tag, set_sites, add_site, incref,
  remove_site, tag_at, decref,
}

remove_tag_head : (t : Tag) (ts : List Tag) → remove_tag (t ∷ ts) t.number ≡ ts
unfolding remove_tag
remove_tag_head t ts = rw (==_refl t.number) refl

add_site-failed :
    (tags : Tags) (tag : Tag) (gw tag_id : ℕ) (memory : Bool)
    → (add_site tags tag false gw tag_id memory).0 ≡ none
    → (add_site tags tag false gw tag_id memory).1 ≡ tags
unfolding add_site
add_site-failed tags tag gw tag_id memory h = ground arith

add_new_site-failed :
    (tags : Tags) (label : Label) (gw tag_id : ℕ) (memory : Bool)
    → (add_site
        (record { list = new_tag tags label ∷ tags.list; fresh = tags.fresh + 1 })
        (new_tag tags label)
        true
        gw
        tag_id
        memory).0
      ≡ none
    → (add_site
        (record { list = new_tag tags label ∷ tags.list; fresh = tags.fresh + 1 })
        (new_tag tags label)
        true
        gw
        tag_id
        memory).1.list
      ≡ tags.list
unfolding add_site find_site
add_new_site-failed tags label gw tag_id true h = cc
add_new_site-failed tags label gw tag_id false h = remove_tag_head (new_tag tags label) tags.list

-- The store with a new tag.
abbrev pub with_new_tag : Tags → Label → Tags
with_new_tag tags label = record { list = new_tag tags label ∷ tags.list; fresh = tags.fresh + 1 }

pub incref-found :
    (tags : Tags) (label : Label) (gw tag_id : ℕ) (tm sm : Bool) (tag : Tag)
    → find_tag tags label ≡ some tag
    → incref tags label gw tag_id tm sm ≡ add_site tags tag false gw tag_id sm
unfolding incref
incref-found tags label gw tag_id tm sm tag e = rw (e, incref) refl

pub incref-not_found :
    (tags : Tags) (label : Label) (gw tag_id : ℕ) (sm : Bool)
    → find_tag tags label ≡ none
    → incref tags label gw tag_id true sm
      ≡ add_site (with_new_tag tags label) (new_tag tags label) true gw tag_id sm
unfolding incref allocate_tag
incref-not_found tags label gw tag_id sm e = rw (e, incref) refl

pub incref-no_memory :
    (tags : Tags) (label : Label) (gw tag_id : ℕ) (sm : Bool)
    → find_tag tags label ≡ none
    → incref tags label gw tag_id false sm ≡ (none, tags)
unfolding incref allocate_tag
incref-no_memory tags label gw tag_id sm e = rw (e, incref) refl

-- If lgtd_lifx_tagging_incref gives no tag, for want of memory for the tag or for the site, then
-- the list of tags is as before.
incref-failed :
    (tags : Tags) (label : Label) (gw tag_id : ℕ) (tag_memory site_memory : Bool)
    → (incref tags label gw tag_id tag_memory site_memory).0 ≡ none
    → (incref tags label gw tag_id tag_memory site_memory).1.list ≡ tags.list
incref-failed tags label gw tag_id tm sm h = elim (Option-cases (find_tag tags label)) [
  | inr (tag, e) ↦
      let f = incref-found tags label gw tag_id tm sm tag e in
      rw f (ap (λ t. t.list) (add_site-failed tags tag gw tag_id sm (rw (← f) h)))
  | inl e ↦
      elim tm
          as (λ m.
            (incref tags label gw tag_id m sm).0 ≡ none
            → (incref tags label gw tag_id m sm).1.list ≡ tags.list) [
              | true ↦ λ h'.
                  let f = incref-not_found tags label gw tag_id sm e in
                  rw f (add_new_site-failed tags label gw tag_id sm (rw (← f) h'))
              | false ↦ λ h'. rw (incref-no_memory tags label gw tag_id sm e) refl
            ]
        h
]

-- The list right after the first gateway with a label is counted.
incref-new :
    (tags : Tags) (label : Label) (gw tag_id : ℕ)
    → find_tag tags label ≡ none
    → incref tags label gw tag_id true true ≡ (
      some tags.fresh,
      record {
        list =
            record (new_tag tags label) { sites = record { gw = gw; tag_id = tag_id } ∷ [] }
            ∷ tags.list;
        fresh = tags.fresh + 1;
      },
    )
unfolding add_site find_site set_sites
incref-new tags label gw tag_id e =
    incref-not_found tags label gw tag_id true e ∙ rw (==_refl tags.fresh) refl

decref-only_site :
    (number gw tag_id fresh : ℕ) (label : Label) (l : List Tag)
    → (decref
        (record {
          list =
              record {
                number = number;
                label = label;
                sites = record { gw = gw; tag_id = tag_id } ∷ [];
              }
              ∷ l;
          fresh = fresh;
        })
        number
        gw).list
      ≡ l
unfolding decref tag_at remove_site remove_tag
decref-only_site number gw tag_id fresh label l =
    rw (decref, ==_refl number, remove_site, ==_refl gw)
      (remove_tag_head
        (record {
          number = number;
          label = label;
          sites = record { gw = gw; tag_id = tag_id } ∷ [];
        })
        l)

-- For a label that no tag has, and with memory for both objects, lgtd_lifx_tagging_incref gives a new
-- tag, and lgtd_lifx_tagging_decref of that tag by the same gateway makes the list what it was.
pub decref-incref :
    (tags : Tags) (label : Label) (gw tag_id : ℕ)
    → find_tag tags label ≡ none
    → ((incref tags label gw tag_id true true).0 ≡ some tags.fresh)
      × ((decref (incref tags label gw tag_id true true).1 tags.fresh gw).list ≡ tags.list)
decref-incref tags label gw tag_id e =
    let n = incref-new tags label gw tag_id e in
    (
      ap (λ r. r.0) n,
      ap (λ r. (decref r.1 tags.fresh gw).list) n
          ∙ decref-only_site tags.fresh gw tag_id (tags.fresh + 1) (take 31 label) tags.list,
    )
