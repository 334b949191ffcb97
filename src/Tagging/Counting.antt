-- ===== src/Tagging/Counting.antt =====
-- The global list of tags, and that a tag of it has sites.
use lightsd.Common.{
  ℕ, ◌≡◌, ◌≢◌, ◌⊎◌, refl, List, [], ◌∷◌, Bool, true, false, none, Option-cases, inl, inr, ◌==◌,
  ==_refl, All, Bool-cases,
}
use lightsd.Tagging.Labels.{Label}
use lightsd.Tagging.{
  Site, Tag, Tags, find_site, find_tag, new_tag, remove_tag, set_sites, add_site, incref,
  remove_site, tag_at, decref,
}
use lightsd.Tagging.Store.{incref-found, incref-not_found, incref-no_memory, with_new_tag}

abbrev pub HasSite : Tag → Type 0
HasSite t = t.sites ≢ []

-- Every tag has a site.
abbrev pub AllInUse : Tags → Type 0
AllInUse tags = All HasSite tags.list

remove_tag-AllInUse :
    (l : List Tag) (number : ℕ) → All HasSite l → All HasSite (remove_tag l number)
unfolding remove_tag
remove_tag-AllInUse [] number h = h
remove_tag-AllInUse (t ∷ ts) number (p, q) = elim (Bool-cases (t.number == number)) [
  | inl e ↦ rw e q
  | inr e ↦ rw e (p, remove_tag-AllInUse ts number q)
]

set_sites-AllInUse :
    (l : List Tag) (number : ℕ) (sites : List Site)
    → sites ≢ []
    → All HasSite l
    → All HasSite (set_sites l number sites)
unfolding set_sites
set_sites-AllInUse [] number sites ne h = h
set_sites-AllInUse (t ∷ ts) number sites ne (p, q) = elim (Bool-cases (t.number == number)) [
  | inl e ↦ rw e (ne, q)
  | inr e ↦ rw e (p, set_sites-AllInUse ts number sites ne q)
]

cons_ne {ℓ} : {A : Type ℓ} (a : A) (l : List A) → a ∷ l ≢ []
cons_ne a l e = cc

add_site-AllInUse :
    (tags : Tags) (tag : Tag) (gw tag_id : ℕ) (memory : Bool)
    → AllInUse tags
    → AllInUse (add_site tags tag false gw tag_id memory).1
unfolding add_site
add_site-AllInUse tags tag gw tag_id memory h = elim (Option-cases (find_site tag.sites gw)) [
  | inr (s, e) ↦ rw (e, add_site) h
  | inl e ↦ go memory e
]
  where
    go :
        (m : Bool)
        → find_site tag.sites gw ≡ none
        → AllInUse (add_site tags tag false gw tag_id m).1
    go true e =
        rw (e, add_site)
          (set_sites-AllInUse tags.list tag.number (record { gw = gw; tag_id = tag_id } ∷ tag.sites)
            (cons_ne _ _) h)
    go false e = rw (e, add_site) h

add_new_site-AllInUse :
    (tags : Tags) (label : Label) (gw tag_id : ℕ) (memory : Bool)
    → AllInUse tags
    → AllInUse (add_site (with_new_tag tags label) (new_tag tags label) true gw tag_id memory).1
unfolding add_site find_site set_sites remove_tag
add_new_site-AllInUse tags label gw tag_id true h = rw (==_refl tags.fresh) (cons_ne _ _, h)
add_new_site-AllInUse tags label gw tag_id false h = rw (==_refl tags.fresh) h

-- If every tag has a site, then every tag has one after lgtd_lifx_tagging_incref, whether its two
-- allocations succeed or not.
pub incref-AllInUse :
    (tags : Tags) (label : Label) (gw tag_id : ℕ) (tag_memory site_memory : Bool)
    → AllInUse tags
    → AllInUse (incref tags label gw tag_id tag_memory site_memory).1
incref-AllInUse tags label gw tag_id tm sm h = elim (Option-cases (find_tag tags label)) [
  | inr (tag, e) ↦
      rw (incref-found tags label gw tag_id tm sm tag e) (add_site-AllInUse tags tag gw tag_id sm h)
  | inl e ↦ elim tm as (λ m. AllInUse (incref tags label gw tag_id m sm).1) [
    | true ↦
        rw (incref-not_found tags label gw tag_id sm e)
          (add_new_site-AllInUse tags label gw tag_id sm h)
    | false ↦ rw (incref-no_memory tags label gw tag_id sm e) h
  ]
]

list-cases {ℓ} :
    {A : Type ℓ} (l : List A) → (l ≡ []) ⊎ ((a : A) × ((as' : List A) × (l ≡ (a ∷ as'))))
list-cases [] = inl refl
list-cases (a ∷ l) = inr (a, (l, refl))

-- If every tag has a site, then every tag has one after lgtd_lifx_tagging_decref.
pub decref-AllInUse :
    (tags : Tags) (number gw : ℕ) → AllInUse tags → AllInUse (decref tags number gw)
unfolding decref
decref-AllInUse tags number gw h = elim (Option-cases (tag_at tags.list number)) [
  | inl e ↦ rw (e, decref) h
  | inr (tag, e) ↦ elim (list-cases (remove_site tag.sites gw)) [
    | inl f ↦ rw (e, decref, f) (remove_tag-AllInUse tags.list number h)
    | inr (s, (sites, f)) ↦
        rw (e, decref, f) (set_sites-AllInUse tags.list number (s ∷ sites) (cons_ne s sites) h)
  ]
]
