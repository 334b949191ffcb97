-- ===== src/Examples/Tagging.antt =====
-- The theorems about the global list of tags, on a list with one tag.
use lightsd.Common.{◌≡◌, refl, [], ◌∷◌, true, false, none, some}
use lightsd.Common.Bytes.{same_bytes}
use lightsd.Tagging.Labels.{Label}
use lightsd.Tagging.{Tags, find_tag_in, find_tag, find_site, allocate_tag, add_site, incref, decref}
use lightsd.Tagging.Store.{decref-incref}
use lightsd.Tagging.Counting.{AllInUse, incref-AllInUse, decref-AllInUse}

abbrev kitchen : Label
kitchen = 107 ∷ 105 ∷ []

abbrev attic : Label
attic = 97 ∷ 116 ∷ []

abbrev one_tag : Tags
one_tag = record {
  list = record { number = 1; label = kitchen; sites = record { gw = 100; tag_id = 0 } ∷ [] } ∷ [];
  fresh = 2;
}

one_tag-AllInUse : AllInUse one_tag
one_tag-AllInUse = ((λ e. cc), tt)

attic-new : find_tag one_tag attic ≡ none
unfolding find_tag_in same_bytes
attic-new = refl

out_of_memory : (incref one_tag attic 100 1 true false).0 ≡ none
unfolding incref allocate_tag add_site find_tag_in find_site same_bytes
out_of_memory = refl

decref-incref_example :
    ((incref one_tag attic 100 1 true true).0 ≡ some 2)
    × ((decref (incref one_tag attic 100 1 true true).1 2 100).list ≡ one_tag.list)
decref-incref_example = decref-incref one_tag attic 100 1 attic-new

incref-AllInUse_example : AllInUse (incref one_tag attic 100 1 true false).1
incref-AllInUse_example = incref-AllInUse one_tag attic 100 1 true false one_tag-AllInUse

decref-AllInUse_example : AllInUse (decref one_tag 1 100)
decref-AllInUse_example = decref-AllInUse one_tag 1 100 one_tag-AllInUse
