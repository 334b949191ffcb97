-- ===== src/Wire/PacketTable/Find.antt =====
-- The lookup in the tree of packet infos against the rows of the table.
use lightsd.Common.{
  ℕ, ◌≡◌, refl, sym, ◌∙◌, List, [], ◌∷◌, ◌++◌, Bool, true, false, not, ◌&&◌, Option, none, some,
  ◌==◌, ==_refl, if◌then◌else◌, arith,
}
use lightsd.Wire.PacketInfo.{PacketInfo}
use lightsd.Wire.PacketTable.{
  packet_table, or_else, PacketInfoMap, insert_all, load_packet_info_map, get_packet_info,
}

-- The first row of that type.
abbrev pub row_of : ℕ → List PacketInfo → Option PacketInfo
row_of t [] = none
row_of t (p ∷ ps) = if p.type == t then some p else row_of t ps

or_else-none : (o : Option PacketInfo) → or_else o none ≡ o
or_else-none none = refl
or_else-none (some p) = refl

or_else_if :
    (o r : Option PacketInfo) (p : PacketInfo) (b : Bool)
    → or_else (or_else o (if b then some p else none)) r ≡ or_else o (if b then some p else r)
or_else_if (some q) r p b = refl
or_else_if none r p true = refl
or_else_if none r p false = refl

module _ (M : PacketInfoMap) where
  open M use {Map, empty, find, find-empty, find-insert}

  find-insert_all :
      (t : ℕ) (m : Map) (ps : List PacketInfo)
      → find t (insert_all M m ps) ≡ or_else (find t m) (row_of t ps)
  unfolding insert_all
  find-insert_all t m [] = sym (or_else-none (find t m))
  find-insert_all t m (p ∷ ps) =
      find-insert_all t (M.insert p m) ps
      ∙ rw (find-insert t p m) (or_else_if (find t m) (row_of t ps) p (p.type == t))

  -- A lookup in the tree gives the first row of the table with that type, and nothing for a type that
  -- is not in the table.
  pub get_packet_info-row_of : (t : ℕ) → get_packet_info M t ≡ row_of t packet_table
  unfolding get_packet_info load_packet_info_map
  get_packet_info-row_of t = find-insert_all t empty packet_table ∙ rw (find-empty t) refl

abbrev absent : ℕ → List PacketInfo → Bool
absent t [] = true
absent t (p ∷ ps) = not (p.type == t) && absent t ps

abbrev distinct : List PacketInfo → Bool
distinct [] = true
distinct (p ∷ ps) = absent p.type ps && distinct ps

packet_table-distinct : distinct packet_table ≡ true
unfolding packet_table
packet_table-distinct = refl

absent-ne :
    (t : ℕ) (p : PacketInfo) (xs ys : List PacketInfo)
    → absent t (xs ++ (p ∷ ys)) ≡ true
    → (p.type == t) ≡ false
absent-ne t p [] ys h = ground arith
absent-ne t p (x ∷ xs) ys h = ground (arith, absent-ne t p xs ys)

row_of-distinct :
    (p : PacketInfo) (xs ys : List PacketInfo)
    → distinct (xs ++ (p ∷ ys)) ≡ true
    → row_of p.type (xs ++ (p ∷ ys)) ≡ some p
row_of-distinct p [] ys h = rw (==_refl p.type)
row_of-distinct p (x ∷ xs) ys h = ground (arith, absent-ne x.type p xs ys, row_of-distinct p xs ys)

-- Every row of the table is found under its type: no insertion is lost to a row of the same type.
get_packet_info_row :
    (M : PacketInfoMap) (p : PacketInfo) (xs ys : List PacketInfo)
    → packet_table ≡ xs ++ (p ∷ ys)
    → get_packet_info M p.type ≡ some p
get_packet_info_row M p xs ys e =
    get_packet_info-row_of M p.type
    ∙ rw e (row_of-distinct p xs ys (rw (← e) packet_table-distinct))

-- The rows themselves as the tree: an insertion at the end, and the first match.
pub row_of-append :
    (t : ℕ) (p : PacketInfo) (m : List PacketInfo)
    → row_of t (m ++ (p ∷ [])) ≡ or_else (row_of t m) (if p.type == t then some p else none)
row_of-append t p [] = refl
row_of-append t p (q ∷ m) = ground (arith, row_of-append t p m)

abbrev pub row_list : PacketInfoMap
row_list = record {
  Map = List PacketInfo;
  empty = [];
  insert = λ p m. m ++ (p ∷ []);
  find = row_of;
  find-empty = λ t. refl;
  find-insert = row_of-append;
}
