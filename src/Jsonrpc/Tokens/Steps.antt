-- ===== src/Jsonrpc/Tokens/Steps.antt =====
-- lgtd_jsonrpc_consume_object_or_array on any tokens, also those of no JSON text.
use lightsd.Common.{
  ℕ, zero, suc, ◌+◌, ◌≤◌, ◌<◌, ◌≡◌, refl, ◌∙◌, List, true, false, Option, some, ltb, arith,
  Bool-cases, inl, inr, ltb→lt,
}
use lightsd.Jsonrpc.Tokens.{
  Token, TokenType, token_at, is_container, value_index, consume_members, consume_object_or_array,
}

pub value_index-ge : (type : TokenType) (ti : ℕ) → ti ≤ value_index type ti
value_index-ge TokenType.undefined ti = omega arith
value_index-ge TokenType.object ti = omega arith
value_index-ge TokenType.array ti = omega arith
value_index-ge TokenType.string ti = omega arith
value_index-ge TokenType.primitive ti = omega arith

-- The ways that a round can go.
module _ (fuel : ℕ) (tokens : List Token) (type : TokenType) (objsize ti parsed : ℕ) where
  pub members_end :
      ltb ti parsed ≡ false
      → consume_members (suc fuel) tokens type (suc objsize) ti parsed ≡ some ti
  unfolding consume_members
  members_end e = rw (e, consume_members) refl

  pub members_over :
      ltb ti parsed ≡ true
      → is_container (token_at tokens (value_index type ti)).type ≡ false
      → consume_members (suc fuel) tokens type (suc objsize) ti parsed
        ≡ consume_members fuel tokens type objsize (value_index type ti + 1) parsed
  unfolding consume_members
  members_over e f = rw (e, consume_members, f) refl

  pub members_into :
      (next : ℕ)
      → ltb ti parsed ≡ true
      → is_container (token_at tokens (value_index type ti)).type ≡ true
      → consume_members fuel tokens
          (token_at tokens (value_index type ti)).type
          (token_at tokens (value_index type ti)).size
          (value_index type ti + 1)
          parsed
        ≡ some next
      → consume_members (suc fuel) tokens type (suc objsize) ti parsed
        ≡ consume_members fuel tokens type objsize next parsed
  unfolding consume_members
  members_into next e f g = rw (e, consume_members, f, g) refl

-- A result at or after a place.
abbrev Reaches : Option ℕ → ℕ → Type 0
Reaches r ti = (next : ℕ) × (r ≡ some next) × (ti ≤ next)

consume_members-Reaches :
    (fuel : ℕ) (tokens : List Token) (type : TokenType) (objsize ti parsed : ℕ)
    → 0 < fuel
    → parsed + 1 < ti + fuel
    → Reaches (consume_members fuel tokens type objsize ti parsed) ti
unfolding consume_members
consume_members-Reaches zero tokens type objsize ti parsed p h = absurd (omega arith)
consume_members-Reaches (suc fuel) tokens type zero ti parsed p h = (ti, refl, omega arith)
consume_members-Reaches (suc fuel) tokens type (suc objsize) ti parsed p h =
    elim (Bool-cases (ltb ti parsed)) [
      | inl e ↦
          let vi : ℕ = value_index type ti in
          let more : ti ≤ vi = value_index-ge type ti in
          let inside : ti < parsed = ltb→lt ti parsed e in
          elim (Bool-cases (is_container (token_at tokens vi).type)) [
            | inl f ↦
                let (next, g, le) =
                  consume_members-Reaches fuel tokens (token_at tokens vi).type
                    (token_at tokens vi).size (vi + 1) parsed (omega arith) (omega arith) in
                let (last, g', le') =
                  consume_members-Reaches fuel tokens type objsize next parsed (omega arith)
                    (omega arith) in
                (last, members_into fuel tokens type objsize ti parsed next e f g ∙ g', omega arith)
            | inr f ↦
                let (last, g', le') =
                  consume_members-Reaches fuel tokens type objsize (vi + 1) parsed (omega arith)
                    (omega arith) in
                (last, members_over fuel tokens type objsize ti parsed e f ∙ g', omega arith)
          ]
      | inr e ↦ (ti, members_end fuel tokens type objsize ti parsed e, omega arith)
    ]

-- On any tokens, those of a malformed text included, lgtd_jsonrpc_consume_object_or_array ends, behind
-- the token that it is called at.
pub consume_object_or_array-ends :
    (tokens : List Token) (ti parsed : ℕ)
    → (next : ℕ) × (consume_object_or_array tokens ti parsed ≡ some next) × (ti < next)
unfolding consume_object_or_array
consume_object_or_array-ends tokens ti parsed =
    let (next, e, le) =
      consume_members-Reaches (parsed + 2) tokens (token_at tokens ti).type
        (token_at tokens ti).size (ti + 1) parsed (omega arith) (omega arith) in
    (next, e, omega arith)
