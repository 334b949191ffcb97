-- ===== src/Jsonrpc/Tokens/Tree.antt =====
-- The tokens of a JSON value in order, and what lgtd_jsonrpc_consume_object_or_array does on them.
use mathlib.Core.List.{append_assoc}
use lightsd.Common.{
  ℕ, zero, suc, ◌+◌, ◌≤◌, ◌<◌, ◌≡◌, refl, sym, ap, ◌∙◌, List, [], ◌∷◌, ◌++◌, Bool, true, false,
  some, lt→ltb, arith, length, length-append, drop, drop-drop, drop_past, get_or, get_or-drop,
}
use lightsd.Jsonrpc.Tokens.{
  Token, TokenType, no_token, token_at, is_container, value_index, consume_members,
  consume_object_or_array,
}
use lightsd.Jsonrpc.Tokens.Steps.{members_over, members_into}

-- A JSON value with the places of its tokens in the text. `is_text` tells strings from primitives.
mutual
  pub data Value : Type 0 where
    scalar : Bool → ℕ → ℕ → Value
    arr : ℕ → ℕ → Items → Value
    obj : ℕ → ℕ → Fields → Value

  pub data Items : Type 0 where
    nil : Items
    cons : Value → Items → Items

  pub data Fields : Type 0 where
    none_left : Fields
    field : Token → Value → Fields → Fields

abbrev pub scalar_type : Bool → TokenType
scalar_type true = TokenType.string
scalar_type false = TokenType.primitive

unfoldable mutual
  pub items_count : Items → ℕ
  items_count nil = 0
  items_count (cons v items) = suc (items_count items)

unfoldable mutual
  pub fields_count : Fields → ℕ
  fields_count none_left = 0
  fields_count (field k v fields) = suc (fields_count fields)

-- The tokens that jsmn makes: a container, with the number of its members, before what is in it.
unfoldable mutual
  pub flatten : Value → List Token
  flatten (scalar is_text a b) =
      record { type = scalar_type is_text; start = a; end = b; size = 0 } ∷ []
  flatten (arr a b items) =
      record { type = TokenType.array; start = a; end = b; size = items_count items }
      ∷ flatten_items items
  flatten (obj a b fields) =
      record { type = TokenType.object; start = a; end = b; size = fields_count fields }
      ∷ flatten_fields fields

  pub flatten_items : Items → List Token
  flatten_items nil = []
  flatten_items (cons v items) = flatten v ++ flatten_items items

  pub flatten_fields : Fields → List Token
  flatten_fields none_left = []
  flatten_fields (field key v fields) = key ∷ (flatten v ++ flatten_fields fields)

-- These tokens stand at a place.
abbrev pub Stands : List Token → ℕ → List Token → Type 0
Stands tokens ti part = (rest : List Token) × (drop ti tokens ≡ part ++ rest)

token_at-Stands :
    (tokens : List Token) (ti : ℕ) (t : Token) (part : List Token)
    → Stands tokens ti (t ∷ part)
    → token_at tokens ti ≡ t
token_at-Stands tokens ti t part (rest, e) =
    let n : ti ≡ ti + 0 = omega arith in
    ap (token_at tokens) n
    ∙ get_or-drop ti 0 tokens no_token
    ∙ ap (λ (l : List Token). get_or l 0 no_token) e

Stands-tail :
    (tokens : List Token) (ti : ℕ) (t : Token) (part : List Token)
    → Stands tokens ti (t ∷ part)
    → Stands tokens (ti + 1) part
Stands-tail tokens ti t part (rest, e) = (rest, sym (drop-drop ti 1 tokens) ∙ ap (drop 1) e)

Stands-right :
    (tokens : List Token) (ti : ℕ) (xs ys : List Token)
    → Stands tokens ti (xs ++ ys)
    → Stands tokens (ti + length xs) ys
Stands-right tokens ti xs ys (rest, e) = (
  rest,
  sym (drop-drop ti (length xs) tokens)
      ∙ ap (drop (length xs)) (e ∙ append_assoc xs ys rest)
      ∙ ap (λ (n : ℕ). drop n (xs ++ (ys ++ rest))) (omega arith)
      ∙ drop_past (length xs) 0 xs (ys ++ rest) refl,
)

Stands-left :
    (tokens : List Token) (ti : ℕ) (xs ys : List Token)
    → Stands tokens ti (xs ++ ys)
    → Stands tokens ti xs
Stands-left tokens ti xs ys (rest, e) = (ys ++ rest, e ∙ append_assoc xs ys rest)

some_token : (v : Value) → 0 < length (flatten v)
unfolding flatten
some_token (scalar is_text a b) = omega arith
some_token (arr a b items) = omega arith
some_token (obj a b fields) = omega arith

is_container-scalar : (is_text : Bool) → is_container (scalar_type is_text) ≡ false
is_container-scalar true = refl
is_container-scalar false = refl

-- Enough fuel from a place on.
abbrev Fuelled : ℕ → ℕ → ℕ → Type 0
Fuelled fuel ti parsed = parsed + 1 < ti + fuel

mutual
  unfolding flatten items_count fields_count consume_members

  -- One member whose value stands at its place.
  consume_value :
      (v : Value) (fuel : ℕ) (tokens : List Token) (type : TokenType) (objsize ti parsed vi : ℕ)
      → vi ≡ value_index type ti
      → ti ≤ vi
      → Stands tokens vi (flatten v)
      → vi + length (flatten v) ≤ parsed
      → Fuelled (suc fuel) ti parsed
      → consume_members (suc fuel) tokens type (suc objsize) ti parsed
        ≡ consume_members fuel tokens type objsize (vi + length (flatten v)) parsed
  consume_value (scalar is_text a b) fuel tokens type objsize ti parsed vi h ge s le f =
      let t = token_at-Stands tokens vi _ [] s in
      members_over fuel tokens type objsize ti parsed (lt→ltb ti parsed (omega arith)) (
        ap (λ (i : ℕ). is_container (token_at tokens i).type) (sym h)
        ∙ ap (λ (u : Token). is_container u.type) t
        ∙ is_container-scalar is_text)
      ∙ ap (λ (i : ℕ). consume_members fuel tokens type objsize (i + 1) parsed) (sym h)
  consume_value (arr a b items) fuel tokens type objsize ti parsed vi h ge s le f =
      let t = token_at-Stands tokens vi _ (flatten_items items) s in
      members_into fuel tokens type objsize ti parsed (vi + (1 + length (flatten_items items)))
        (lt→ltb ti parsed (omega arith))
        (ap (λ (i : ℕ). is_container (token_at tokens i).type) (sym h)
          ∙ ap (λ (u : Token). is_container u.type) t)
        (ap
            (λ (i : ℕ).
              consume_members fuel tokens (token_at tokens i).type (token_at tokens i).size (i + 1)
                parsed)
            (sym h)
          ∙ ap (λ (u : Token). consume_members fuel tokens u.type u.size (vi + 1) parsed) t
          ∙ consume_items items fuel tokens (vi + 1) parsed
              (Stands-tail tokens vi _ (flatten_items items) s) (omega arith) (omega arith)
              (omega arith)
          ∙ ap some (omega arith))
      ∙ ap (λ (n : ℕ). consume_members fuel tokens type objsize (vi + n) parsed) (omega arith)
  consume_value (obj a b fields) fuel tokens type objsize ti parsed vi h ge s le f =
      let t = token_at-Stands tokens vi _ (flatten_fields fields) s in
      members_into fuel tokens type objsize ti parsed (vi + (1 + length (flatten_fields fields)))
        (lt→ltb ti parsed (omega arith))
        (ap (λ (i : ℕ). is_container (token_at tokens i).type) (sym h)
          ∙ ap (λ (u : Token). is_container u.type) t)
        (ap
            (λ (i : ℕ).
              consume_members fuel tokens (token_at tokens i).type (token_at tokens i).size (i + 1)
                parsed)
            (sym h)
          ∙ ap (λ (u : Token). consume_members fuel tokens u.type u.size (vi + 1) parsed) t
          ∙ consume_fields fields fuel tokens (vi + 1) parsed
              (Stands-tail tokens vi _ (flatten_fields fields) s) (omega arith) (omega arith)
              (omega arith)
          ∙ ap some (omega arith))
      ∙ ap (λ (n : ℕ). consume_members fuel tokens type objsize (vi + n) parsed) (omega arith)

  consume_items :
      (items : Items) (fuel : ℕ) (tokens : List Token) (ti parsed : ℕ)
      → Stands tokens ti (flatten_items items)
      → ti + length (flatten_items items) ≤ parsed
      → Fuelled fuel ti parsed
      → 0 < fuel
      → consume_members fuel tokens TokenType.array (items_count items) ti parsed
        ≡ some (ti + length (flatten_items items))
  consume_items nil zero tokens ti parsed s le f p = absurd (omega arith)
  consume_items nil (suc fuel) tokens ti parsed s le f p = ap some (omega arith)
  consume_items (cons v items) zero tokens ti parsed s le f p = absurd (omega arith)
  consume_items (cons v items) (suc fuel) tokens ti parsed s le f p =
      let n : length (flatten v ++ flatten_items items)
          ≡ length (flatten v) + length (flatten_items items) =
        length-append (flatten v) (flatten_items items) in
      let q : 0 < length (flatten v) = some_token v in
      consume_value v fuel tokens TokenType.array (items_count items) ti parsed ti refl
        (omega arith) (Stands-left tokens ti (flatten v) (flatten_items items) s) (omega arith) f
      ∙ consume_items items fuel tokens (ti + length (flatten v)) parsed
          (Stands-right tokens ti (flatten v) (flatten_items items) s) (omega arith) (omega arith)
          (omega arith)
      ∙ ap some (omega arith)

  consume_fields :
      (fields : Fields) (fuel : ℕ) (tokens : List Token) (ti parsed : ℕ)
      → Stands tokens ti (flatten_fields fields)
      → ti + length (flatten_fields fields) ≤ parsed
      → Fuelled fuel ti parsed
      → 0 < fuel
      → consume_members fuel tokens TokenType.object (fields_count fields) ti parsed
        ≡ some (ti + length (flatten_fields fields))
  consume_fields none_left zero tokens ti parsed s le f p = absurd (omega arith)
  consume_fields none_left (suc fuel) tokens ti parsed s le f p = ap some (omega arith)
  consume_fields (field key v fields) zero tokens ti parsed s le f p = absurd (omega arith)
  consume_fields (field key v fields) (suc fuel) tokens ti parsed s le f p =
      let n : length (flatten v ++ flatten_fields fields)
          ≡ length (flatten v) + length (flatten_fields fields) =
        length-append (flatten v) (flatten_fields fields) in
      let q : 0 < length (flatten v) = some_token v in
      let s' = Stands-tail tokens ti key (flatten v ++ flatten_fields fields) s in
      consume_value v fuel tokens TokenType.object (fields_count fields) ti parsed (ti + 1) refl
        (omega arith) (Stands-left tokens (ti + 1) (flatten v) (flatten_fields fields) s')
        (omega arith) f
      ∙ consume_fields fields fuel tokens (ti + 1 + length (flatten v)) parsed
          (Stands-right tokens (ti + 1) (flatten v) (flatten_fields fields) s') (omega arith)
          (omega arith) (omega arith)
      ∙ ap some (omega arith)

abbrev pub IsContainer : Value → Type 0
IsContainer (scalar is_text a b) = ⊥
IsContainer _ = Unit {0}

-- If the tokens of an array or object stand at a place and were all parsed, then
-- lgtd_jsonrpc_consume_object_or_array gives the place right behind them.
pub consume_object_or_array-flatten :
    (v : Value) (tokens : List Token) (ti parsed : ℕ)
    → IsContainer v
    → Stands tokens ti (flatten v)
    → ti + length (flatten v) ≤ parsed
    → consume_object_or_array tokens ti parsed ≡ some (ti + length (flatten v))
unfolding consume_object_or_array flatten
consume_object_or_array-flatten (scalar is_text a b) tokens ti parsed c s le = absurd c
consume_object_or_array-flatten (arr a b items) tokens ti parsed c s le =
    ap (λ (u : Token). consume_members (parsed + 2) tokens u.type u.size (ti + 1) parsed)
      (token_at-Stands tokens ti _ (flatten_items items) s)
    ∙ consume_items items (parsed + 2) tokens (ti + 1) parsed
        (Stands-tail tokens ti _ (flatten_items items) s) (omega arith) (omega arith) (omega arith)
    ∙ ap some (omega arith)
consume_object_or_array-flatten (obj a b fields) tokens ti parsed c s le =
    ap (λ (u : Token). consume_members (parsed + 2) tokens u.type u.size (ti + 1) parsed)
      (token_at-Stands tokens ti _ (flatten_fields fields) s)
    ∙ consume_fields fields (parsed + 2) tokens (ti + 1) parsed
        (Stands-tail tokens ti _ (flatten_fields fields) s) (omega arith) (omega arith)
        (omega arith)
    ∙ ap some (omega arith)
