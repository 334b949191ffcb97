-- ===== src/Jsonrpc/Schema/Array.antt =====
-- lgtd_jsonrpc_extract_values_from_schema_and_array: the elements of an array, in the order of the nodes.
use lightsd.Common.{ℕ, ◌-◌, inl, inr, List, [], ◌∷◌, not, ◌||◌, Any, ltb, ◌==◌, Bool-cases}
use lightsd.Jsonrpc.Tokens.{Token, TokenType, token_at, is_array}
use lightsd.Jsonrpc.Schema.{
  Node, Output, set_value, set_count, array_elements, extract_array, all_optional, extract_typed,
  extract_params,
}
use lightsd.Jsonrpc.Schema.Stored.{
  Accepts, Justified, set_value-Justified, set_count-Justified, skip_value-ends,
}
use lightsd.Jsonrpc.Schema.Dict.{Sound, extract_dict-Sound}

-- The nodes `schema` are those of the whole schema that are left.
module _ (all : List Node) (json : List ℕ) (tokens : List Token) (ntokens : ℕ) where
  array_elements-Sound :
      (schema : List Node) (ti objsize : ℕ) (out : Output)
      → ((P : Node → Type 0) → Any P schema → Any P all)
      → Justified all json tokens out
      → Sound all json tokens (array_elements schema json tokens ntokens ti objsize out)
  unfolding array_elements
  array_elements-Sound [] ti objsize out sub old = elim (Bool-cases (objsize == 0)) [
    | inl e ↦ rw (e, array_elements) old
    | inr e ↦ rw (e, array_elements) tt
  ]
  array_elements-Sound (node ∷ schema) ti objsize out sub old = elim (Bool-cases (ltb ti ntokens)) [
    | inr e ↦ elim (Bool-cases ((objsize == 0) || node.optional)) [
      | inl f ↦ rw (e, f, array_elements) old
      | inr f ↦ rw (e, f, array_elements) tt
    ]
    | inl e ↦ elim (Bool-cases (objsize == 0)) [
      | inl f ↦ elim (Bool-cases node.optional) [
        | inl g ↦ rw (e, f, g, array_elements) old
        | inr g ↦ rw (e, f, g, array_elements) tt
      ]
      | inr f ↦ elim (Bool-cases (node.type_cmp (token_at tokens ti) json)) [
        | inr g ↦ rw (e, f, g, array_elements) tt
        | inl g ↦
            let (next, k, lt) = skip_value-ends tokens ti ntokens in
            rw (e, f, g, k, array_elements)
              (array_elements-Sound schema next (objsize - 1)
                (set_count (set_value out node.value_slot ti) node.ntokens_slot (next - ti))
                (λ P h. sub P (inr h))
                (set_count-Justified all json tokens (set_value out node.value_slot ti)
                  node.ntokens_slot (next - ti)
                  (set_value-Justified all json tokens out node.value_slot ti
                    (λ slot s. sub (Accepts json tokens slot ti) (inl (s, g))) old)))
      ]
    ]
  ]

  -- Extraction from an array ends; when it is valid, what stands in each slot of the output, if that was
  -- so before, was accepted by a node of the schema that has this slot.
  pub extract_array-Sound :
      (out : Output)
      → Justified all json tokens out
      → Sound all json tokens (extract_array all json tokens ntokens out)
  unfolding extract_array
  extract_array-Sound out old =
      elim (Bool-cases ((ntokens == 0) || not (is_array (token_at tokens 0).type))) [
        | inl e ↦ rw (e, extract_array) tt
        | inr e ↦
            rw (e, extract_array)
              (array_elements-Sound all 1 (token_at tokens 0).size out (λ P h. h) old)
      ]

  -- Extraction of parameters ends, whatever the parameters are: none, an object, an array or another
  -- value; when it is valid, what stands in each slot of the output, if that was so before, was accepted
  -- by a node of the schema that has this slot.
  pub extract_params-Sound :
      (out : Output)
      → Justified all json tokens out
      → Sound all json tokens (extract_params all json tokens ntokens out)
  unfolding extract_params
  extract_params-Sound out old = elim (Bool-cases (ntokens == 0)) [
    | inl e ↦ elim (Bool-cases (all_optional all)) [
      | inl f ↦ rw (e, f, extract_params) old
      | inr f ↦ rw (e, f, extract_params) tt
    ]
    | inr e ↦ rw (e, extract_params) (by_type (token_at tokens 0).type)
  ]
    where
      by_type :
          (type : TokenType)
          → Sound all json tokens (extract_typed all json tokens ntokens out type)
      by_type TokenType.object = extract_dict-Sound all json tokens ntokens out old
      by_type TokenType.array = extract_array-Sound out old
      by_type _ = tt
