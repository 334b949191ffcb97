-- ===== src/Jsonrpc/Schema/Dict.antt =====
-- lgtd_jsonrpc_extract_values_from_schema_and_dict: the members of an object, each of them at most once.
use mathlib.Core.Path.{subst}
use lightsd.Common.{
  ℕ, zero, suc, ◌<◌, ◌+◌, ◌-◌, ◌≡◌, refl, sym, ap, ◌∙◌, inl, inr, List, [], ◌∷◌, Bool, true, false,
  not, ◌&&◌, ◌||◌, Option, none, some, get_or, ltb, ◌==◌, Bool-cases, both_true, Option-cases,
  ltb→lt, arith,
}
use lightsd.Jsonrpc.Tokens.{Token, token_at, token_bytes, is_object, is_string}
use lightsd.Jsonrpc.Schema.{
  Node, Output, Extracted, value_in, set_value, set_count, is_some, match_key, store_value,
  count_slot, dict_members, none_missing, require, extract_dict,
}
use lightsd.Jsonrpc.Schema.Stored.{
  Accepts, Justified, some_inj, none-some, set_value-Justified, set_count-Justified, match_key-Any,
  skip_value-ends,
}

-- Each node that is not optional and has a slot has its value.
abbrev pub Supplied : List Node → Output → Type 0
Supplied [] out = Unit {0}
Supplied (node ∷ schema) out =
    (node.optional ≡ false
      → (slot : ℕ) → node.value_slot ≡ some slot
      → (ti : ℕ) × (get_or out.values slot none ≡ some ti))
    × Supplied schema out

is_some-value : (o : Option ℕ) → is_some o ≡ true → (k : ℕ) × (o ≡ some k)
is_some-value none h = cc
is_some-value (some k) h = (k, refl)

none_missing-Supplied :
    (schema : List Node) (out : Output) → none_missing schema out ≡ true → Supplied schema out
unfolding none_missing
none_missing-Supplied [] out h = tt
none_missing-Supplied (node ∷ schema) out h = (
  λ o slot e. is_some-value (get_or out.values slot none) (
      sym (
        ap
          (λ (x : Bool).
            x || (not (is_some node.value_slot) || is_some (value_in out node.value_slot)))
          o
        ∙ ap (λ (v : Option ℕ). not (is_some v) || is_some (value_in out v)) e)
      ∙ (both_true _ _ h).0),
  none_missing-Supplied schema out (both_true _ _ h).1,
)

-- Extraction ends, and a valid result is justified.
abbrev pub Sound : List Node → List ℕ → List Token → Extracted → Type 0
Sound schema json tokens Extracted.exhausted = ⊥
Sound schema json tokens (Extracted.invalid out) = Unit {0}
Sound schema json tokens (Extracted.valid out) = Justified schema json tokens out

module _ (schema : List Node) (json : List ℕ) (tokens : List Token) where
  store_value-Justified :
      (key : List ℕ) (o : Option Node) (ti : ℕ) (out out' : Output)
      → match_key schema key ≡ o
      → Justified schema json tokens out
      → store_value json tokens o ti out ≡ some out'
      → Justified schema json tokens out'
  unfolding store_value
  store_value-Justified key none ti out out' m old h =
      subst (Justified schema json tokens) (some_inj h) old
  store_value-Justified key (some node) ti out out' m old h =
      elim (Bool-cases (node.type_cmp (token_at tokens ti) json)) [
        | inr e ↦ absurd (none-some (sym (rw (e, store_value) refl) ∙ h))
        | inl e ↦ elim (Bool-cases (is_some (value_in out node.value_slot))) [
          | inl f ↦ absurd (none-some (sym (rw (e, f, store_value) refl) ∙ h))
          | inr f ↦
              let g : store_value json tokens (some node) ti out
                  ≡ some (set_value out node.value_slot ti) =
                rw (e, f, store_value) refl in
              subst (Justified schema json tokens) (some_inj (sym g ∙ h)) (
                set_value-Justified schema json tokens out node.value_slot ti
                  (λ slot s. match_key-Any (Accepts json tokens slot ti) schema key node m (s, e))
                  old)
        ]
      ]

  require-Sound :
      (r : Extracted) → Sound schema json tokens r → Sound schema json tokens (require schema r)
  require-Sound Extracted.exhausted h = h
  require-Sound (Extracted.invalid out) h = h
  require-Sound (Extracted.valid out) h = elim (Bool-cases (none_missing schema out)) [
    | inl e ↦ rw e h
    | inr e ↦ rw e tt
  ]

  dict_members-Sound :
      (fuel ntokens ti : ℕ) (out : Output)
      → 0 < fuel
      → ntokens < ti + fuel
      → Justified schema json tokens out
      → Sound schema json tokens (dict_members fuel schema json tokens ntokens ti out)
  unfolding dict_members
  dict_members-Sound zero ntokens ti out p h old = absurd (omega arith)
  dict_members-Sound (suc fuel) ntokens ti out p h old =
      elim (Bool-cases (ltb ti ntokens && is_string (token_at tokens ti).type)) [
        | inr e ↦ rw (e, dict_members) old
        | inl e ↦
            let node : Option Node = match_key schema (token_bytes json (token_at tokens ti)) in
            elim (Option-cases (store_value json tokens node (ti + 1) out)) [
              | inl f ↦ rw (e, f, dict_members) tt
              | inr (out', f) ↦
                  let (next, g, lt) = skip_value-ends tokens (ti + 1) ntokens in
                  let inside : ti < ntokens = ltb→lt ti ntokens (both_true _ _ e).0 in
                  rw (e, f, g, dict_members)
                    (dict_members-Sound fuel ntokens next
                      (set_count out' (count_slot node) (next - (ti + 1))) (omega arith)
                      (omega arith)
                      (set_count-Justified schema json tokens out' (count_slot node)
                        (next - (ti + 1))
                        (store_value-Justified (token_bytes json (token_at tokens ti)) node (ti + 1)
                          out out' refl old f)))
            ]
      ]

  -- With the fuel that is given, extraction from an object ends; when it is valid, what stands in each
  -- slot of the output, if that was so before, was accepted by a node of the schema that has this slot.
  pub extract_dict-Sound :
      (ntokens : ℕ) (out : Output)
      → Justified schema json tokens out
      → Sound schema json tokens (extract_dict schema json tokens ntokens out)
  unfolding extract_dict
  extract_dict-Sound ntokens out old =
      elim (Bool-cases ((ntokens == 0) || not (is_object (token_at tokens 0).type))) [
        | inl e ↦ rw (e, extract_dict) tt
        | inr e ↦
            rw (e, extract_dict)
              (require-Sound (dict_members (ntokens + 1) schema json tokens ntokens 1 out)
                (dict_members-Sound (ntokens + 1) ntokens 1 out (omega arith) (omega arith) old))
      ]

  require-valid :
      (r : Extracted) (out' : Output)
      → require schema r ≡ Extracted.valid out'
      → none_missing schema out' ≡ true
  require-valid Extracted.exhausted out' h = cc
  require-valid (Extracted.invalid out) out' h = cc
  require-valid (Extracted.valid out) out' h = elim (Bool-cases (none_missing schema out)) [
    | inl e ↦
        let f : require schema (Extracted.valid out) ≡ Extracted.valid out = rw e refl in
        let g : Extracted.valid out ≡ Extracted.valid out' = sym f ∙ h in
        let k : out ≡ out' = cc in subst (λ (o : Output). none_missing schema o ≡ true) k e
    | inr e ↦
        let f : require schema (Extracted.valid out) ≡ Extracted.invalid out = rw e refl in
        let g : Extracted.invalid out ≡ Extracted.valid out' = sym f ∙ h in cc
  ]

  -- When extraction from an object is valid, each node of the schema that is not optional and has a slot
  -- has a value in it.
  pub extract_dict-Supplied :
      (ntokens : ℕ) (out out' : Output)
      → extract_dict schema json tokens ntokens out ≡ Extracted.valid out'
      → Supplied schema out'
  unfolding extract_dict
  extract_dict-Supplied ntokens out out' h =
      elim (Bool-cases ((ntokens == 0) || not (is_object (token_at tokens 0).type))) [
        | inl e ↦
            let f : extract_dict schema json tokens ntokens out ≡ Extracted.invalid out =
              rw (e, extract_dict) refl in
            let g : Extracted.invalid out ≡ Extracted.valid out' = sym f ∙ h in cc
        | inr e ↦
            let r : Extracted = dict_members (ntokens + 1) schema json tokens ntokens 1 out in
            let f : extract_dict schema json tokens ntokens out ≡ require schema r =
              rw (e, extract_dict) refl in
            none_missing-Supplied schema out' (require-valid r out' (sym f ∙ h))
      ]
