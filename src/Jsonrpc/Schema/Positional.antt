-- ===== src/Jsonrpc/Schema/Positional.antt =====
-- Parameters given by position, fewer than lgtd_jsonrpc_extract_values_from_schema_and_array has nodes.
use mathlib.Core.List.{◌++◌}
use lightsd.Common.{
  ℕ, suc, ◌+◌, ◌-◌, ◌≡◌, ◌≢◌, refl, sym, ap, ◌∙◌, List, [], ◌∷◌, true, false, Option, none, some,
  length, get_or, ltb, ◌==◌, get_or-set_ne, arith,
}
use lightsd.Jsonrpc.Tokens.{Token, TokenType, token_at, is_container}
use lightsd.Jsonrpc.Schema.{
  Node, Output, Extracted, value_in, set_value, set_count, skip_value, array_elements,
  extract_array,
}
use lightsd.Jsonrpc.Schema.Stored.{set_count-values}

-- From a token on, a scalar that is accepted stands for each node.
abbrev pub Fitting : List ℕ → List Token → List Node → ℕ → Type 0
Fitting json tokens [] ti = Unit {0}
Fitting json tokens (node ∷ schema) ti =
    (is_container (token_at tokens ti).type ≡ false)
    × (node.type_cmp (token_at tokens ti) json ≡ true)
    × Fitting json tokens schema (ti + 1)

-- No node has the slot.
abbrev pub Unused : List Node → ℕ → Type 0
Unused [] slot = Unit {0}
Unused (node ∷ schema) slot = (node.value_slot ≢ some slot) × Unused schema slot

set_value-elsewhere :
    (out : Output) (o : Option ℕ) (ti slot : ℕ)
    → o ≢ some slot
    → value_in (set_value out o ti) (some slot) ≡ value_in out (some slot)
set_value-elsewhere out none ti slot h = refl
set_value-elsewhere out (some s) ti slot h =
    get_or-set_ne out.values s slot (some ti) none (λ e. h (ap some e))

skip_value-scalar :
    (tokens : List Token) (ti ntokens : ℕ)
    → is_container (token_at tokens ti).type ≡ false
    → skip_value tokens ti ntokens ≡ some (ti + 1)
unfolding skip_value
skip_value-scalar tokens ti ntokens e = rw (e, skip_value) refl

-- A round over a scalar that is accepted.
array_elements-scalar :
    (node : Node) (schema : List Node) (json : List ℕ) (tokens : List Token)
    (ntokens ti objsize : ℕ) (out : Output)
    → ltb ti ntokens ≡ true
    → (objsize == 0) ≡ false
    → node.type_cmp (token_at tokens ti) json ≡ true
    → is_container (token_at tokens ti).type ≡ false
    → array_elements (node ∷ schema) json tokens ntokens ti objsize out
      ≡ array_elements schema json tokens ntokens
          (ti + 1)
          (objsize - 1)
          (set_count (set_value out node.value_slot ti) node.ntokens_slot ((ti + 1) - ti))
unfolding array_elements
array_elements-scalar node schema json tokens ntokens ti objsize out e f ok scalar =
    rw (e, f, ok, skip_value-scalar tokens ti ntokens scalar, array_elements) refl

module _ (json : List ℕ) (tokens : List Token) (missing : Node) (slot : ℕ) (after : List Node) where
  array_elements-too_few :
      (before : List Node) (ti : ℕ) (out : Output)
      → Fitting json tokens before ti
      → Unused before slot
      → (out' : Output) × (array_elements
            (before ++ (missing ∷ after))
            json
            tokens
            (ti + length before)
            ti
            (length before)
            out
          ≡ Extracted.valid out')
        × (value_in out' (some slot) ≡ value_in out (some slot))
  unfolding array_elements
  array_elements-too_few [] ti out fit free =
      let e : ltb ti (ti + 0) ≡ false = ground arith in (out, rw (e, array_elements) refl, refl)
  array_elements-too_few (node ∷ before) ti out (scalar, ok, fit) (ne, free) =
      let schema : List Node = before ++ (missing ∷ after) in
      let n : ℕ = suc (length before) in
      let stored : Output =
        set_count (set_value out node.value_slot ti) node.ntokens_slot ((ti + 1) - ti) in
      let (out', g, same) = array_elements-too_few before (ti + 1) stored fit free in
      let one : array_elements (node ∷ schema) json tokens (ti + n) ti n out
          ≡ array_elements schema json tokens (ti + n) (ti + 1) (n - 1) stored =
        array_elements-scalar node schema json tokens (ti + n) ti n out (ground arith)
          (ground arith) ok scalar in
      let last : ti + n ≡ (ti + 1) + length before = omega arith in
      let left : n - 1 ≡ length before = omega arith in
      (
        out',
        one
            ∙ ap (λ (m : ℕ). array_elements schema json tokens m (ti + 1) (n - 1) stored) last
            ∙ ap
                (λ (m : ℕ).
                  array_elements schema json tokens ((ti + 1) + length before) (ti + 1) m stored)
                left
            ∙ g,
        same
            ∙ ap (λ (v : List (Option ℕ)). get_or v slot none)
                (set_count-values (set_value out node.value_slot ti) node.ntokens_slot
                  ((ti + 1) - ti))
            ∙ set_value-elsewhere out node.value_slot ti slot ne,
      )

  -- An array that has no element for a node and all after it is taken as valid, also when the node is not
  -- optional: when its elements are scalars that the nodes before accept, in number those nodes, and none
  -- of these has the slot of the missing node, then the extraction is valid and leaves this slot as it was.
  pub extract_array-too_few :
      (before : List Node) (out : Output)
      → (token_at tokens 0).type ≡ TokenType.array
      → (token_at tokens 0).size ≡ length before
      → missing.value_slot ≡ some slot
      → Fitting json tokens before 1
      → Unused before slot
      → (out' : Output) × (extract_array
            (before ++ (missing ∷ after))
            json
            tokens
            (1 + length before)
            out
          ≡ Extracted.valid out')
        × (value_in out' missing.value_slot ≡ value_in out missing.value_slot)
  unfolding extract_array
  extract_array-too_few before out t size s fit free =
      let (out', g, same) = array_elements-too_few before 1 out fit free in
      let nz : ((1 + length before) == 0) ≡ false = ground arith in
      (
        out',
        rw (t, size, nz, extract_array) g,
        ap (λ (o : Option ℕ). value_in out' o) s
            ∙ same
            ∙ ap (λ (o : Option ℕ). value_in out o) (sym s),
      )
