-- ===== src/Jsonrpc/Schema/Stored.antt =====
-- What stands in an output struct: each value was checked by the node that it is stored for.
use mathlib.Core.Path.{subst}
use lightsd.Common.{
  ℕ, zero, suc, ◌<◌, ◌+◌, ◌≡◌, ◌⊎◌, refl, sym, ap, ◌∙◌, inl, inr, List, [], ◌∷◌, Any, true, Option,
  none, some, length, get_or, set, Bool-cases, ℕ_discrete, dec_lt, get_or-set_self, get_or-set_ne,
  arith,
}
use lightsd.Common.Bytes.{same_bytes}
use lightsd.Jsonrpc.Tokens.{Token, token_at, is_container}
use lightsd.Jsonrpc.Tokens.Steps.{consume_object_or_array-ends}
use lightsd.Jsonrpc.Schema.{Node, Output, set_value, set_count, match_key, skip_value}

abbrev pub Accepts : List ℕ → List Token → ℕ → ℕ → Node → Type 0
Accepts json tokens slot ti node =
    (node.value_slot ≡ some slot) × (node.type_cmp (token_at tokens ti) json ≡ true)

-- A node of the schema with this slot accepts what stands in the slot.
abbrev pub Justified : List Node → List ℕ → List Token → Output → Type 0
Justified schema json tokens out =
    (slot ti : ℕ) → get_or out.values slot none ≡ some ti → Any (Accepts json tokens slot ti) schema

pub some_inj {ℓ} : {A : Type ℓ} {a b : A} → some a ≡ some b → a ≡ b
some_inj e = cc

pub none-some {ℓ} : {A : Type ℓ} {a : A} → ¬ (none ≡ some a)
none-some e = cc

set_out_of_range :
    (xs : List (Option ℕ)) (i : ℕ) (v : Option ℕ) → ¬ (i < length xs) → set xs i v ≡ xs
set_out_of_range [] i v h = refl
set_out_of_range (x ∷ xs) zero v h = absurd (h (omega arith))
set_out_of_range (x ∷ xs) (suc i) v h = ap (◌∷◌ x) (set_out_of_range xs i v (λ p. h (omega arith)))

set-cases :
    (xs : List (Option ℕ)) (i j v k : ℕ)
    → get_or (set xs i (some v)) j none ≡ some k
    → ((i ≡ j) × (v ≡ k)) ⊎ (get_or xs j none ≡ some k)
set-cases xs i j v k h = elim (ℕ_discrete i j) [
  | no ne ↦ inr (sym (get_or-set_ne xs i j (some v) none ne) ∙ h)
  | yes e ↦ elim (dec_lt i (length xs)) [
    | yes lt ↦ inl (
      e,
      some_inj (
          sym (get_or-set_self xs i (some v) none lt)
          ∙ ap (λ (n : ℕ). get_or (set xs i (some v)) n none) e
          ∙ h),
    )
    | no out ↦ inr (
        ap (λ (l : List (Option ℕ)). get_or l j none) (sym (set_out_of_range xs i (some v) out))
        ∙ h)
  ]
]

pub set_value-Justified :
    (schema : List Node) (json : List ℕ) (tokens : List Token) (out : Output) (o : Option ℕ)
    (ti : ℕ)
    → ((slot : ℕ) → o ≡ some slot → Any (Accepts json tokens slot ti) schema)
    → Justified schema json tokens out
    → Justified schema json tokens (set_value out o ti)
set_value-Justified schema json tokens out none ti new old = old
set_value-Justified schema json tokens out (some s) ti new old = λ slot k h.
    elim (set-cases out.values s slot ti k h) [
      | inl (e, f) ↦ rw (← f) (rw (← e) (new s refl))
      | inr g ↦ old slot k g
    ]

pub set_count-values :
    (out : Output) (o : Option ℕ) (n : ℕ) → (set_count out o n).values ≡ out.values
set_count-values out none n = refl
set_count-values out (some s) n = refl

pub set_count-Justified :
    (schema : List Node) (json : List ℕ) (tokens : List Token) (out : Output) (o : Option ℕ) (n : ℕ)
    → Justified schema json tokens out
    → Justified schema json tokens (set_count out o n)
set_count-Justified schema json tokens out none n h = h
set_count-Justified schema json tokens out (some s) n h = h

pub match_key-Any :
    (P : Node → Type 0) (schema : List Node) (key : List ℕ) (node : Node)
    → match_key schema key ≡ some node
    → P node
    → Any P schema
unfolding match_key
match_key-Any P [] key node h p = cc
match_key-Any P (n ∷ schema) key node h p = elim (Bool-cases (same_bytes n.key key)) [
  | inl e ↦
      let f : match_key (n ∷ schema) key ≡ some n = rw e refl in
      inl (subst P (some_inj (sym h ∙ f)) p)
  | inr e ↦
      let f : match_key (n ∷ schema) key ≡ match_key schema key = rw e refl in
      inr (match_key-Any P schema key node (sym f ∙ h) p)
]

-- A step over a value goes on.
pub skip_value-ends :
    (tokens : List Token) (ti ntokens : ℕ)
    → (next : ℕ) × (skip_value tokens ti ntokens ≡ some next) × (ti < next)
unfolding skip_value
skip_value-ends tokens ti ntokens = elim (Bool-cases (is_container (token_at tokens ti).type)) [
  | inl e ↦
      let (next, f, lt) = consume_object_or_array-ends tokens ti ntokens in
      (next, rw (e, skip_value) f, lt)
  | inr e ↦ (ti + 1, rw (e, skip_value) refl, omega arith)
]
