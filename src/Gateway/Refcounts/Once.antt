-- ===== src/Gateway/Refcounts/Once.antt =====
-- Loops over the tag ids of a word, counter by counter.
use lightsd.Common.{
  ℕ, zero, suc, ◌+◌, ◌<◌, ◌≤◌, ◌≡◌, ◌≢◌, refl, ◌∙◌, List, [], ◌∷◌, ◌==◌, if◌then◌else◌, arith,
  get_or, length, inl, inr, Bool-cases, ℕ_discrete,
}
use lightsd.Common.Bits.{bit}
use lightsd.Wire.TagIds.{u64_mod, foreach_tag_id}
use lightsd.Wire.TagIds.Visit.{set_bits_from, foreach_tag_id-set_bits}
use lightsd.Gateway.State.{Gateway}
use lightsd.Gateway.Refcounts.{for_each}

abbrev pub count : Gateway → ℕ → ℕ
count gw i = get_or gw.tag_refcounts i 0

abbrev pub HasCounters : Gateway → Type 0
HasCounters gw = length gw.tag_refcounts ≡ 64

-- A body that applies `f` to the counter of its id.
pub record Counts (body : Gateway → ℕ → Gateway) (f : ℕ → ℕ) : Type 0 where
  pub keeps : (gw : Gateway) (k : ℕ) → HasCounters gw → HasCounters (body gw k)
  pub self : (gw : Gateway) (k : ℕ) → k < 64 → HasCounters gw → count (body gw k) k ≡ f (count gw k)
  pub other : (gw : Gateway) (k i : ℕ) → k ≢ i → count (body gw k) i ≡ count gw i

module _ (body : Gateway → ℕ → Gateway) (f : ℕ → ℕ) (c : Counts body f) where
  for_each-keeps :
      (ids : List ℕ) (gw : Gateway) → HasCounters gw → HasCounters (for_each body gw ids)
  unfolding for_each
  for_each-keeps [] gw h = h
  for_each-keeps (k ∷ ids) gw h = for_each-keeps ids (body gw k) (c.keeps gw k h)

  below :
      (n s tags i : ℕ) (gw : Gateway)
      → i < s
      → count (for_each body gw (set_bits_from n s tags)) i ≡ count gw i
  unfolding for_each
  below zero s tags i gw lt = refl
  below (suc n) s tags i gw lt = elim (Bool-cases (bit tags s == 1)) [
    | inl e ↦ rw e (below n (suc s) tags i (body gw s) (omega arith) ∙ c.other gw s i (omega arith))
    | inr e ↦ rw e (below n (suc s) tags i gw (omega arith))
  ]

  once :
      (n s tags i : ℕ) (gw : Gateway)
      → s ≤ i
      → i < s + n
      → i < 64
      → HasCounters gw
      → count (for_each body gw (set_bits_from n s tags)) i
        ≡ (if bit tags i == 1 then f (count gw i) else count gw i)
  unfolding for_each
  once zero s tags i gw le lt w h = absurd (omega arith)
  once (suc n) s tags i gw le lt w h = elim (ℕ_discrete s i) [
    | yes e ↦ elim (Bool-cases (bit tags s == 1)) [
      | inl b ↦
          rw (← e)
            (rw b (below n (suc s) tags s (body gw s) (omega arith) ∙ c.self gw s (omega arith) h))
      | inr b ↦ rw (← e) (rw b (below n (suc s) tags s gw (omega arith)))
    ]
    | no ne ↦ elim (Bool-cases (bit tags s == 1)) [
      | inl b ↦ rw b (
          once n (suc s) tags i (body gw s) (omega arith) (omega arith) w (c.keeps gw s h)
          ∙ rw (c.other gw s i ne) refl)
      | inr b ↦ rw b (once n (suc s) tags i gw (omega arith) (omega arith) w h)
    ]
  ]

  pub for_each-once :
      (tags i : ℕ) (gw : Gateway)
      → tags < u64_mod
      → i < 64
      → HasCounters gw
      → count (for_each body gw (foreach_tag_id tags)) i
        ≡ (if bit tags i == 1 then f (count gw i) else count gw i)
  for_each-once tags i gw t w h =
      rw (foreach_tag_id-set_bits tags t) (once 64 0 tags i gw (omega arith) (omega arith) w h)

  pub for_each-HasCounters :
      (tags : ℕ) (gw : Gateway)
      → HasCounters gw
      → HasCounters (for_each body gw (foreach_tag_id tags))
  for_each-HasCounters tags gw h = for_each-keeps (foreach_tag_id tags) gw h
