-- ===== src/Jsonrpc/Methods/Nulls.antt =====
-- The parameters that the methods with more parameters than targets read through a pointer that may be NULL.
use lightsd.Common.{
  ℕ, ◌≡◌, ◌⊎◌, refl, inl, inr, List, Any, none, some, Option, Bool-cases, Option-cases, get_or,
  ◌==◌,
}
use lightsd.Jsonrpc.Tokens.{Token}
use lightsd.Wire.Payloads.{waveform_string_id_to_type, waveform_invalid}
use lightsd.Jsonrpc.Schema.{Output}
use lightsd.Jsonrpc.Client.{Client}
use lightsd.Jsonrpc.Methods.Answering.{IsMissing}
use lightsd.Jsonrpc.Methods.Params.{
  Taken, null, refused, taken, param_text, parse_int, is_natural, is_kelvin, is_positive,
}
use lightsd.Jsonrpc.Methods.Light.{
  Hsbk, light_schema, parse_transition, parse_hsbk, WaveformArgs, waveform_schema, parse_waveform,
  parse_waveform_args,
}
use lightsd.Jsonrpc.Methods.Labels.{label_schema, parse_label, with_label}
use lightsd.Jsonrpc.Methods.Saying.{
  ProtoMethod, AlwaysHears, IsSilent, Speaks, first_null, param_text-null, parse_int-taken,
  with_label-AlwaysHears, with_label-IsSilent,
}

taken_not_null : {A : Type 0} {a : A} → taken a ≡ null → ⊥
taken_not_null f = cc

some_label : {a : List ℕ} → taken (some a) ≡ taken none → ⊥
some_label h = cc

module _ (client : Client) (tokens : List Token) (out : Output) where
  parse_transition-taken : ¬ (parse_transition client tokens out ≡ null)
  parse_transition-taken h = elim (Option-cases (get_or out.values 5 none)) [
    | inl e ↦ taken_not_null (rw (e, parse_transition) at h)
    | inr (ti, e) ↦ parse_int-taken is_natural _ (rw (e, parse_transition) at h)
  ]

  text_null :
      (slot : ℕ) → param_text client tokens out slot ≡ null → get_or out.values slot none ≡ none
  text_null slot h = param_text-null client tokens out slot h

  parse_hsbk-null : parse_hsbk client tokens out ≡ null → Any (IsMissing out) light_schema
  unfolding parse_hsbk
  parse_hsbk-null h0 =
      first_null _ _ h0 (λ e. inr (inl (refl, text_null 1 e)))
        (λ h h1.
          first_null _ _ h1 (λ e. inr (inr (inl (refl, text_null 2 e))))
            (λ s h2.
              first_null _ _ h2 (λ e. inr (inr (inr (inl (refl, text_null 3 e)))))
                (λ b h3.
                  first_null _ _ h3 (λ e. inr (inr (inr (inr (inl (refl, text_null 4 e))))))
                    (λ kt h4.
                      first_null (parse_int is_kelvin kt) _ h4
                        (λ e. absurd (parse_int-taken is_kelvin kt e))
                        (λ k h5.
                          first_null (parse_transition client tokens out) _ h5
                            (λ e. absurd (parse_transition-taken e))
                            (λ t h6. absurd (taken_not_null h6)))))))

  parse_waveform-taken : (s : List ℕ) → ¬ (parse_waveform s ≡ null)
  parse_waveform-taken s h = elim (Bool-cases (waveform_string_id_to_type s == waveform_invalid)) [
    | inl e ↦ let f : ◌≡◌ {A = Taken ℕ} refused null = rw (e, parse_waveform) at h in cc
    | inr e ↦
        let f : taken (waveform_string_id_to_type s) ≡ null = rw (e, parse_waveform) at h in cc
  ]

  parse_waveform_args-null :
      parse_waveform_args client tokens out ≡ null → Any (IsMissing out) waveform_schema
  unfolding parse_waveform_args
  parse_waveform_args-null h0 =
      first_null _ _ h0 (λ e. inr (inl (refl, text_null 1 e)))
        (λ wt h1.
          first_null (parse_waveform wt) _ h1 (λ e. absurd (parse_waveform-taken wt e))
            (λ w h2.
              first_null _ _ h2 (λ e. inr (inr (inl (refl, text_null 2 e))))
                (λ h h3.
                  first_null _ _ h3 (λ e. inr (inr (inr (inl (refl, text_null 3 e)))))
                    (λ s h4.
                      first_null _ _ h4 (λ e. inr (inr (inr (inr (inl (refl, text_null 4 e))))))
                        (λ b h5.
                          first_null _ _ h5
                            (λ e. inr (inr (inr (inr (inr (inl (refl, text_null 5 e)))))))
                            (λ kt h6.
                              first_null (parse_int is_kelvin kt) _ h6
                                (λ e. absurd (parse_int-taken is_kelvin kt e))
                                (λ k h7.
                                  first_null _ _ h7
                                    (λ e.
                                      inr (inr (inr (inr (inr (inr (inl (refl, text_null 6 e))))))))
                                    (λ pt h8.
                                      first_null (parse_int is_positive pt) _ h8
                                        (λ e. absurd (parse_int-taken is_positive pt e))
                                        (λ p h9.
                                          first_null _ _ h9
                                            (λ e. inr (
                                              inr (
                                                inr (
                                                  inr (
                                                    inr (inr (inr (inl (refl, text_null 7 e)))))))))
                                            (λ ct h10.
                                              first_null (parse_int is_positive ct) _ h10
                                                (λ e. absurd (parse_int-taken is_positive ct e))
                                                (λ c h11.
                                                  first_null _ _ h11
                                                    (λ e. inr (
                                                      inr (
                                                        inr (
                                                          inr (
                                                            inr (
                                                            inr (
                                                            inr
                                                            (inr (inl (refl, text_null 8 e))))))))))
                                                    (λ r h12.
                                                      absurd (taken_not_null h12)))))))))))))

pub hsbk_Speaks :
    (f : Hsbk → ProtoMethod)
    → ((args : Hsbk) → AlwaysHears (f args))
    → Speaks light_schema parse_hsbk f
hsbk_Speaks f hears = record {
  nulls = parse_hsbk-null;
  hears = λ client tokens out args e. inl (hears args);
}

pub waveform_Speaks :
    (f : WaveformArgs → ProtoMethod)
    → ((args : WaveformArgs) → AlwaysHears (f args))
    → Speaks waveform_schema parse_waveform_args f
waveform_Speaks f hears = record {
  nulls = parse_waveform_args-null;
  hears = λ client tokens out args e. inl (hears args);
}

pub label_Speaks :
    (f : List ℕ → ProtoMethod)
    → ((label : List ℕ) → AlwaysHears (f label))
    → Speaks label_schema parse_label (with_label f)
label_Speaks f hears = record {
  nulls = λ client tokens out e. absurd (taken_not_null e);
  hears = by_label;
}
  where
    by_label :
        (client : Client) (tokens : List Token) (out : Output) (a : Option (List ℕ))
        → parse_label client tokens out ≡ taken a
        → AlwaysHears (with_label f a)
          ⊎ (Any (IsMissing out) label_schema × IsSilent (with_label f a))
    by_label client tokens out (some text) e = inl (with_label-AlwaysHears f hears text)
    by_label client tokens out none e = inr (
      elim (Option-cases (get_or out.values 1 none)) [
        | inl g ↦ inr (inl (refl, g))
        | inr (ti, g) ↦ absurd (let h = rw g at e in some_label h)
      ],
      with_label-IsSilent f,
    )
