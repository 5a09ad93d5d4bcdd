-- ===== src/Scenarios/Codecs.antt =====
-- A codec of two records, for the concrete inputs.
use Prim.Native.String.{len}
use pulse_agent.Prelude.{
  ◌≤◌, String, ◌≡◌, sym, ap, ◌∙◌, arith, ◌⊎◌, inl, inr, Option, some, ◌==◌, if◌then◌else◌,
}
use pulse_agent.Prelude.Result.{Result, ok, err, invalid_contract}
use pulse_agent.Recovery.Types.{Codec}

unfoldable pub marshal_either : {A B : Type 0} → Dec A → Dec B → Result String
marshal_either (yes a) d = ok "one"
marshal_either (no n) (yes b) = ok "two"
marshal_either (no n) (no m) = err invalid_contract

marshal_either-ok :
    {A B : Type 0} (c : Dec A) (d : Dec B) (s : String)
    → marshal_either c d ≡ ok s
    → (A × ("one" ≡ s)) ⊎ (B × ("two" ≡ s))
unfolding marshal_either
marshal_either-ok (yes a) d s h = inl (a, cc h)
marshal_either-ok (no n) (yes b) s h = inr (b, cc h)
marshal_either-ok (no n) (no m) s h = absurd (cc h)

module _ {A : Type 0} (same : Discrete A) (a b : A) where
  unfoldable pub marshal_two : A → Result String
  unfolding marshal_either
  marshal_two r = marshal_either (same r a) (same r b)

  unfoldable pub decode_two : String → Option A
  decode_two s = if s == "one" then some a else some b

  pub decode-marshal_two :
      (r : A) (d : String) → marshal_two r ≡ ok d → len d ≤ 65536 → decode_two d ≡ some r
  unfolding marshal_two decode_two
  decode-marshal_two r d h fits = elim (marshal_either-ok (same r a) (same r b) d h) [
    | inl (e, t) ↦ rw (← t) (ap some (sym e))
    | inr (e, t) ↦ rw (← t) (ap some (sym e))
  ]

  texts_differ : (s : String) → "one" ≡ s → "two" ≡ s → ⊥
  texts_differ s h k = cc (ap (λ x. x == "one") (h ∙ sym k))

  pub marshal_two-inj : (x y : A) (d : String) → marshal_two x ≡ ok d → marshal_two y ≡ ok d → x ≡ y
  unfolding marshal_two
  marshal_two-inj x y d h k = elim (marshal_either-ok (same x a) (same x b) d h) [
    | inl (e, t) ↦ elim (marshal_either-ok (same y a) (same y b) d k) [
      | inl (f, u) ↦ e ∙ sym f
      | inr (f, u) ↦ absurd (texts_differ d t u)
    ]
    | inr (e, t) ↦ elim (marshal_either-ok (same y a) (same y b) d k) [
      | inl (f, u) ↦ absurd (texts_differ d u t)
      | inr (f, u) ↦ e ∙ sym f
    ]
  ]

  pub marshal_two-len : (r : A) (d : String) → marshal_two r ≡ ok d → len d ≤ 65536
  unfolding marshal_two
  marshal_two-len r d h = elim (marshal_either-ok (same r a) (same r b) d h) [
    | inl (e, t) ↦ rw (← t) (omega arith)
    | inr (e, t) ↦ rw (← t) (omega arith)
  ]

  abbrev pub two_codec : Codec A
  two_codec = record {
    limit = 65536;
    marshal = marshal_two;
    decode = decode_two;
    decode-marshal = decode-marshal_two;
  }
