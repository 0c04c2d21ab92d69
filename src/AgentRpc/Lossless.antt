-- ===== src/AgentRpc/Lossless.antt =====
-- What src/agent_rpc.rs encodes is what its decoder reads.
use yunova.Base.{
  ℕ, zero, suc, ◌≤◌, ◌≡◌, refl, sym, ap, ◌∙◌, false, Option, none, some, List, [], ◌∷◌, ◌++◌, map,
  length, arith, inl, inr, Option-cases, All, append_nil,
}
use mathlib.Core.List.{append_assoc}
use yunova.Base.Text.{split_once}
use yunova.Usage.Json.{Value}
use yunova.AgentRpc.{
  JsonlDecoder, new, without_cr, is_blank, record_of, drain, push, push_all, encode,
}
use yunova.AgentRpc.Stream.{
  has, split_once_at, split_once-shorter, drained, drained-some, drained-append, drain-none,
}

abbrev pub joined : List (List ℕ) → List ℕ
joined [] = []
joined (c ∷ cs) = c ++ joined cs

-- `print` writes the value on one line, which ends with no `\r` and is not blank, and `parse` reads it.
pub record IsPrinted (print : Value → Option (List ℕ)) (parse : List ℕ → Option Value) (v : Value)
    : Type 0 where
  pub text : List ℕ
  pub printed : print v ≡ some text
  pub one_line : has 10 text ≡ false
  pub kept : without_cr text ≡ text
  pub shown : is_blank text ≡ false
  pub parsed : parse text ≡ some v

module _ (parse : List ℕ → Option Value) where
  nothing_left : (x : List ℕ) → split_once 10 x ≡ none → split_once 10 (drained parse x).1 ≡ none
  nothing_left x n =
      ap (λ (d : List Value × List ℕ). split_once 10 d.1) (drain-none parse (length x) x n) ∙ n

  -- No whole line is left.
  drained_clear : (n : ℕ) (x : List ℕ) → length x ≤ n → split_once 10 (drained parse x).1 ≡ none
  drained_clear zero x h = elim (Option-cases (split_once 10 x)) [
    | inl none_left ↦ nothing_left x none_left
    | inr ((l, r), s) ↦ let shorter = split_once-shorter 10 x l r s in absurd (omega arith)
  ]
  drained_clear (suc n) x h = elim (Option-cases (split_once 10 x)) [
    | inl none_left ↦ nothing_left x none_left
    | inr ((l, r), s) ↦
        let shorter = split_once-shorter 10 x l r s in
        ap (λ (d : List Value × List ℕ). split_once 10 d.1) (drained-some parse x l r s)
        ∙ drained_clear n r (omega arith)
  ]

  abbrev decoded : List Value × List ℕ → List Value × JsonlDecoder
  decoded d = (d.0, record { buffer = d.1 })

  push_all-joined :
      (chunks : List (List ℕ)) (d : JsonlDecoder)
      → split_once 10 d.buffer ≡ none
      → push_all parse d chunks ≡ decoded (drained parse (d.buffer ++ joined chunks))
  unfolding push_all push
  push_all-joined [] d clear = sym (
      ap decoded (
        ap (drained parse) (append_nil d.buffer)
        ∙ drain-none parse (length d.buffer) d.buffer clear))
  push_all-joined (c ∷ cs) d clear =
      let x = d.buffer ++ c in
      let read = drained parse x in
      ap (λ (p : List Value × JsonlDecoder). (read.0 ++ p.0, p.1))
        (push_all-joined cs (record { buffer = read.1 }) (drained_clear (length x) x (omega arith)))
      ∙ sym (ap decoded (drained-append parse (length x) x (joined cs) (omega arith)))
      ∙ ap (λ (y : List ℕ). decoded (drained parse y)) (append_assoc d.buffer c (joined cs))

  module _ (print : Value → Option (List ℕ)) where
    record_of_printed : (v : Value) (p : IsPrinted print parse v) → record_of parse p.text ≡ v ∷ []
    unfolding record_of
    record_of_printed v p = rw (p.kept, p.shown, p.parsed) refl

    encoded : (v : Value) (p : IsPrinted print parse v) → encode print v ≡ p.text ++ 10 ∷ []
    unfolding encode
    encoded v p = rw p.printed refl

    drained_encoded :
        (vs : List Value)
        → All (IsPrinted print parse) vs
        → drained parse (joined (map (encode print) vs)) ≡ (vs, [])
    unfolding drain
    drained_encoded [] ps = refl
    drained_encoded (v ∷ vs) (p, ps) =
        let rest = joined (map (encode print) vs) in
        ap (λ (x : List ℕ). drained parse (x ++ rest)) (encoded v p)
        ∙ ap (drained parse) (append_assoc p.text (10 ∷ []) rest)
        ∙ drained-some parse (p.text ++ 10 ∷ rest) p.text rest
            (split_once_at 10 p.text rest p.one_line)
        ∙ ap (λ (us : List Value). (us ++ (drained parse rest).0, (drained parse rest).1))
            (record_of_printed v p)
        ∙ ap (λ (d : List Value × List ℕ). (v ∷ d.0, d.1)) (drained_encoded vs ps)

    -- However the encoded values are cut into chunks, a new decoder reads the values in their order, and
    -- nothing is left; each value is printed on one line that is read back.
    pub push_all-encode :
        (vs : List Value) (chunks : List (List ℕ))
        → All (IsPrinted print parse) vs
        → joined chunks ≡ joined (map (encode print) vs)
        → push_all parse new chunks ≡ (vs, new)
    unfolding new split_once
    push_all-encode vs chunks ps cut =
        push_all-joined chunks new refl
        ∙ ap (λ (x : List ℕ). decoded (drained parse x)) cut
        ∙ ap decoded (drained_encoded vs ps)
