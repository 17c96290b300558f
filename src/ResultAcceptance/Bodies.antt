-- ===== src/ResultAcceptance/Bodies.antt =====
-- src/internal/result-acceptance.ts: which answers `materializeBody` takes.
use pions.Prelude.{
  ℕ, ◌≡◌, refl, ap, ◌∙◌, Bool, true, false, ◌&&◌, not, none, some, List, [], ◌∷◌, map, length, all,
  ◌==◌, str_eq, if◌then◌else◌, Bool-cases, &&-eq-true, inl, inr, arith,
}
use pions.Platform.{Platform}
use pions.Text.{encode_all}
use pions.Utf8.{is_utf8, decode}
use pions.Utf8.Encoded.{is_scalar, encode_all-is_utf8, decode-encode_all}
use pions.Acceptance.{sha256_digest}
use pions.ResultAcceptance.{
  WorkerProducedResult, well_formed, buffer_from, drop_mark, text_decode, same_text,
  materialize_body,
}

-- The text begins with the character that decoders take for a byte order mark.
abbrev pub has_mark : List ℕ → Bool
has_mark [] = false
has_mark (c ∷ cs) = c == 0xfeff

well_formed-is_scalar : (text : List ℕ) → all is_scalar (map well_formed text) ≡ true
well_formed-is_scalar [] = refl
well_formed-is_scalar (c ∷ cs) = ground (arith, well_formed-is_scalar cs)

-- The bytes that `Buffer.from` makes decode.
pub buffer_from-is_utf8 : (text : List ℕ) → is_utf8 (buffer_from text) ≡ true
unfolding buffer_from
buffer_from-is_utf8 text = encode_all-is_utf8 (map well_formed text) (well_formed-is_scalar text)

decode-buffer_from : (text : List ℕ) → decode (buffer_from text) ≡ map well_formed text
unfolding buffer_from
decode-buffer_from text = decode-encode_all (map well_formed text) (well_formed-is_scalar text)

same_as_well_formed : (text : List ℕ) → same_text (map well_formed text) text ≡ all is_scalar text
unfolding same_text
same_as_well_formed [] = refl
same_as_well_formed (c ∷ cs) = ground (arith, same_as_well_formed cs)

-- A row of characters is not the longer one.
shorter_differs : (c : ℕ) (cs : List ℕ) → same_text (map well_formed cs) (c ∷ cs) ≡ false
unfolding same_text
shorter_differs c [] = refl
shorter_differs c (d ∷ ds) = ground (arith, shorter_differs d ds)

same_when_dropped :
    (text : List ℕ)
    → same_text (drop_mark (map well_formed text)) text ≡ all is_scalar text && not (has_mark text)
unfolding same_text
same_when_dropped [] = refl
same_when_dropped (c ∷ cs) = elim (Bool-cases (c == 0xfeff)) [
  | inl mark ↦ ground (arith, shorter_differs c cs)
  | inr other ↦ ground (arith, same_as_well_formed cs)
]

text_decode-same :
    (text : List ℕ)
    → same_text (text_decode (buffer_from text)) text ≡ all is_scalar text && not (has_mark text)
text_decode-same text =
    ap (λ x. same_text (drop_mark x) text) (decode-buffer_from text) ∙ same_when_dropped text

well_formed-same : (text : List ℕ) → all is_scalar text ≡ true → map well_formed text ≡ text
well_formed-same [] h = refl
well_formed-same (c ∷ cs) h =
    let (first, rest) = &&-eq-true (is_scalar c) (all is_scalar cs) h in
    simp (first, well_formed-same cs rest) refl

module _ (p : Platform) where
  -- The answers that `materializeBody` takes.
  abbrev pub is_integral : WorkerProducedResult → Bool
  is_integral produced =
      all is_scalar produced.body
      && not (has_mark produced.body)
      && length (encode_all produced.body) == produced.expected_byte_count
      && str_eq (sha256_digest p (encode_all produced.body)) produced.expected_digest

  -- `materializeBody` takes the answers whose body is of Unicode scalar values, does not begin with
  -- U+FEFF, and has as UTF-8 the length and the digest that the Worker claims; it gives the UTF-8 of
  -- the body. It takes no other.
  pub materialize_body-is_integral :
      (produced : WorkerProducedResult)
      → materialize_body p produced
        ≡ (if is_integral produced then some (encode_all produced.body) else none)
  unfolding materialize_body buffer_from
  materialize_body-is_integral produced = elim (Bool-cases (all is_scalar produced.body)) [
    | inl scalar ↦
        let bytes : buffer_from produced.body ≡ encode_all produced.body =
          encoded produced.body (well_formed-same produced.body scalar) in
        ground (arith, text_decode-same produced.body, bytes, scalar)
    | inr lone ↦ ground (arith, text_decode-same produced.body, lone)
  ]
    where
      encoded : (text : List ℕ) → map well_formed text ≡ text → buffer_from text ≡ encode_all text
      encoded text h = ap encode_all h
