-- ===== src/Protocol/Lines/Reading.antt =====
-- What ReadBytes of protocol/coder-decoder.go has taken from the bytes that were to come, and what
-- ReadProtocolHeader accepts.
use golang_mq.Base.{
  ℕ, ◌≡◌, refl, ap, sym, subst, ◌∙◌, true, false, Option-cases, some, List, [], ◌∷◌, ◌++◌, arith,
  nat_beq, nat_beq_iff, Bool-cases, inl, inr, ◌⊎◌,
}
use golang_mq.Json.{codes, codes_eq}
use golang_mq.Protocol.{protocol_header}
use golang_mq.Protocol.Lines.{read_line, read_protocol_header}

pub read_line-splits :
    (input line left : List ℕ) → read_line input ≡ some (line, left) → input ≡ line ++ left
unfolding read_line
read_line-splits [] line left e = cc
read_line-splits (c ∷ s) line left e = elim (Bool-cases (nat_beq c b'\n')) [
  | inl end ↦ ground arith
  | inr more ↦ elim (Option-cases (read_line s)) [
    | inl none_left ↦ ground arith
    | inr ((line', left'), f) ↦ ground (arith, read_line-splits s line' left' f)
  ]
]

codes_eq_sound : (s t : List ℕ) → codes_eq s t ≡ true → s ≡ t
unfolding codes_eq
codes_eq_sound [] [] e = refl
codes_eq_sound [] (b ∷ t) e = cc
codes_eq_sound (a ∷ s) [] e = cc
codes_eq_sound (a ∷ s) (b ∷ t) e = ground (arith, codes_eq_sound s t, nat_beq_iff a b)

-- A header that is accepted is the protocol's, or the stream has ended before a line.
pub read_protocol_header-accepts :
    (input : List ℕ)
    → (read_protocol_header input).0 ≡ false
    → ((read_protocol_header input).1 ≡ [])
      ⊎ (input ≡ codes "GOMQ/1\n" ++ (read_protocol_header input).1)
unfolding read_protocol_header codes
read_protocol_header-accepts input e = elim (Option-cases (read_line input)) [
  | inl none_left ↦ inl (ground arith)
  | inr ((line, left), f) ↦
      elim (Bool-cases (codes_eq line (codes protocol_header ++ b'\n' ∷ []))) [
        | inl same ↦
            let text : line ≡ codes "GOMQ/1\n" =
              codes_eq_sound line (codes protocol_header ++ b'\n' ∷ []) same in
            let rest : (read_protocol_header input).1 ≡ left = ground arith in
            inr (
              subst (λ l. input ≡ codes "GOMQ/1\n" ++ l) (sym rest)
                (read_line-splits input line left f ∙ ap (λ l. l ++ left) text))
        | inr other ↦ ground arith
      ]
]
