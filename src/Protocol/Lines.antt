-- ===== src/Protocol/Lines.antt =====
-- protocol/coder-decoder.go on the bytes that are still to come from the client: a call reads a line,
-- or fails at the end of the stream, and leaves the rest. How text is read as JSON is a parameter.
pub mod Reading
use golang_mq.Base.{
  ℕ, Bool, true, false, Option, none, some, List, [], ◌∷◌, ◌++◌, nat_beq, if◌then◌else◌,
}
use golang_mq.Json.{Json, codes, codes_eq}
use golang_mq.Protocol.{protocol_header, Envelope}
use golang_mq.Protocol.Unmarshal.{Decoded, unmarshal_envelope}

-- ReadBytes('\n'): the line with its end, and the rest; `none` if the stream ends before.
unfoldable pub read_line : List ℕ → Option (List ℕ × List ℕ)
read_line [] = none
read_line (c ∷ s) =
    let rest = read_line s in
    if nat_beq c b'\n'
    then some (c ∷ [], s)
    else elim rest [ none ↦ none | some (line, left) ↦ some (c ∷ line, left) ]

-- What a call returned an error for, and the bytes that it left.
pub record Read (A : Type 0) : Type 0 where
  pub failed : Bool
  pub value : Option A
  pub left : List ℕ

-- A failed read reports no error, as the code has it.
unfoldable pub read_protocol_header : List ℕ → Bool × List ℕ
unfolding read_line codes codes_eq
read_protocol_header input = elim (read_line input) [
  | none ↦ (false, [])
  | some (line, left) ↦
      if codes_eq line (codes protocol_header ++ b'\n' ∷ []) then (false, left) else (true, left)
]

module _ (parse : List ℕ → Option Json) where
  -- ReadMessage into a target that `decode` fills.
  unfoldable pub read_message : {A : Type 0} → (Option Json → Decoded A) → List ℕ → Read A
  unfolding read_line
  read_message decode input = elim (read_line input) [
    | none ↦ record { failed = true; value = none; left = [] }
    | some (line, left) ↦
        let d = decode (parse line) in
        record { failed = d.failed; value = some d.value; left = left }
  ]

  unfoldable pub read_envelope : List ℕ → Read Envelope
  unfolding read_message unmarshal_envelope
  read_envelope = read_message unmarshal_envelope
