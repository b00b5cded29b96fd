-- ===== src/Json.antt =====
-- JSON values as encoding/json reads them, and its conversions of a value into a field of a struct.
-- A number keeps the bytes of its literal, which strconv reads.
use Prim.Native.Char.{code}
use golang_mq.Base.Int.{ℤ, pos, negsuc}
use golang_mq.Base.{
  ℕ, zero, suc, ◌^◌, ◌+◌, ◌-◌, ◌*◌, ◌/◌, ◌%◌, String, Bool, true, false, ◌&&◌, ◌||◌, Option, none,
  some, List, [], ◌∷◌, ltb, leb, nat_beq, if◌then◌else◌,
}

mutual
  pub data Json : Type 0 where
    null : Json
    bool : Bool → Json
    num : List ℕ → Json
    str : String → Json
    arr : Items → Json
    obj : Fields → Json

  pub data Items : Type 0 where
    nil : Items
    cons : Json → Items → Items

  pub data Fields : Type 0 where
    end : Fields
    field : String → Json → Fields → Fields

-- The code points of a text.
unfoldable pub codes : String → List ℕ
codes String.[] = []
codes (String.◌∷◌ c s) = code c ∷ codes s

is_digit : ℕ → Bool
is_digit c = leb b'0' c && leb c b'9'

-- The loop of strconv.ParseUint in base 10, on a literal of digits; `none` is a syntax error.
digits_value : ℕ → List ℕ → Option ℕ
unfolding is_digit
digits_value n [] = some n
digits_value n (c ∷ s) =
    let rest = digits_value (n * 10 + (c - b'0')) s in if is_digit c then rest else none

-- strconv.ParseUint(s, 10, 64), and the range test of a field with `bound` values.
unfoldable pub parse_uint : ℕ → List ℕ → Option ℕ
unfolding digits_value
parse_uint bound [] = none
parse_uint bound (c ∷ s) = elim (digits_value 0 (c ∷ s)) [
  | none ↦ none
  | some n ↦ if ltb n bound then some n else none
]

abbrev is_empty : List ℕ → Bool
is_empty [] = true
is_empty (x ∷ xs) = false

-- -n
abbrev negative : ℕ → ℤ
negative zero = pos 0
negative (suc n) = negsuc n

-- strconv.ParseInt(s, 10, 64).
unfoldable pub parse_int : List ℕ → Option ℤ
unfolding digits_value
parse_int [] = none
parse_int (c ∷ s) =
    let digits = if nat_beq c b'-' then s else c ∷ s in
    elim (digits_value 0 digits) [
      | none ↦ none
      | some n ↦
          if is_empty digits
          then none
          else if nat_beq c b'-'
          then if leb n (2 ^ 63) then some (negative n) else none
          else if ltb n (2 ^ 63)
          then some (pos n)
          else none
    ]

-- The fold of a field's name, which takes the letters of a name to upper case; U+017F and U+212A
-- are the only characters outside ASCII that fold to a letter of ASCII.
unfoldable pub fold_code : ℕ → ℕ
fold_code c =
    if leb b'a' c && leb c b'z'
    then c - 32
    else if nat_beq c 0x17f
    then b'S'
    else if nat_beq c 0x212a
    then b'K'
    else c

unfoldable pub codes_eq : List ℕ → List ℕ → Bool
codes_eq [] [] = true
codes_eq (a ∷ s) (b ∷ t) = nat_beq a b && codes_eq s t
codes_eq _ _ = false

unfoldable pub fold_name : List ℕ → List ℕ
unfolding fold_code
fold_name [] = []
fold_name (c ∷ s) = fold_code c ∷ fold_name s

-- Does the key of an object name the field? A field's name is matched whatever its case.
unfoldable pub names : String → String → Bool
unfolding codes codes_eq fold_name
names key target = codes_eq (fold_name (codes key)) (fold_name (codes target))

-- The value of a character of the standard base64 alphabet.
unfoldable pub base64_value : ℕ → Option ℕ
base64_value c =
    if leb b'A' c && leb c b'Z'
    then some (c - b'A')
    else if leb b'a' c && leb c b'z'
    then some (c - b'a' + 26)
    else if leb b'0' c && leb c b'9'
    then some (c - b'0' + 52)
    else if nat_beq c b'+'
    then some 62
    else if nat_beq c b'/'
    then some 63
    else none

-- The bytes of one group of four characters, and whether a padded group ends the text.
unfoldable pub base64_group : ℕ → ℕ → ℕ → ℕ → List ℕ → Option (List ℕ) → Option (List ℕ)
unfolding base64_value
base64_group a b c d s rest = elim (base64_value a) [
  | none ↦ none
  | some va ↦ elim (base64_value b) [
    | none ↦ none
    | some vb ↦ elim (base64_value c) [
      | none ↦
          if nat_beq c b'=' && nat_beq d b'=' && is_empty s
          then some ((va * 4 + vb / 16) ∷ [])
          else none
      | some vc ↦ elim (base64_value d) [
        | none ↦
            if nat_beq d b'=' && is_empty s
            then some ((va * 4 + vb / 16) ∷ (vb % 16 * 16 + vc / 4) ∷ [])
            else none
        | some vd ↦ elim rest [
          | none ↦ none
          | some bytes ↦
              some ((va * 4 + vb / 16) ∷ (vb % 16 * 16 + vc / 4) ∷ (vc % 4 * 64 + vd) ∷ bytes)
        ]
      ]
    ]
  ]
]

-- base64.StdEncoding, on a text with no line break.
unfoldable pub base64_groups : List ℕ → Option (List ℕ)
unfolding base64_group
base64_groups [] = some []
base64_groups (a ∷ b ∷ c ∷ d ∷ s) = base64_group a b c d s (base64_groups s)
base64_groups _ = none

without_breaks : List ℕ → List ℕ
without_breaks [] = []
without_breaks (c ∷ s) =
    let rest = without_breaks s in if nat_beq c 10 || nat_beq c 13 then rest else c ∷ rest

unfoldable pub base64_decode : List ℕ → Option (List ℕ)
unfolding without_breaks base64_groups
base64_decode s = base64_groups (without_breaks s)
