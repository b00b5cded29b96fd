-- ===== src/Bench/Config/Flags.antt =====
-- The flags of the three distribution axes: intAxisFlag and distributionFlag of
-- internal/bench/config.go. -distribution applies to the axis whose flag was set last.
use golang_mq.Base.{
  ℕ, ◌+◌, ◌≡◌, ◌≢◌, refl, String, Option, none, some, List, [], ◌∷◌, leb, nat_beq, ◌&&◌, ◌⊎◌, inl,
  inr, if◌then◌else◌,
}
use golang_mq.Json.{codes, codes_eq, parse_int}
use golang_mq.Base.Int.{ℤ}
use golang_mq.Bench.Config.{Config, Distribution, even, uneven}

-- A field that one of the three axis flags sets, and what AxisCursor remembers, `none` at first.
pub data Axis : Type 0 where
  conns channels pub_channels : Axis

pub record Flags : Type 0 where
  pub config : Config
  pub last : Option Axis

pub data FlagError : Type 0 where
  invalid_integer invalid_distribution no_axis : FlagError

unfoldable pub set_axis : Axis → ℤ → Config → Config
set_axis conns v c = record c { conns = v }
set_axis channels v c = record c { channels = v }
set_axis pub_channels v c = record c { pub_channels = v }

unfoldable pub set_dist : Axis → Distribution → Config → Config
set_dist conns d c = record c { conns_dist = d }
set_dist channels d c = record c { channels_dist = d }
set_dist pub_channels d c = record c { pub_channels_dist = d }

unfoldable pub dist_of : Axis → Config → Distribution
dist_of conns c = c.conns_dist
dist_of channels c = c.channels_dist
dist_of pub_channels c = c.pub_channels_dist

-- A number without a sign.
unsigned : List ℕ → Option ℤ
unfolding parse_int
unsigned [] = none
unsigned (c ∷ s) = let n = parse_int (c ∷ s) in if nat_beq c b'-' then none else n

-- strconv.Atoi
atoi_codes : List ℕ → Option ℤ
unfolding unsigned parse_int
atoi_codes [] = none
atoi_codes (c ∷ s) =
    let n = parse_int (c ∷ s) in let m = unsigned s in if nat_beq c b'+' then m else n

unfoldable pub atoi : String → Option ℤ
unfolding codes atoi_codes
atoi s = atoi_codes (codes s)

unfoldable pub set_value : Axis → Option ℤ → Flags → FlagError ⊎ Flags
unfolding set_axis
set_value axis none f = inl invalid_integer
set_value axis (some v) f = inr (record { config = set_axis axis v f.config; last = some axis })

-- intAxisFlag.Set
unfoldable pub set_int : Axis → String → Flags → FlagError ⊎ Flags
unfolding atoi set_value
set_int axis s f = set_value axis (atoi s) f

-- strings.ToLower, as far as the words of this file can tell: no character outside ASCII goes to one of
-- their letters.
lower : List ℕ → List ℕ
lower [] = []
lower (c ∷ s) = (if leb b'A' c && leb c b'Z' then c + 32 else c) ∷ lower s

-- The first switch of distributionFlag.Set.
unfoldable pub mode_of : String → Option Distribution
unfolding codes codes_eq lower
mode_of s =
    if codes_eq (lower (codes s)) (codes "even")
    then some even
    else if codes_eq (lower (codes s)) (codes "uneven")
    then some uneven
    else none

unfoldable pub set_last : Option Axis → Distribution → Flags → FlagError ⊎ Flags
unfolding set_dist
set_last none d f = inl no_axis
set_last (some axis) d f = inr (record f { config = set_dist axis d f.config })

-- distributionFlag.Set
unfoldable pub set_distribution : String → Flags → FlagError ⊎ Flags
unfolding mode_of set_last
set_distribution s f = elim (mode_of s) [
  | none ↦ inl invalid_distribution
  | some d ↦ set_last f.last d f
]

module _ (axis : Axis) (number : String) (v : ℤ) (s : String) (d : Distribution) (f : Flags)
    (reads : atoi number ≡ some v) (read : mode_of s ≡ some d) where
  -- The flags as -distribution right after an axis flag leaves them.
  abbrev bound : Flags
  bound = record { config = set_dist axis d (set_axis axis v f.config); last = some axis }

  -- A -distribution whose mode is known, right after the flag of an axis whose number can be read,
  -- sets the mode of that axis, and the mode of no other.
  pub set_distribution-set_int :
      (◌≡◌ {A = FlagError ⊎ Flags}
        (elim (set_int axis number f) [ inl e ↦ inl e | inr g ↦ set_distribution s g ])
        (inr bound))
      × (dist_of axis bound.config ≡ d)
      × ((other : Axis) → other ≢ axis → dist_of other bound.config ≡ dist_of other f.config)
  unfolding set_distribution set_int set_value dist_of set_axis
  set_distribution-set_int =
      (rw (reads, set_int, read, set_distribution) refl, same axis, others axis)
    where
      same : (a : Axis) → dist_of a (set_dist a d (set_axis a v f.config)) ≡ d
      same conns = refl
      same channels = refl
      same pub_channels = refl

      others :
          (a other : Axis)
          → other ≢ a
          → dist_of other (set_dist a d (set_axis a v f.config)) ≡ dist_of other f.config
      others conns conns off = absurd (off refl)
      others conns channels off = refl
      others conns pub_channels off = refl
      others channels conns off = refl
      others channels channels off = absurd (off refl)
      others channels pub_channels off = refl
      others pub_channels conns off = refl
      others pub_channels channels off = refl
      others pub_channels pub_channels off = absurd (off refl)
