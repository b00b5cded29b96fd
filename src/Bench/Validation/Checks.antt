-- ===== src/Bench/Validation/Checks.antt =====
-- Validate of internal/bench/config.go against Build of internal/bench/topology.go.
use golang_mq.Base.{◌≡◌, refl, true, Option, none, some, ◌⊎◌, inl, inr, Option-cases}
use golang_mq.Bench.Config.{Config}
use golang_mq.Bench.Topology.{Topology, BuildError, build_topology}
use golang_mq.Bench.Validation.{
  ConfigError, error_of, validate_numbers, validate_distribution, validate, build_plan,
}

built : (r : BuildError ⊎ Topology) → error_of r ≡ none → (t : Topology) × (r ≡ inr t)
built (inl e) h = cc
built (inr t) h = (t, refl)

built_after :
    (x y : Option ConfigError) (r : BuildError ⊎ Topology)
    → ◌≡◌ {A = Option ConfigError}
        (elim x [ some e ↦ some e | none ↦ elim y [ some e ↦ some e | none ↦ error_of r ] ])
        none
    → (t : Topology) × (r ≡ inr t)
built_after none none r h = built r h
built_after none (some e) r h = cc
built_after (some e) y r h = cc

built_of_valid : (c : Config) → validate c ≡ none → (t : Topology) × (build_topology c true ≡ inr t)
unfolding validate
built_of_valid c v =
    built_after (validate_numbers c) (validate_distribution c) (build_topology c true) v

build_invalid : (c : Config) (e : ConfigError) → validate c ≡ some e → build_plan c ≡ inl e
unfolding build_plan
build_invalid c e v = rw (v, build_plan)

build_valid :
    (c : Config) (t : Topology)
    → validate c ≡ none
    → build_topology c true ≡ inr t
    → build_plan c ≡ inr t
unfolding build_plan
build_valid c t v b = rw (v, build_plan) (rw b)

-- Build reports the error that Validate reports; and if Validate reports none, then Build returns
-- a topology, the one that the last check of Validate built.
pub build_plan-validate :
    (c : Config)
    → ((e : ConfigError) × (validate c ≡ some e) × (build_plan c ≡ inl e))
      ⊎ ((t : Topology) × (validate c ≡ none)
          × (build_plan c ≡ inr t)
          × (build_topology c true ≡ inr t))
build_plan-validate c = elim (Option-cases (validate c)) [
  | inr (e, v) ↦ inl (e, v, build_invalid c e v)
  | inl v ↦ let (t, b) = built_of_valid c v in inr (t, v, build_valid c t v b, b)
]
