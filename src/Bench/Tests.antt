-- ===== src/Bench/Tests.antt =====
-- The plans of a few settings.
mod Measuring
mod Working
mod Sampling
use golang_mq.Base.{
  ℕ, ◌≡◌, ◌≢◌, ◌≤◌, refl, true, false, none, some, List, [], ◌∷◌, ◌⊎◌, inl, inr, arith, length,
}
use golang_mq.Base.Int.{pos, negsuc, below}
use golang_mq.Bench.Config.{Config, uneven, default_config, size_of}
use golang_mq.Bench.Config.Flags.{
  Axis, channels, Flags, FlagError, mode_of, atoi, set_int, set_axis, set_dist, dist_of,
  set_distribution, set_distribution-set_int,
}
use golang_mq.Bench.Header.{put_bytes, to_u64, drop_bytes, encode_header, decode_header}
use golang_mq.Bench.Header.Roundtrip.{decode_header-encode_header}
use golang_mq.Bench.Placement.{place_channels, place_workers}
use golang_mq.Bench.Placement.Dealing.{Places, place_workers-Places, place_channels-Places}
use golang_mq.Bench.Placement.Caps.{row_at, place_workers-cap, place_channels-cap}
use golang_mq.Bench.Topology.{Topology, BuildError, build_topology, carve_roles}
use golang_mq.Bench.Topology.Carving.{mixed_with, is_publish, is_consume, carve_roles-counts}
use golang_mq.Bench.Validation.{ConfigError, validate, build_plan, no_acks, warnings}
use golang_mq.Bench.Validation.Checks.{build_plan-validate}

default_config_validates : validate default_config ≡ none
unfolding validate default_config below
default_config_validates = refl

default_config_warns : warnings (record default_config { ack = false }) ≡ no_acks ∷ []
unfolding warnings default_config
default_config_warns = refl

-- Six channels on two connections, one of them for publishers only.
abbrev six : Config
six = record default_config {
  conns = pos 2;
  pub_conns = pos 1;
  channels = pos 6;
  publishers = pos 3;
}

abbrev publish_capable_of : ConfigError ⊎ Topology → List ℕ
publish_capable_of (inl e) = []
publish_capable_of (inr t) = t.publish_capable

six_plan : publish_capable_of (build_plan six) ≡ 0 ∷ 1 ∷ 2 ∷ 3 ∷ 4 ∷ 5 ∷ []
unfolding build_plan default_config below
six_plan = refl

abbrev packed : List (List ℕ)
packed = (0 ∷ 1 ∷ []) ∷ (2 ∷ 3 ∷ []) ∷ (4 ∷ []) ∷ []

workers_packed : place_workers 5 3 uneven (pos 2) ≡ inr packed
unfolding place_workers
workers_packed = refl

channels_packed : place_channels 3 5 uneven (pos 2) ≡ inr packed
unfolding place_channels
channels_packed = refl

place_workers-Places_example : Places 3 5 packed
place_workers-Places_example = place_workers-Places 5 3 uneven (pos 2) packed workers_packed

-- The mode of a distribution is read without regard to case.
uneven_mode : mode_of "Uneven" ≡ some uneven
uneven_mode = unfold mode_of in refl

-- One connection with four channels, one of them for publishers and one for consumers.
abbrev carved : Config
carved = record default_config { channels = pos 4; pub_channels = pos 1; cons_channels = pos 1 }

abbrev channels_of_carved : List (List ℕ)
channels_of_carved = (0 ∷ 1 ∷ 2 ∷ 3 ∷ []) ∷ []

abbrev topology_of : BuildError ⊎ Topology → Topology
topology_of (inl e) = record {
  conn_roles = [];
  conn_channels = [];
  slots = [];
  publish_capable = [];
  consume_capable = [];
}
topology_of (inr t) = t

abbrev plan : Topology
plan = topology_of (carve_roles carved channels_of_carved)

carve_roles-counts_example :
    (mixed_with is_publish carved plan.slots ≡ size_of carved.pub_channels)
    × (mixed_with is_consume carved plan.slots ≡ size_of carved.cons_channels)
carve_roles-counts_example = carve_roles-counts carved channels_of_carved plan built
  where
    built : carve_roles carved channels_of_carved ≡ inr plan
    built = unfold carve_roles default_config in refl
