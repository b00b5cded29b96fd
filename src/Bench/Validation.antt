-- ===== src/Bench/Validation.antt =====
-- Validate, Warnings and Build: internal/bench/config.go and internal/bench/topology.go. An error says
-- which check failed; its text also has the values, which are those of the settings.
pub mod Checks
use golang_mq.Base.{
  ℕ, ◌+◌, ◌*◌, String, Bool, true, false, Option, none, some, List, [], ◌∷◌, ◌++◌, ltb, leb, not,
  ◌&&◌, ◌||◌, nat_beq, ◌==◌, string_eq, ◌⊎◌, inl, inr, if◌then◌else◌,
}
use golang_mq.Base.Int.{ℤ, pos, negsuc, below}
use golang_mq.Bench.Header.{header_len}
use golang_mq.Bench.Config.{
  Config, Distribution, even, uneven, unknown, is_negative, is_not_positive, size_of,
}
use golang_mq.Bench.Topology.{Topology, BuildError, build_topology}

pub data ConfigError : Type 0 where
  empty_addr conns pub_conns cons_conns too_many_conns channels pub_channels cons_channels :
      ConfigError
  publishers consumers msgs size report drain_timeout warmup duration : ConfigError
  conns_dist channels_dist pub_channels_dist : ConfigError
  build : BuildError → ConfigError

abbrev pub is_known : Distribution → Bool
is_known even = true
is_known uneven = true
is_known (unknown d) = false

unfoldable pub validate_distribution : Config → Option ConfigError
validate_distribution c =
    if not (is_known c.conns_dist)
    then some conns_dist
    else if not (is_known c.channels_dist)
    then some channels_dist
    else if not (is_known c.pub_channels_dist)
    then some pub_channels_dist
    else none

-- The checks of the numbers, in the order of the code. Where pub_conns and cons_conns are added both
-- are known not to be negative.
unfoldable pub validate_numbers : Config → Option ConfigError
validate_numbers c =
    if c.addr == ""
    then some empty_addr
    else if is_not_positive c.conns
    then some conns
    else if is_negative c.pub_conns
    then some pub_conns
    else if is_negative c.cons_conns
    then some cons_conns
    else if ltb (size_of c.conns) (size_of c.pub_conns + size_of c.cons_conns)
    then some too_many_conns
    else if is_not_positive c.channels
    then some channels
    else if is_negative c.pub_channels
    then some pub_channels
    else if is_negative c.cons_channels
    then some cons_channels
    else if is_negative c.publishers
    then some publishers
    else if is_negative c.consumers
    then some consumers
    else if is_negative c.msgs
    then some msgs
    else if below c.size header_len
    then some size
    else if is_not_positive c.report
    then some report
    else if is_not_positive c.drain_timeout
    then some drain_timeout
    else if is_negative c.warmup
    then some warmup
    else if is_negative c.duration
    then some duration
    else none

-- The error of a build, if there is one.
abbrev pub error_of : BuildError ⊎ Topology → Option ConfigError
error_of (inl e) = some (build e)
error_of (inr t) = none

unfoldable pub validate : Config → Option ConfigError
unfolding validate_numbers validate_distribution build_topology
validate c = elim (validate_numbers c) [
  | some e ↦ some e
  | none ↦ elim (validate_distribution c) [
    | some e ↦ some e
    | none ↦ error_of (build_topology c true)
  ]
]

abbrev build_again : BuildError ⊎ Topology → ConfigError ⊎ Topology
build_again (inl e) = inl (build e)
build_again (inr t) = inr t

-- Build
unfoldable pub build_plan : Config → ConfigError ⊎ Topology
unfolding validate build_topology
build_plan c = elim (validate c) [ some e ↦ inl e | none ↦ build_again (build_topology c true) ]

pub data Warning : Type 0 where
  tags_may_wrap no_acks prefetch_ignored : Warning
  conns_cap_ignored channels_cap_ignored pub_channels_cap_ignored : Warning

abbrev is_uneven : Distribution → Bool
is_uneven even = false
is_uneven uneven = true
is_uneven (unknown d) = false

abbrev is_ten : ℤ → Bool
is_ten (pos n) = nat_beq n 10
is_ten (negsuc n) = false

-- Warnings, of settings whose publishers and msgs are not negative, as Validate requires.
unfoldable pub warnings : Config → List Warning
warnings c =
    (if ltb 65535 (size_of c.publishers * size_of c.msgs) then tags_may_wrap ∷ [] else [])
    ++ (if not c.ack then no_acks ∷ [] else [])
    ++ (if not (is_ten c.prefetch) then prefetch_ignored ∷ [] else [])
    ++ (if not (is_not_positive c.max_channels_per_conn) && not (is_uneven c.conns_dist)
        then conns_cap_ignored ∷ []
        else [])
    ++ (if not (is_not_positive c.max_consumers_per_channel) && not (is_uneven c.channels_dist)
        then channels_cap_ignored ∷ []
        else [])
    ++ (if not (is_not_positive c.max_publishers_per_channel) && not (is_uneven c.pub_channels_dist)
        then pub_channels_cap_ignored ∷ []
        else [])
