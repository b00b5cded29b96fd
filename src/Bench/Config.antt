-- ===== src/Bench/Config.antt =====
-- The settings of a run: Config of internal/bench/config.go. The checks of Validate are in
-- Bench/Validation.antt, since the last of them builds the topology.
pub mod Flags
use golang_mq.Base.{
  ℕ, ◌*◌, String, Bool, true, false, List, [], ◌∷◌, ◌++◌, ◌==◌, string_eq, ltb, nat_beq,
  if◌then◌else◌,
}
use golang_mq.Base.Int.{ℤ, pos, negsuc}

-- `unknown` stands for every text that is none of the constants.
pub data Distribution : Type 0 where
  even uneven : Distribution
  unknown : String → Distribution

-- An `int` and a `time.Duration`, in nanoseconds, are signed numbers.
pub record Config : Type 0 where
  pub addr : String
  pub conns : ℤ
  pub pub_conns : ℤ
  pub cons_conns : ℤ
  pub channels : ℤ
  pub pub_channels : ℤ
  pub cons_channels : ℤ
  pub conns_dist : Distribution
  pub channels_dist : Distribution
  pub pub_channels_dist : Distribution
  pub max_channels_per_conn : ℤ
  pub max_consumers_per_channel : ℤ
  pub max_publishers_per_channel : ℤ
  pub publishers : ℤ
  pub consumers : ℤ
  pub msgs : ℤ
  pub size : ℤ
  pub ack : Bool
  pub prefetch : ℤ
  pub duration : ℤ
  pub warmup : ℤ
  pub report : ℤ
  pub drain_timeout : ℤ
  pub output : String
  pub quiet : Bool

-- time.Second
abbrev second : ℕ
second = 1000000000

unfoldable pub default_config : Config
default_config = record {
  addr = "127.0.0.1:5672";
  conns = pos 1;
  pub_conns = pos 0;
  cons_conns = pos 0;
  channels = pos 1;
  pub_channels = pos 0;
  cons_channels = pos 0;
  conns_dist = even;
  channels_dist = even;
  pub_channels_dist = even;
  max_channels_per_conn = pos 0;
  max_consumers_per_channel = pos 0;
  max_publishers_per_channel = pos 0;
  publishers = pos 1;
  consumers = pos 1;
  msgs = pos 1000;
  size = pos 128;
  ack = true;
  prefetch = pos 10;
  duration = pos 0;
  warmup = pos 0;
  report = pos second;
  drain_timeout = pos (30 * second);
  output = "";
  quiet = false;
}

-- x < 0
abbrev pub is_negative : ℤ → Bool
is_negative (pos n) = false
is_negative (negsuc n) = true

-- x <= 0
abbrev pub is_not_positive : ℤ → Bool
is_not_positive (pos n) = nat_beq n 0
is_not_positive (negsuc n) = true

-- A number that is not negative.
abbrev pub size_of : ℤ → ℕ
size_of (pos n) = n
size_of (negsuc n) = 0
