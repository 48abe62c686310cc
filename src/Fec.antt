-- ===== src/Fec.antt =====
-- quiche/src/fec: when to send repair symbols. Here stands what the schedulers observe of the rest:
-- the environment, the connection, the path and the FEC encoder, and the connection's own answer
-- dgram_max_writable_len of quiche/src/lib.rs. Instants and durations are in nanoseconds. Products
-- and sums of sizes do not wrap.
use quirl.Common.{ℕ, ◌+◌, ◌-◌, min, ltb, if◌then◌else◌, Bool, true, false, Option, none, some}
pub mod Background
pub mod Bursts
pub mod Scheduler
pub mod Budget
pub mod Datagrams
pub mod InFlight
mod Tests

-- A debug variable of the environment: not set, set to what does not parse, or parsed.
pub data Var {ℓ} (A : Type ℓ) : Type ℓ where
  unset : Var A
  garbled : Var A
  parsed : A → Var A

-- `env::var(v).unwrap_or(default.to_string()).parse().unwrap_or(default)`
unfoldable pub or_default {ℓ} : {A : Type ℓ} → A → Var A → A
or_default d (parsed a) = a
or_default d unset = d
or_default d garbled = d

-- The floating-point numbers of the loss estimation: the constant 2.0, and
-- `(mean + factor * deviation.ceil()) as usize`.
pub record Floats : Type 1 where
  pub Float : Type 0
  pub two : Float
  pub mean_plus : Float → Float → Float → ℕ

-- A packet's place in the coding window of the encoder.
abbrev pub Metadata : Type 0
Metadata = ℕ

pub record Encoder : Type 0 where
  pub first_metadata : Option Metadata
  pub last_metadata : Option Metadata
  pub contains_symbol : Metadata → Bool
  pub get_sent_time : Metadata → Option ℕ

-- What a scheduler reads of the connection; the first field is the answer of the method below.
pub record Connection : Type 0 where
  pub dgram_max_writable_len : Option ℕ
  pub has_flushable : Bool
  pub sent_count : ℕ
  pub tx_data : ℕ
  pub fec_encoder : Encoder

-- The struct Path, with its recovery: bytes in flight, room in the congestion window, losses.
pub record NetPath (fl : Floats) : Type 0 where
  pub bif : ℕ
  pub cwnd_available : ℕ
  pub packets_lost_per_round_trip : Option fl.Float
  pub var_packets_lost_per_round_trip : fl.Float

abbrev pub is_some {ℓ} : {A : Type ℓ} → Option A → Bool
is_some none = false
is_some (some _) = true

abbrev pub max_pkt_num_len : ℕ
max_pkt_num_len = 4

abbrev pub max_dgram_overhead : ℕ
max_dgram_overhead = 2

-- The largest DATAGRAM payload that fits a packet, from the limit of the peer, the size of a UDP
-- payload, the length of the destination's id and the overhead of the keys, if there are any.
unfoldable pub dgram_max_writable_len : Option ℕ → ℕ → ℕ → Option ℕ → Option ℕ
dgram_max_writable_len none udp dcid overhead = none
dgram_max_writable_len (some peer_frame_len) udp dcid none = none
dgram_max_writable_len (some peer_frame_len) udp dcid (some overhead) =
    let max_len = min peer_frame_len (udp - (1 + dcid) - max_pkt_num_len - overhead) in
    if ltb max_len (1 + max_dgram_overhead) then none else some (max_len - (1 + max_dgram_overhead))
