-- ===== src/TokenBucket/Rate.antt =====
-- How many bytes token_bucket.sv lets through.
use native.Mathlib.Nat.{mul-le-mul_right}
use fpga_network_processing.Base.{
  Bool, Bool-cases, List, [], arith, false, if◌then◌else◌, inl, inr, leb, length, suc, true, ℕ, ◌*◌,
  ◌+◌, ◌<◌, ◌^◌, ◌∷◌, ◌≡◌, ◌≤◌,
}
use fpga_network_processing.TokenBucket.{TokenBucket, Config, Inputs, refills, pkt_allow, posedge}
use fpga_network_processing.TokenBucket.Bounds.{IsBounded, posedge-IsBounded}

-- What arrives at an edge: a packet of a length, or none.
abbrev pub Arrival : Type 0
Arrival = Bool × ℕ

abbrev pub arrives : Config → Arrival → Inputs
arrives cfg a = record { rst_n = true; pkt_valid = a.0; pkt_length = a.1; cfg = cfg }

unfoldable pub run : Config → List Arrival → TokenBucket → TokenBucket
run cfg [] b = b
run cfg (a ∷ xs) b = run cfg xs (posedge (arrives cfg a) b)

-- The bytes let through.
unfoldable pub accepted : Config → List Arrival → TokenBucket → ℕ
accepted cfg [] b = 0
accepted cfg (a ∷ xs) b =
    (if pkt_allow (arrives cfg a) b then a.1 else 0) + accepted cfg xs (posedge (arrives cfg a) b)

-- The edges that refill.
unfoldable pub refill_count : Config → List Arrival → TokenBucket → ℕ
refill_count cfg [] b = 0
refill_count cfg (a ∷ xs) b =
    (if refills cfg b then 1 else 0) + refill_count cfg xs (posedge (arrives cfg a) b)

edge_bytes :
    (cfg : Config) (a : Arrival) (b : TokenBucket)
    → (if pkt_allow (arrives cfg a) b then a.1 else 0) + (posedge (arrives cfg a) b).tokens
      ≤ b.tokens + (if refills cfg b then 1 else 0) * cfg.cfg_rate
unfolding pkt_allow posedge
edge_bytes cfg a b = ground arith

edge_time :
    (cfg : Config) (a : Arrival) (b : TokenBucket)
    → IsBounded cfg b
    → cfg.cfg_interval < 2 ^ 32
    → (posedge (arrives cfg a) b).timer + (if refills cfg b then 1 else 0) * suc cfg.cfg_interval
      ≡ suc b.timer
unfolding posedge
edge_time cfg a b v h = ground arith

distribute : (j k r : ℕ) → (j + k) * r ≡ j * r + k * r
distribute j k r = omega arith

run_bytes :
    (cfg : Config) (xs : List Arrival) (b : TokenBucket)
    → accepted cfg xs b + (run cfg xs b).tokens ≤ b.tokens + refill_count cfg xs b * cfg.cfg_rate
unfolding run accepted refill_count
run_bytes cfg [] b = omega arith
run_bytes cfg (a ∷ xs) b = omega (
  arith,
  run_bytes cfg xs (posedge (arrives cfg a) b),
  edge_bytes cfg a b,
  distribute (if refills cfg b then 1 else 0) (refill_count cfg xs (posedge (arrives cfg a) b))
      cfg.cfg_rate,
)

run_time :
    (cfg : Config) (xs : List Arrival) (b : TokenBucket)
    → IsBounded cfg b
    → cfg.cfg_interval < 2 ^ 32
    → (run cfg xs b).timer + refill_count cfg xs b * suc cfg.cfg_interval ≡ b.timer + length xs
unfolding run refill_count
run_time cfg [] b v h = omega arith
run_time cfg (a ∷ xs) b v h = omega (
  arith,
  run_time cfg xs (posedge (arrives cfg a) b) (posedge-IsBounded (arrives cfg a) b v) h,
  edge_time cfg a b v h,
  distribute (if refills cfg b then 1 else 0) (refill_count cfg xs (posedge (arrives cfg a) b))
      (suc cfg.cfg_interval),
)

lt_of_leb : (r k : ℕ) → leb r k ≡ false → suc k ≤ r
lt_of_leb r k h = ground arith

few_refills : (r k period t m : ℕ) → t + r * period ≡ m → m < suc k * period → r ≤ k
few_refills r k period t m e h = elim (Bool-cases (leb r k)) [
  | inl c ↦ ground arith
  | inr c ↦ absurd (omega (arith, mul-le-mul_right period (lt_of_leb r k c)))
]

-- Over any edges without reset, from a bounded state, under a configuration that does not change,
-- with an interval of 32 bits: with too few edges for `k + 1` periods of `cfg_interval + 1`
-- cycles, counted with the timer's start, the bytes let through and the tokens left are at most
-- the burst and `k` times the rate.
pub accepted-le :
    (cfg : Config) (xs : List Arrival) (b : TokenBucket) (k : ℕ)
    → IsBounded cfg b
    → cfg.cfg_interval < 2 ^ 32
    → b.timer + length xs < suc k * suc cfg.cfg_interval
    → accepted cfg xs b + (run cfg xs b).tokens ≤ cfg.cfg_burst + k * cfg.cfg_rate
accepted-le cfg xs b k v h few =
    let r = refill_count cfg xs b in
    let r_le : r ≤ k =
      few_refills r k (suc cfg.cfg_interval) (run cfg xs b).timer (b.timer + length xs)
        (run_time cfg xs b v h) few in
    omega (arith, run_bytes cfg xs b, mul-le-mul_right cfg.cfg_rate r_le, v.tokens_in)
