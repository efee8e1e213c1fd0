-- ===== src/Store/Lanes.antt =====
-- The lanes of config/queues.yaml. The column is a text: `other` is any text but these eight.
use trail_signal_os.Prelude.{ℕ, ◌+◌, ◌==◌, Bool, ◌≡◌, arith}

pub data Lane : Type 0 where
  search http browser media extract enrich document index : Lane
  other : ℕ → Lane

abbrev pub lane_code : Lane → ℕ
lane_code search = 0
lane_code http = 1
lane_code browser = 2
lane_code media = 3
lane_code extract = 4
lane_code enrich = 5
lane_code document = 6
lane_code index = 7
lane_code (other n) = 8 + n

-- `lane = %s`
abbrev pub lane_eq : Lane → Lane → Bool
lane_eq a b = lane_code a == lane_code b

pub eq_of_code : (a b : Lane) → lane_code a ≡ lane_code b → a ≡ b
eq_of_code a b h = ground arith
