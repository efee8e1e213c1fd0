-- ===== src/Dispatcher/Streams.antt =====
-- control/dispatcher/streams.py. The mapping `streams` of config/queues.yaml is an argument; a
-- prefix is a text.
use trail_signal_os.Prelude.{
  ℕ, zero, suc, ◌+◌, ◌≡◌, refl, Bool, true, ◌&&◌, not, Option, none, some, List, [], ◌∷◌, ◌==◌,
  if◌then◌else◌, any, arith, Bool-cases, inl, inr,
}
use trail_signal_os.Store.{Tier, high, normal, bulk, repair, named, StreamName}
use trail_signal_os.Store.Lanes.{
  Lane, Lane.http, Lane.browser, Lane.search as search_lane, Lane.media, Lane.extract, Lane.enrich,
  Lane.document, Lane.index, Lane.other,
}
use trail_signal_os.Guards.{Result, ok, err, value_error, ◌>>=◌}

pub record StreamSpec : Type 0 where
  pub name_prefix : ℕ
  pub tiers : List Tier

abbrev pub StreamsConfig : Type 0
StreamsConfig = Lane → Option StreamSpec

abbrev spec : ℕ → List Tier → Option StreamSpec
spec p ts = some (record { name_prefix = p; tiers = ts })

-- config/queues.yaml, with the prefixes numbered in the order of the file.
abbrev pub default_streams : StreamsConfig
default_streams search_lane = spec 0 (high ∷ normal ∷ bulk ∷ [])
default_streams http = spec 1 (high ∷ normal ∷ bulk ∷ [])
default_streams browser = spec 2 (high ∷ normal ∷ repair ∷ [])
default_streams media = spec 3 (normal ∷ [])
default_streams extract = spec 4 (high ∷ normal ∷ bulk ∷ [])
default_streams enrich = spec 5 (normal ∷ [])
default_streams document = spec 6 (normal ∷ [])
default_streams index = spec 7 (normal ∷ [])
default_streams (other n) = none

abbrev tier_code : Tier → ℕ
tier_code high = 0
tier_code normal = 1
tier_code bulk = 2
tier_code repair = 3
tier_code (named n) = 4 + n

abbrev pub tier_eq : Tier → Tier → Bool
tier_eq a b = tier_code a == tier_code b

-- `tier in tiers`
abbrev pub has_tier : List Tier → Tier → Bool
has_tier tiers t = any (tier_eq t) tiers

-- `_PRIORITY_TO_TIER.get(priority, "normal")`
abbrev pub default_tier : ℕ → Tier
default_tier zero = high
default_tier (suc zero) = high
default_tier (suc (suc zero)) = normal
default_tier (suc (suc (suc zero))) = bulk
default_tier (suc (suc (suc (suc n)))) = normal

abbrev or_repair : List Tier → Tier → Tier
or_repair tiers tier =
    if tier_eq tier bulk && (not (has_tier tiers bulk) && has_tier tiers repair)
    then repair
    else tier

-- The tiers are not empty here.
abbrev or_present : Tier → List Tier → Tier → Tier
or_present first tiers tier =
    if has_tier tiers tier then tier else if has_tier tiers normal then normal else first

choose_tier : List Tier → ℕ → Result Tier
choose_tier [] priority = err value_error
choose_tier (t ∷ []) priority = ok t
choose_tier (t ∷ u ∷ ts) priority =
    ok (or_present t (t ∷ u ∷ ts) (or_repair (t ∷ u ∷ ts) (default_tier priority)))

unfoldable pub priority_to_tier : StreamsConfig → Lane → ℕ → Result Tier
unfolding choose_tier
priority_to_tier streams lane priority = go (streams lane)
  where
    go : Option StreamSpec → Result Tier
    go none = err value_error
    go (some s) = choose_tier s.tiers priority

unfoldable pub resolve_stream_name : StreamsConfig → Lane → ℕ → Result StreamName
unfolding priority_to_tier
resolve_stream_name streams lane priority = go (streams lane)
  where
    go : Option StreamSpec → Result StreamName
    go none = err value_error
    go (some s) = do
      tier ← priority_to_tier streams lane priority
      ok (record { prefix = s.name_prefix; tier = tier })

choose_tier_present :
    (t : Tier) (ts : List Tier) (priority : ℕ)
    → (tier : Tier) × (choose_tier (t ∷ ts) priority ≡ ok tier) × (has_tier (t ∷ ts) tier ≡ true)
unfolding choose_tier
choose_tier_present t [] priority = (t, refl, ground arith)
choose_tier_present t (u ∷ ts) priority =
    let tiers = t ∷ u ∷ ts in
    let wanted = or_repair tiers (default_tier priority) in
    elim (Bool-cases (has_tier tiers wanted)) [
      | inl e ↦ (wanted, rw e refl, e)
      | inr e ↦ elim (Bool-cases (has_tier tiers normal)) [
        | inl f ↦ (normal, rw (e, f) refl, f)
        | inr f ↦ (t, rw (e, f) refl, ground arith)
      ]
    ]

-- Of a lane with a tier, every priority resolves to a stream: the prefix of the lane and one of its
-- own tiers.
pub resolve_stream_name_lem :
    (streams : StreamsConfig) (lane : Lane) (priority : ℕ) (prefix : ℕ) (t : Tier) (ts : List Tier)
    → streams lane ≡ some (record { name_prefix = prefix; tiers = t ∷ ts })
    → (tier : Tier) × (resolve_stream_name streams lane priority
        ≡ ok (record { prefix = prefix; tier = tier }))
      × (has_tier (t ∷ ts) tier ≡ true)
unfolding resolve_stream_name
resolve_stream_name_lem streams lane priority prefix t ts e =
    let (tier, chosen, present) = choose_tier_present t ts priority in
    (tier, ground (arith, chosen), present)

pub unknown_lane_raises :
    (streams : StreamsConfig) (lane : Lane) (priority : ℕ)
    → streams lane ≡ none
    → resolve_stream_name streams lane priority ≡ err value_error
unfolding resolve_stream_name
unknown_lane_raises streams lane priority e = ground arith
