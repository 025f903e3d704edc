-- ===== src/RateLimiter/Redis.antt =====
-- ratelimiter.redis.go: redisRateLimiter and its Lua script, the token bucket that all limiters of
-- one key share. Times are in microseconds, as TIME gives them, and tokens in millionths, so that
-- elapsed * refillRate is exact; the rounding of Lua's numbers is left out, but for tostring, which
-- keeps 14 digits: `stored` is what remains of a time.
use Prim.Native.Nat.{min}
use grnoti.Prelude.{
  ℕ, ◌+◌, ◌-◌, ◌*◌, Bool, true, false, Option, none, some, Result, ok, err, List, [], ◌∷◌, String,
  concat, leb, ltb, if◌then◌else◌, ◌==◌,
}
use grnoti.Types.{Error, message, wrapped, err_closed, err_backend_unavailable}
use grnoti.RateLimiter.{
  RateLimiterStats, Counters, no_counts, counted_allow, counted_wait, stats_of, limit_error,
}

-- One token, in millionths, and one second, in microseconds.
abbrev pub million : ℕ
million = 1000000

-- redisRateLimiterKeyTTL
abbrev pub key_ttl : ℕ
key_ttl = 600 * million

-- The hash of a key, with the time at which EXPIRE ends it.
pub record Bucket : Type 0 where
  pub tokens : ℕ
  pub updated_at : ℕ
  pub expires_at : ℕ

-- HMGET of a key: an expired hash is gone.
abbrev pub unexpired : ℕ → Option Bucket → Option Bucket
unexpired now none = none
unexpired now (some b) = if leb b.expires_at now then none else some b

-- The tokens after the refill.
abbrev pub refilled : ℕ → ℕ → ℕ → Option Bucket → ℕ
refilled capacity rate now none = capacity * million
refilled capacity rate now (some b) =
    min (capacity * million) (b.tokens + (now - b.updated_at) * rate)

abbrev pub taken : (ℕ → ℕ) → ℕ → ℕ → Bool × Bucket
taken stored now tokens =
    if leb million tokens
    then (
      true,
      record { tokens = tokens - million; updated_at = stored now; expires_at = now + key_ttl },
    )
    else (false, record { tokens = tokens; updated_at = stored now; expires_at = now + key_ttl })

-- tokenBucketScript
unfoldable pub token_bucket_script : (ℕ → ℕ) → ℕ → ℕ → ℕ → Option Bucket → Bool × Bucket
token_bucket_script stored capacity rate now bucket =
    taken stored now (refilled capacity rate now (unexpired now bucket))

-- redisRateLimiter
pub record RedisRateLimiter : Type 0 where
  pub owns_client : Bool
  pub key : String
  pub requests_per_sec : ℕ
  pub burst_size : ℕ
  pub closed : Bool
  pub counters : Counters

-- `has_client` is whether Client is set. Durations are in microseconds.
pub record RedisRateLimiterConfig : Type 0 where
  pub addr : String
  pub has_client : Bool
  pub password : String
  pub db : ℕ
  pub pool_size : ℕ
  pub dial_timeout : ℕ
  pub read_timeout : ℕ
  pub write_timeout : ℕ
  pub requests_per_second : ℕ
  pub burst_size : ℕ
  pub key : String

abbrev pub positive_or : ℕ → ℕ → ℕ
positive_or value default = if leb value 0 then default else value

-- RedisRateLimiterConfig.withDefaults
unfoldable pub with_defaults : RedisRateLimiterConfig → RedisRateLimiterConfig
with_defaults cfg = record cfg {
  pool_size = positive_or cfg.pool_size 100;
  dial_timeout = positive_or cfg.dial_timeout (5 * million);
  read_timeout = positive_or cfg.read_timeout (3 * million);
  write_timeout = positive_or cfg.write_timeout (3 * million);
  key = if cfg.key == "" then "grnoti:ratelimit:default" else cfg.key;
}

abbrev pub ping_error : Bool → String → Error
ping_error true addr = wrapped "grnoti: ping injected redis client" err_backend_unavailable
ping_error false addr = wrapped (concat "grnoti: connect " addr) err_backend_unavailable

abbrev pub connected : RedisRateLimiterConfig → Bool → Result Error RedisRateLimiter
connected cfg false = err (ping_error cfg.has_client cfg.addr)
connected cfg true = ok (record {
  owns_client = if cfg.has_client then false else true;
  key = cfg.key;
  requests_per_sec = cfg.requests_per_second;
  burst_size = cfg.burst_size;
  closed = false;
  counters = no_counts;
})

abbrev pub same : Bool → Bool → Bool
same true b = b
same false b = if b then false else true

-- The checks of the limit; their texts start with an upper case letter here.
abbrev pub config_limit_error : ℕ → ℕ → Option Error
config_limit_error rate burst =
    if leb rate 0
    then some (message "grnoti: RequestsPerSecond must be > 0")
    else if ltb burst rate
    then some (message "grnoti: BurstSize must be >= RequestsPerSecond")
    else none

-- NewRedisRateLimiter, and whether the ping is answered.
unfoldable pub new_redis_rate_limiter :
    RedisRateLimiterConfig → Bool → Result Error RedisRateLimiter
new_redis_rate_limiter cfg answers =
    if same (cfg.addr == "") (if cfg.has_client then false else true)
    then err (
        message
          "grnoti: exactly one of RedisRateLimiterConfig.Addr or RedisRateLimiterConfig.Client is required")
    else elim (config_limit_error cfg.requests_per_second cfg.burst_size) [
      | some e ↦ err e
      | none ↦ connected (with_defaults cfg) answers
    ]

-- What a call finds: the error of its context, whether the script fails, and the time.
pub record Moment : Type 0 where
  pub cancelled : Option Error
  pub script_fails : Bool
  pub now : ℕ

abbrev pub Allowed : Type 0
Allowed = Result Error Bool × RedisRateLimiter × Option Bucket

abbrev pub scripted : RedisRateLimiter → ℕ → Bool × Bucket → Allowed
scripted r now (allowed, bucket) =
    (ok allowed, record r { counters = counted_allow r.counters allowed now }, some bucket)

module _ (stored : ℕ → ℕ) where
  abbrev pub allow_open : RedisRateLimiter → Option Bucket → Moment → Option Error → Allowed
  allow_open r bucket m (some e) = (err e, r, bucket)
  allow_open r bucket m none =
      if m.script_fails
      then (err (wrapped "grnoti: redis rate limiter eval" err_backend_unavailable), r, bucket)
      else scripted r m.now
          (token_bucket_script stored r.burst_size r.requests_per_sec m.now bucket)

  unfoldable pub redis_allow : RedisRateLimiter → Option Bucket → Moment → Allowed
  redis_allow r bucket m =
      if r.closed then (err err_closed, r, bucket) else allow_open r bucket m m.cancelled

  -- The loop of Wait: a moment per attempt, with the error of the context if it is done before the
  -- next tick. `none` is a call that still waits.
  abbrev pub Waited : Type 0
  Waited = Option (Option Error) × RedisRateLimiter × Option Bucket

  abbrev pub polled : Allowed → Option Error → (RedisRateLimiter → Option Bucket → Waited) → Waited
  polled (err e, r, bucket) ended next = (some (some e), r, bucket)
  polled (ok true, r, bucket) ended next = (some none, r, bucket)
  polled (ok false, r, bucket) (some e) next = (some (some e), r, bucket)
  polled (ok false, r, bucket) none next = next r bucket

  unfoldable pub poll : List (Moment × Option Error) → RedisRateLimiter → Option Bucket → Waited
  poll [] r bucket = (none, r, bucket)
  poll ((m, ended) ∷ rest) r bucket = polled (redis_allow r bucket m) ended (poll rest)

  unfoldable pub redis_wait :
      RedisRateLimiter → Option Bucket → List (Moment × Option Error) → Waited
  redis_wait r bucket attempts =
      if r.closed
      then (some (some err_closed), r, bucket)
      else poll attempts (record r { counters = counted_wait r.counters }) bucket

unfoldable pub redis_get_stats : RedisRateLimiter → Result Error RateLimiterStats
redis_get_stats r =
    if r.closed then err err_closed else ok (stats_of r.requests_per_sec r.burst_size r.counters)

unfoldable pub redis_update_limit : RedisRateLimiter → ℕ → ℕ → Option Error × RedisRateLimiter
redis_update_limit r rate burst =
    if r.closed then (some err_closed, r) else elim (limit_error rate burst) [
      | some e ↦ (some e, r)
      | none ↦ (none, record r { requests_per_sec = rate; burst_size = burst })
    ]

-- Close, with the error of closing the client: the first call only, and only of an own client.
unfoldable pub redis_close : RedisRateLimiter → Option Error → Option Error × RedisRateLimiter
redis_close r client_error =
    if r.closed
    then (none, r)
    else (if r.owns_client then client_error else none, record r { closed = true })
