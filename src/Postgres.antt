-- ===== src/Postgres.antt =====
-- postgres.go: the conversions between Go's values and the columns, and connectPostgres. The pgx
-- package is a parameter: what it makes of a DSN, how a dial ends, and how a ping ends. A pool is
-- opaque. Times count from Go's zero time, so the zero time is 0.
pub mod Ownership
pub mod Tests
use grnoti.Prelude.{
  ℕ, zero, suc, ◌≡◌, arith, ◌^◌, ◌-◌, Bool, true, false, not, Option, none, some, Result, ok, err,
  List, [], ◌∷◌, ◌++◌, String, concat, ◌==◌, eqb, if◌then◌else◌, is_some,
}
use grnoti.Prelude.Int.{ℤ, pos, negsuc, ltb_ℤ}
use grnoti.Types.{Error, message, wrapped}
use grnoti.Database.{unavailable_error, whole, micros}

-- pgtype.Timestamptz
pub record Timestamptz : Type 0 where
  pub time : ℕ
  pub valid : Bool

-- pgx sends the value to its column, or to a test of a column, in whole microseconds: a value is
-- only ever made for a statement, so they are taken here.
abbrev pub pg_timestamptz : ℕ → Timestamptz
pg_timestamptz t = record { time = micros t; valid = not (eqb t 0) }

abbrev pub pg_time : Timestamptz → ℕ
pg_time t = if not t.valid then 0 else t.time

-- A time comes back from its column in whole microseconds.
pub pg_time-pg_timestamptz : (t : ℕ) → pg_time (pg_timestamptz t) ≡ micros t
unfolding whole
pg_time-pg_timestamptz t = ground arith

abbrev max_int32 : ℤ
max_int32 = pos (2 ^ 31 - 1)

abbrev min_int32 : ℤ
min_int32 = negsuc (2 ^ 31 - 1)

unfoldable pub pg_int32 : ℤ → ℤ
pg_int32 n = if ltb_ℤ max_int32 n then max_int32 else if ltb_ℤ n min_int32 then min_int32 else n

pub record PostgresConfig (Pool : Type 0) : Type 0 where
  pub dsn : String
  pub pool : Option Pool
  pub max_conns : ℤ
  pub min_conns : ℤ
  pub max_conn_lifetime : ℤ
  pub connect_timeout : ℤ

-- The fields of pgxpool.Config that are set here.
pub record PoolSettings : Type 0 where
  pub max_conns : ℤ
  pub min_conns : ℤ
  pub max_conn_lifetime : ℤ

-- pgxpool. The durations are the timeouts of the contexts.
pub record Driver (Pool : Type 0) : Type 0 where
  pub parse_config : String → Result Error PoolSettings
  pub new_with_config : ℤ → PoolSettings → Result Error Pool
  pub ping : ℤ → Pool → Option Error

abbrev pub ten_seconds : ℤ
ten_seconds = pos 10000000000

abbrev pub set_or : ℤ → ℤ → ℤ
set_or n default = if ltb_ℤ (pos 0) n then n else default

-- The pool with whether it is owned, or the error; and the pools that were closed on the way.
abbrev pub Connected : Type 0 → Type 0
Connected Pool = Result Error (Pool × Bool) × List Pool

-- (cfg.DSN == "") == (cfg.Pool == nil)
abbrev pub is_ambiguous : {Pool : Type 0} → String → Option Pool → Bool
is_ambiguous dsn none = dsn == ""
is_ambiguous dsn (some pool) = not (dsn == "")

module _ {Pool : Type 0} where
  abbrev pub tuned : PostgresConfig Pool → PoolSettings → PoolSettings
  tuned cfg settings = record {
    max_conns = set_or cfg.max_conns settings.max_conns;
    min_conns = set_or cfg.min_conns settings.min_conns;
    max_conn_lifetime = set_or cfg.max_conn_lifetime settings.max_conn_lifetime;
  }

  abbrev pub pinged_supplied : Pool → Option Error → Connected Pool
  pinged_supplied pool (some e) = (err (unavailable_error "grnoti/postgres: ping" e), [])
  pinged_supplied pool none = (ok (pool, false), [])

  abbrev pub pinged_own : Pool → Option Error → Connected Pool
  pinged_own pool (some e) = (err (unavailable_error "grnoti/postgres: ping" e), pool ∷ [])
  pinged_own pool none = (ok (pool, true), [])

  abbrev pub dialed : Driver Pool → ℤ → Result Error Pool → Connected Pool
  dialed driver timeout (err e) = (err (unavailable_error "grnoti/postgres: connect" e), [])
  dialed driver timeout (ok pool) = pinged_own pool (driver.ping timeout pool)

  abbrev pub parsed : Driver Pool → PostgresConfig Pool → Result Error PoolSettings → Connected Pool
  parsed driver cfg (err e) = (err (wrapped "grnoti/postgres: parse DSN" e), [])
  parsed driver cfg (ok settings) =
      let timeout = set_or cfg.connect_timeout ten_seconds in
      dialed driver timeout (driver.new_with_config timeout (tuned cfg settings))

  abbrev pub connect_with : Driver Pool → PostgresConfig Pool → Option Pool → Connected Pool
  connect_with driver cfg (some pool) = pinged_supplied pool (driver.ping ten_seconds pool)
  connect_with driver cfg none = parsed driver cfg (driver.parse_config cfg.dsn)

  unfoldable pub connect_postgres : Driver Pool → PostgresConfig Pool → String → Connected Pool
  connect_postgres driver cfg component =
      if is_ambiguous cfg.dsn cfg.pool
      then (
        err (
            message
              (concat "grnoti/postgres: exactly one of DSN or Pool is required for " component)),
        [],
      )
      else connect_with driver cfg cfg.pool

-- What each of the four stores over PostgreSQL is: its connection, its flag, and its table.
pub record PostgresStore (Pool T : Type 0) : Type 0 where
  pub pool : Pool
  pub owns_pool : Bool
  pub closed : Bool
  pub table : T

module _ {Pool T : Type 0} where
  abbrev pub constructed : T → Result Error (Pool × Bool) → Result Error (PostgresStore Pool T)
  constructed table (err e) = err e
  constructed table (ok connection) =
      ok (record { pool = connection.0; owns_pool = connection.1; closed = false; table = table })

  -- The constructor of a store, on the table that the database holds, and the closed pools.
  unfoldable pub new_postgres_store :
      Driver Pool
      → PostgresConfig Pool
      → String
      → T
      → Result Error (PostgresStore Pool T) × List Pool
  new_postgres_store driver cfg component table =
      let connection = connect_postgres driver cfg component in
      (constructed table connection.0, connection.1)

  -- Close: its body runs once. The pools that it closes come with the store.
  unfoldable pub close_store : PostgresStore Pool T → List Pool × PostgresStore Pool T
  close_store s =
      if s.closed
      then ([], s)
      else (if s.owns_pool then s.pool ∷ [] else [], record s { closed = true })

  -- Some calls of Close, with all the pools that they close.
  unfoldable pub close_times : ℕ → PostgresStore Pool T → List Pool × PostgresStore Pool T
  close_times zero s = ([], s)
  close_times (suc n) s =
      let first = close_store s in let rest = close_times n first.1 in (first.0 ++ rest.0, rest.1)
