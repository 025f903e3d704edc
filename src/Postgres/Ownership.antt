-- ===== src/Postgres/Ownership.antt =====
-- postgres.go, connectPostgres and the four Close methods: who closes the pool of a store.
use grnoti.Prelude.{
  ℕ, zero, suc, ◌≡◌, refl, ap, Bool, true, false, Option, none, some, Result, ok, err, List, [],
  ◌∷◌, ◌++◌, String, if◌then◌else◌, Bool-cases, inl, inr,
}
use grnoti.Prelude.Int.{ℤ}
use grnoti.Types.{Error}
use grnoti.Postgres.{
  PostgresConfig, PoolSettings, Driver, Connected, PostgresStore, is_ambiguous, tuned, set_or,
  ten_seconds, pinged_supplied, pinged_own, dialed, parsed, connect_with, connect_postgres,
  constructed, new_postgres_store, close_store, close_times,
}

module _ {Pool : Type 0} where
  abbrev list_of : Result Error Pool → List Pool
  list_of (err e) = []
  list_of (ok pool) = pool ∷ []

  abbrev dialed_for : Driver Pool → PostgresConfig Pool → Result Error PoolSettings → List Pool
  dialed_for driver cfg (err e) = []
  dialed_for driver cfg (ok settings) =
      list_of (driver.new_with_config (set_or cfg.connect_timeout ten_seconds) (tuned cfg settings))

  abbrev dialed_without : Driver Pool → PostgresConfig Pool → Option Pool → List Pool
  dialed_without driver cfg (some pool) = []
  dialed_without driver cfg none = dialed_for driver cfg (driver.parse_config cfg.dsn)

  -- The pools that the driver opens for a configuration.
  abbrev pub dialed_pools : Driver Pool → PostgresConfig Pool → List Pool
  dialed_pools driver cfg =
      if is_ambiguous cfg.dsn cfg.pool then [] else dialed_without driver cfg cfg.pool

module _ {Pool T : Type 0} where
  abbrev closed_later : ℕ → Result Error (PostgresStore Pool T) → List Pool
  closed_later n (err e) = []
  closed_later n (ok s) = (close_times n s).0

  -- All that is closed by a constructor and by some calls of Close on the store it gives.
  abbrev pub closed_pools : ℕ → Result Error (PostgresStore Pool T) × List Pool → List Pool
  closed_pools n made = made.1 ++ closed_later n made.0

  closed_stays :
      (n : ℕ) (pool : Pool) (owns : Bool) (t : T)
      → (close_times n (record { pool = pool; owns_pool = owns; closed = true; table = t })).0 ≡ []
  unfolding close_times close_store
  closed_stays zero pool owns t = refl
  closed_stays (suc n) pool owns t = closed_stays n pool owns t

  abbrev made_from : T → Connected Pool → Result Error (PostgresStore Pool T) × List Pool
  made_from t connection = (constructed t connection.0, connection.1)

  own_closed :
      (n : ℕ) (t : T) (pool : Pool) (answer : Option Error)
      → closed_pools (suc n) (made_from t (pinged_own pool answer)) ≡ pool ∷ []
  unfolding close_times close_store
  own_closed n t pool (some e) = refl
  own_closed n t pool none = ap (λ ps. pool ∷ ps) (closed_stays n pool true t)

  supplied_kept :
      (n : ℕ) (t : T) (pool : Pool) (answer : Option Error)
      → closed_pools (suc n) (made_from t (pinged_supplied pool answer)) ≡ []
  unfolding close_times close_store
  supplied_kept n t pool (some e) = refl
  supplied_kept n t pool none = closed_stays n pool false t

  module _ (driver : Driver Pool) (cfg : PostgresConfig Pool) (n : ℕ) (t : T) where
    dialed_closed :
        (timeout : ℤ) (dial : Result Error Pool)
        → closed_pools (suc n) (made_from t (dialed driver timeout dial)) ≡ list_of dial
    dialed_closed timeout (err e) = refl
    dialed_closed timeout (ok pool) = own_closed n t pool (driver.ping timeout pool)

    parsed_closed :
        (settings : Result Error PoolSettings)
        → closed_pools (suc n) (made_from t (parsed driver cfg settings))
          ≡ dialed_for driver cfg settings
    parsed_closed (err e) = refl
    parsed_closed (ok settings) =
        let timeout = set_or cfg.connect_timeout ten_seconds in
        dialed_closed timeout (driver.new_with_config timeout (tuned cfg settings))

    connected_closed :
        (pool : Option Pool)
        → closed_pools (suc n) (made_from t (connect_with driver cfg pool))
          ≡ dialed_without driver cfg pool
    connected_closed (some pool) = supplied_kept n t pool (driver.ping ten_seconds pool)
    connected_closed none = parsed_closed (driver.parse_config cfg.dsn)

    -- The pools that are closed by the constructor of a store over PostgreSQL and then by one or
    -- more calls of Close are exactly those that were dialed for it, each once: a pool whose ping
    -- fails is closed on the spot, a second Close closes nothing, and a supplied pool stays open.
    pub closes_what_it_dialed :
        (component : String)
        → closed_pools (suc n) (new_postgres_store driver cfg component t) ≡ dialed_pools driver cfg
    unfolding new_postgres_store connect_postgres
    closes_what_it_dialed component = elim (Bool-cases (is_ambiguous cfg.dsn cfg.pool)) [
      | inl e ↦ rw e refl
      | inr e ↦ rw e (connected_closed cfg.pool)
    ]
