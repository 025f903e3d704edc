-- ===== src/Postgres/Tests.antt =====
-- A store over PostgreSQL that dials its pool, with a driver whose pools are numbers.
use grnoti.Prelude.{ℕ, ◌≡◌, none, ok}
use grnoti.Prelude.Int.{pos}
use grnoti.Postgres.{PostgresConfig, Driver, new_postgres_store}
use grnoti.Postgres.Ownership.{closed_pools, dialed_pools, closes_what_it_dialed}

abbrev driver : Driver ℕ
driver = record {
  parse_config =
      λ dsn. ok (record { max_conns = pos 4; min_conns = pos 0; max_conn_lifetime = pos 0 });
  new_with_config = λ timeout settings. ok 7;
  ping = λ timeout pool. none;
}

abbrev from_dsn : PostgresConfig ℕ
from_dsn = record {
  dsn = "postgres://localhost";
  pool = none;
  max_conns = pos 10;
  min_conns = pos 0;
  max_conn_lifetime = pos 0;
  connect_timeout = pos 0;
}

abbrev table : ℕ
table = 0

closes_what_it_dialed_example :
    closed_pools 2 (new_postgres_store driver from_dsn "DeviceStore" table)
    ≡ dialed_pools driver from_dsn
closes_what_it_dialed_example = closes_what_it_dialed driver from_dsn 1 table "DeviceStore"
