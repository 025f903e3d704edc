-- ===== src/Mongo.antt =====
-- What the three stores over MongoDB share: their configuration, the steps of their constructors
-- NewMongoDeviceStore, NewMongoPreferencesStore and NewMongoDLQHandler, and Close. The driver is a
-- parameter: a client, how a ping and the creation of the indexes end, and how a client leaves.
-- An update of one document is atomic; an upsert of a key inserts at most one document.
use grnoti.Prelude.{
  Bool, true, false, Option, none, some, Result, ok, err, List, [], ◌∷◌, String, concat, ◌==◌,
  if◌then◌else◌,
}
use grnoti.Types.{Error, message, wrapped}
use grnoti.Database.{unavailable_error}

-- MongoDeviceStoreConfig, MongoPreferencesStoreConfig, and these fields of MongoDLQHandlerConfig
pub record MongoConfig : Type 0 where
  pub uri : String
  pub database : String
  pub collection_name : String

pub record MongoDriver (Client : Type 0) : Type 0 where
  pub connect : String → Result Error Client
  pub ping : Client → Option Error
  pub create_indexes : Client → String → String → Option Error
  pub disconnect : Client → Option Error

-- mongoDeviceStore, mongoPreferencesStore, and what mongoDLQHandler shares with them
pub record MongoStore (Client T : Type 0) : Type 0 where
  pub client : Client
  pub closed : Bool
  pub collection : T

module _ {Client : Type 0} (driver : MongoDriver Client) where
  -- The client, or the error; and the clients that were disconnected on the way.
  abbrev indexed : Client → Option Error → Result Error Client × List Client
  indexed client (some e) = (err (wrapped "grnoti/mongo: ensure indexes" e), client ∷ [])
  indexed client none = (ok client, [])

  abbrev pinged : String → String → Client → Option Error → Result Error Client × List Client
  pinged database name client (some e) =
      (err (unavailable_error "grnoti/mongo: ping" e), client ∷ [])
  pinged database name client none = indexed client (driver.create_indexes client database name)

  abbrev connected : String → String → Result Error Client → Result Error Client × List Client
  connected database name (err e) = (err (unavailable_error "grnoti/mongo: connect" e), [])
  connected database name (ok client) = pinged database name client (driver.ping client)

  -- `type` is the name of the configuration's type, and `default` its collection.
  unfoldable pub connect_mongo : String → String → MongoConfig → Result Error Client × List Client
  connect_mongo type default cfg =
      if cfg.uri == ""
      then (err (message (concat "grnoti/mongo: " (concat type ".URI is required"))), [])
      else if cfg.database == ""
      then (err (message (concat "grnoti/mongo: " (concat type ".Database is required"))), [])
      else connected cfg.database
          (if cfg.collection_name == "" then default else cfg.collection_name)
          (driver.connect cfg.uri)

  abbrev opened : {T : Type 0} → T → Result Error Client → Result Error (MongoStore Client T)
  opened collection (err e) = err e
  opened collection (ok client) =
      ok (record { client = client; closed = false; collection = collection })

  -- The constructor of a store, on the collection that the database holds.
  unfoldable pub new_mongo_store :
      {T : Type 0}
      → String
      → String
      → MongoConfig
      → T
      → Result Error (MongoStore Client T) × List Client
  new_mongo_store type default cfg collection =
      let connection = connect_mongo type default cfg in
      (opened collection connection.0, connection.1)

  -- Close runs its body once, and only that call gives the client's error.
  unfoldable pub close_mongo_store :
      {T : Type 0} → MongoStore Client T → Option Error × MongoStore Client T
  close_mongo_store s =
      if s.closed then (none, s) else (driver.disconnect s.client, record s { closed = true })
