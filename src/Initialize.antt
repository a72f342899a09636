-- ===== src/Initialize.antt =====
-- internal/initialize/run.go: what `Run` opens and closes, in which order. The answers of the
-- libraries that it calls are its input.
pub mod Closing
use lens_chat_service.Prelude.{
  Bool, true, false, ◌||◌, Option, none, some, List, [], ◌∷◌, ◌++◌, Result, ok, err, if◌then◌else◌,
}
use lens_chat_service.GoText.{Bytes, text, str_eq}
use lens_chat_service.Setting.{Config, check_config}
use lens_chat_service.Middleware.Verifier.{KeycloakVerifier, new_verifier}
use lens_chat_service.Outbox.Publisher.{Writer, new_kafka_publisher}

-- The context of the start, the MongoDB client, the Kafka publisher, the goroutine of the relay and
-- the goroutine of the HTTP server.
pub data Resource : Type 0 where
  startup client publisher relay server : Resource

pub data Effect : Type 0 where
  opened : Resource → Effect
  closed : Resource → Effect

-- How serving ends: the server by itself, `none` being `http.ErrServerClosed`, or by the context,
-- with the error of `Shutdown`.
pub data Serving : Type 0 where
  ended : Option Bytes → Serving
  stopped : Option Bytes → Serving

-- What the calls answer, an error being its text: the settings as they are read, the file of the
-- key, the parser of the key, `mongo.Connect`, `Ping`, the three `EnsureIndexes` and the serving.
pub record Outside (Key : Type 0) : Type 0 where
  pub settings : Result Bytes Config
  pub read_file : Bytes → Result Bytes Bytes
  pub parse_pem : Bytes → Result Bytes Key
  pub connecting : Option Bytes
  pub pinging : Option Bytes
  pub channel_indexes : Option Bytes
  pub message_indexes : Option Bytes
  pub outbox_indexes : Option Bytes
  pub serving : Serving

-- The result of a function and what it did.
pub record Outcome (A : Type 0) : Type 0 where
  pub result : Result Bytes A
  pub effects : List Effect

-- `gin.DebugMode`, `gin.ReleaseMode` and `gin.TestMode` are known.
unfoldable pub set_gin_mode : Bytes → Result Bytes (Unit {0})
set_gin_mode mode =
    if str_eq mode (text "debug") || (str_eq mode (text "release") || str_eq mode (text "test"))
    then ok tt
    else err (text "invalid server mode")

infixl 5 ◌>>=◌
abbrev ◌>>=◌ : {A B : Type 0} → Result Bytes A → (A → Result Bytes B) → Result Bytes B
ok a >>= f = f a
err e >>= f = err e

-- `x, err := f(); if err != nil { return err }` of a function without effects.
abbrev pub checked : {A B : Type 0} → Result Bytes A → (A → Outcome B) → Outcome B
checked (ok a) k = k a
checked (err e) k = record { result = err e; effects = [] }

-- `if err := f(); err != nil { return err }`
abbrev pub passing : {B : Type 0} → Option Bytes → Outcome B → Outcome B
passing none rest = rest
passing (some e) rest = record { result = err e; effects = [] }

-- The effects of a block between those of what it opens and of the deferred calls.
abbrev pub between : {B : Type 0} → List Effect → Outcome B → List Effect → Outcome B
between before o after = record { result = o.result; effects = before ++ (o.effects ++ after) }

-- `serveHTTP`; a server that cannot be shut down in time is closed.
unfoldable pub serve_http : Serving → Outcome (Unit {0})
serve_http (ended none) = record { result = ok tt; effects = opened server ∷ closed server ∷ [] }
serve_http (ended (some e)) = record {
  result = err e;
  effects = opened server ∷ closed server ∷ [];
}
serve_http (stopped none) = record { result = ok tt; effects = opened server ∷ closed server ∷ [] }
serve_http (stopped (some e)) = record {
  result = err e;
  effects = opened server ∷ closed server ∷ [];
}

module _ {Key : Type 0} (outside : Outside Key) where
  unfoldable pub load_runtime_config : Result Bytes (Config × KeycloakVerifier Key)
  load_runtime_config = do
    settings ← outside.settings
    cfg ← check_config settings
    verifier ← new_verifier outside.read_file outside.parse_pem cfg.keycloak
    _ ← set_gin_mode cfg.server.mode
    ok (cfg, verifier)

  -- `initializeRepositories`
  unfoldable pub initialize_repositories : {A : Type 0} → Outcome A → Outcome A
  initialize_repositories rest =
      passing outside.channel_indexes
        (passing outside.message_indexes (passing outside.outbox_indexes rest))

  -- `connectMongo`, the rest of `Run`, and `mongoRuntime.Close`, which is also called where the ping
  -- fails.
  unfoldable pub with_mongo : Outcome (Unit {0}) → Outcome (Unit {0})
  with_mongo rest =
      between (opened startup ∷ [])
        (passing outside.connecting
          (between (opened client ∷ []) (passing outside.pinging rest) (closed client ∷ [])))
        (closed startup ∷ [])

  -- `startOutboxRelay`, the rest of `Run`, and `relayRuntime.Close`.
  unfoldable pub with_relay : Config → Outcome (Unit {0}) → Outcome (Unit {0})
  with_relay cfg rest = checked (new_kafka_publisher cfg.kafka) λ _.
      between (opened publisher ∷ []) (between (opened relay ∷ []) rest (closed relay ∷ []))
        (closed publisher ∷ [])

  unfoldable pub run : Outcome (Unit {0})
  unfolding load_runtime_config initialize_repositories with_mongo with_relay serve_http
  run =
      checked load_runtime_config
        λ c. with_mongo (initialize_repositories (with_relay c.0 (serve_http outside.serving)))
