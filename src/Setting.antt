-- ===== src/Setting.antt =====
-- pkg/setting/config.go, and the checks of internal/initialize/config.go on what was read.
pub mod Checks
use lens_chat_service.Prelude.{
  ℕ, ℤ, pos, ltb_ℤ, Bool, true, false, not, ◌&&◌, ◌||◌, List, [], ◌∷◌, Result, ok, err, ◌==◌,
  if◌then◌else◌,
}
use lens_chat_service.GoText.{Bytes, text, str_eq, is_blank}

-- A `time.Duration`, in nanoseconds.
abbrev pub Duration : Type 0
Duration = ℤ

pub record ServerConfig : Type 0 where
  pub address : Bytes
  pub mode : Bytes
  pub shutdown_timeout : Duration

pub record MongoConfig : Type 0 where
  pub uri : Bytes
  pub database : Bytes

pub record KeycloakConfig : Type 0 where
  pub issuer : Bytes
  pub audience : Bytes
  pub public_key : Bytes
  pub public_key_file : Bytes

pub record AuthConfig : Type 0 where
  pub disabled : Bool
  pub default_user_id : Bytes

pub record KafkaConfig : Type 0 where
  pub brokers : Bytes
  pub client_id : Bytes
  pub chat_events_topic : Bytes
  pub username : Bytes
  pub password : Bytes
  pub tls : Bool
  pub outbox_poll_interval : Duration
  pub outbox_lease_duration : Duration
  pub publish_timeout : Duration

-- `allow_origins` is the one field of `CORSConfig`.
pub record Config : Type 0 where
  pub server : ServerConfig
  pub mongo : MongoConfig
  pub keycloak : KeycloakConfig
  pub auth : AuthConfig
  pub allow_origins : List Bytes
  pub kafka : KafkaConfig
  pub ai_worker_token : Bytes

abbrev pub is_empty : Bytes → Bool
is_empty s = str_eq s (text "")

-- `d <= 0`
abbrev pub not_positive : Duration → Bool
not_positive d = not (ltb_ℤ (pos 0) d)

-- `strings.Contains(s, "*")`
unfoldable pub has_star : Bytes → Bool
has_star [] = false
has_star (a ∷ s) = a == 42 || has_star s

unfoldable pub any_star : List Bytes → Bool
unfolding has_star
any_star [] = false
any_star (o ∷ os) = has_star o || any_star os

-- `len(origins) == 0`
abbrev pub is_none_listed : List Bytes → Bool
is_none_listed [] = true
is_none_listed (_ ∷ _) = false

-- `(a == "") != (b == "")`
abbrev pub only_one : Bytes → Bytes → Bool
only_one a b = (is_empty a && not (is_empty b)) || (not (is_empty a) && is_empty b)

-- `if test { return setting.Config{}, errors.New(message) }`
unfoldable pub refuse_if : Bool → Bytes → Result Bytes Config → Result Bytes Config
refuse_if test message rest = if test then err message else rest

unfoldable pub check_kafka : Config → Result Bytes Config
check_kafka cfg =
    let k = cfg.kafka in
    refuse_if (is_blank k.brokers || (is_blank k.client_id || is_blank k.chat_events_topic))
      (text "Kafka brokers, client ID, and chat events topic are required")
      (refuse_if (only_one k.username k.password)
        (text "set both KAFKA_USERNAME and KAFKA_PASSWORD, or leave both unset")
        (refuse_if
          (not_positive k.outbox_poll_interval
            || (not_positive k.outbox_lease_duration
                || (not_positive k.publish_timeout
                    || not (ltb_ℤ k.publish_timeout k.outbox_lease_duration))))
          (text
            "Kafka outbox intervals must be positive and lease duration must exceed publish timeout")
          (ok cfg)))

-- The part of `LoadConfig` after the settings have been read.
unfoldable pub check_config : Config → Result Bytes Config
check_config cfg = refuse_if (is_empty cfg.keycloak.issuer) (text "KEYCLOAK_ISSUER is required") (
    refuse_if (is_empty cfg.keycloak.audience) (text "KEYCLOAK_AUDIENCE is required") (
      refuse_if
        (not_positive cfg.server.shutdown_timeout
          || (is_empty cfg.mongo.uri || is_empty cfg.mongo.database))
        (text "invalid server or Mongo configuration")
        (refuse_if (is_none_listed cfg.allow_origins) (text "CORS allow-origins must not be empty")
          (refuse_if (any_star cfg.allow_origins) (text "CORS requires explicit origins") (
            refuse_if (is_empty cfg.keycloak.public_key && is_empty cfg.keycloak.public_key_file)
              (text "KEYCLOAK_PUBLIC_KEY or KEYCLOAK_PUBLIC_KEY_FILE is required")
              (refuse_if (cfg.auth.disabled && is_blank cfg.auth.default_user_id)
                (text "AUTH_DEFAULT_USER_ID is required when authentication is disabled")
                (check_kafka cfg)))))))
