-- ===== src/Tests/Settings.antt =====
-- A configuration that the service starts with, and one that it refuses.
use lens_chat_service.Prelude.{◌≡◌, refl, pos, false, [], ◌∷◌, ok, err, none, some}
use lens_chat_service.GoText.{text, str_eq, is_blank, trim_space}
use lens_chat_service.Setting.{Config, has_star, any_star, refuse_if, check_kafka, check_config}
use lens_chat_service.Setting.Checks.{IsSound, check_config-IsSound}
use lens_chat_service.Middleware.Verifier.{wrap_base64}
use lens_chat_service.Middleware.Verifier.Wrapping.{Wraps, wrap_base64-Wraps}
use lens_chat_service.Outbox.Publisher.{new_kafka_publisher, split_at, brokers_from}
use lens_chat_service.Outbox.Publisher.Brokers.{Connects, new_kafka_publisher-Connects}
use lens_chat_service.Initialize.{Outside, stopped, run}
use lens_chat_service.Initialize.Closing.{Orderly, whole_run, run-Orderly}

abbrev sample : Config
sample = record {
  server = record { address = text ":8080"; mode = text "release"; shutdown_timeout = pos 10 };
  mongo = record { uri = text "mongodb://localhost/"; database = text "chat_direct" };
  keycloak = record {
    issuer = text "i";
    audience = text "a";
    public_key = text "k";
    public_key_file = text "";
  };
  auth = record { disabled = false; default_user_id = text "" };
  allow_origins = text "http://localhost" ∷ [];
  kafka = record {
    brokers = text "localhost:9092";
    client_id = text "chat-service";
    chat_events_topic = text "t";
    username = text "";
    password = text "";
    tls = false;
    outbox_poll_interval = pos 1;
    outbox_lease_duration = pos 30;
    publish_timeout = pos 10;
  };
  ai_worker_token = text "";
}

sample-accepted : check_config sample ≡ ok sample
unfolding check_config check_kafka refuse_if any_star has_star str_eq is_blank trim_space
sample-accepted = refl

abbrev open_to_all : Config
open_to_all = record sample { allow_origins = text "https://*.example" ∷ [] }

open_to_all-refused : check_config open_to_all ≡ err (text "CORS requires explicit origins")
unfolding check_config check_kafka refuse_if any_star has_star str_eq is_blank trim_space
open_to_all-refused = refl

check_config-IsSound_example : IsSound sample
check_config-IsSound_example = check_config-IsSound sample sample-accepted

wrap_base64-Wraps_example : Wraps (text " MIIB IjAN ") (wrap_base64 (text " MIIB IjAN "))
wrap_base64-Wraps_example = wrap_base64-Wraps (text " MIIB IjAN ")

two_brokers :
    brokers_from (split_at 0x2C (text "k1:9092, ,k2:9092 ,")) ≡ text "k1:9092" ∷ text "k2:9092" ∷ []
unfolding brokers_from split_at trim_space str_eq
two_brokers = refl

new_kafka_publisher-Connects_example : Connects sample.kafka (new_kafka_publisher sample.kafka)
new_kafka_publisher-Connects_example = new_kafka_publisher-Connects sample.kafka

-- All goes well until the server is stopped, which cannot shut down in time.
abbrev outside : Outside (Unit {0})
outside = record {
  settings = ok sample;
  read_file = λ _. err (text "no such file");
  parse_pem = λ _. ok tt;
  connecting = none;
  pinging = none;
  channel_indexes = none;
  message_indexes = none;
  outbox_indexes = none;
  serving = stopped (some (text "deadline exceeded"));
}

run-Orderly_example : Orderly whole_run (run outside)
run-Orderly_example = run-Orderly outside
