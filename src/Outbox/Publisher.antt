-- ===== src/Outbox/Publisher.antt =====
-- internal/outbox/publisher.go: `NewKafkaPublisher`, down to the writer that it configures.
pub mod Brokers
use lens_chat_service.Prelude.{
  ℕ, Bool, true, false, ◌==◌, Option, none, some, List, [], ◌∷◌, Result, ok, err, if◌then◌else◌,
}
use lens_chat_service.GoText.{Bytes, text, trim_space, is_blank}
use lens_chat_service.Setting.{KafkaConfig, is_empty, only_one}

put_first : ℕ → List Bytes → List Bytes
put_first a [] = (a ∷ []) ∷ []
put_first a (l ∷ ls) = (a ∷ l) ∷ ls

-- `strings.Split` at one byte.
unfoldable pub split_at : ℕ → Bytes → List Bytes
unfolding put_first
split_at separator [] = [] ∷ []
split_at separator (a ∷ s) =
    let rest = split_at separator s in if a == separator then [] ∷ rest else put_first a rest

-- The loop over the parts.
unfoldable pub brokers_from : List Bytes → List Bytes
brokers_from [] = []
brokers_from (part ∷ parts) =
    let rest = brokers_from parts in
    let broker = trim_space part in if is_empty broker then rest else broker ∷ rest

-- `kafka.Writer` with its `kafka.Transport`; `tls` stands for the configuration with TLS 1.2 as the
-- least version, `plain_credentials` for the mechanism.
pub record Writer : Type 0 where
  pub brokers : List Bytes
  pub topic : Bytes
  pub requires_all_acks : Bool
  pub is_async : Bool
  pub max_attempts : ℕ
  pub creates_topics : Bool
  pub client_id : Bytes
  pub tls : Bool
  pub plain_credentials : Option (Bytes × Bytes)

abbrev pub credentials : KafkaConfig → Option (Bytes × Bytes)
credentials cfg = if is_empty cfg.username then none else some (cfg.username, cfg.password)

with_brokers : KafkaConfig → List Bytes → Result Bytes Writer
with_brokers cfg [] = err (text "KAFKA_BROKERS must contain at least one broker")
with_brokers cfg (b ∷ bs) =
    if is_blank cfg.chat_events_topic
    then err (text "KAFKA_CHAT_EVENTS_TOPIC must not be empty")
    else if only_one cfg.username cfg.password
    then err (text "set both KAFKA_USERNAME and KAFKA_PASSWORD, or leave both unset")
    else ok (record {
      brokers = b ∷ bs;
      topic = cfg.chat_events_topic;
      requires_all_acks = true;
      is_async = false;
      max_attempts = 1;
      creates_topics = false;
      client_id = cfg.client_id;
      tls = cfg.tls;
      plain_credentials = credentials cfg;
    })

unfoldable pub new_kafka_publisher : KafkaConfig → Result Bytes Writer
unfolding with_brokers split_at brokers_from
new_kafka_publisher cfg = with_brokers cfg (brokers_from (split_at 0x2C cfg.brokers))
