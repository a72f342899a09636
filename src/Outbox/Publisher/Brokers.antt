-- ===== src/Outbox/Publisher/Brokers.antt =====
-- Which brokers the publisher writes to, and when there is no publisher.
use lens_chat_service.Prelude.{
  ◌≡◌, ◌≢◌, refl, sym, subst, ap, ◌∙◌, ◌⊎◌, inl, inr, true, false, Bool-cases, Option, none, some,
  List, [], ◌∷◌, Result, ok, err, IsIn, arith,
}
use lens_chat_service.GoText.{Bytes, str_eq_iff, trim_space, is_blank}
use lens_chat_service.Setting.{KafkaConfig, is_empty, only_one}
use lens_chat_service.Outbox.Publisher.{
  Writer, credentials, split_at, brokers_from, with_brokers, new_kafka_publisher,
}

-- A part of the list between commas, without the white space around it, that is not empty.
abbrev pub IsBroker : List Bytes → Bytes → Type 0
IsBroker parts b = (part : Bytes) × IsIn part parts × (b ≡ trim_space part) × (b ≢ [])

brokers_from-IsBroker :
    (parts : List Bytes) (b : Bytes) → IsIn b (brokers_from parts) → IsBroker parts b
unfolding brokers_from
brokers_from-IsBroker [] b = λ i. absurd i
brokers_from-IsBroker (part ∷ parts) b =
    let later : IsIn b (brokers_from parts) → IsBroker (part ∷ parts) b =
      λ i. let (p, j, e, n) = brokers_from-IsBroker parts b i in (p, inr j, e, n) in
    elim (Bool-cases (is_empty (trim_space part))) [
      | inl h ↦ rw h later
      | inr h ↦ rw h (λ i. elim i [
        | inl e ↦ (part, inl refl, e, λ q. ground (arith, str_eq_iff (trim_space part) [], h, e, q))
        | inr j ↦ later j
      ])
    ]

IsBroker-brokers_from :
    (parts : List Bytes) (b part : Bytes)
    → IsIn part parts
    → b ≡ trim_space part
    → b ≢ []
    → IsIn b (brokers_from parts)
unfolding brokers_from
IsBroker-brokers_from [] b p i e n = absurd i
IsBroker-brokers_from (part ∷ parts) b p (inl q) e n =
    let here : b ≡ trim_space part = e ∙ ap trim_space q in
    let h : is_empty (trim_space part) ≡ false =
      ground (arith, str_eq_iff (trim_space part) [], here, n) in
    rw h (inl here)
IsBroker-brokers_from (part ∷ parts) b p (inr i) e n =
    let later = IsBroker-brokers_from parts b p i e n in
    elim (Bool-cases (is_empty (trim_space part))) [ inl h ↦ rw h later | inr h ↦ rw h (inr later) ]

module _ (cfg : KafkaConfig) where
  abbrev pub listed_parts : List Bytes
  listed_parts = split_at 0x2C cfg.brokers

  -- Both credentials are given to the writer, or neither is set.
  abbrev pub IsPaired : Option (Bytes × Bytes) → Type 0
  IsPaired none = (cfg.username ≡ []) × (cfg.password ≡ [])
  IsPaired (some c) = (c ≡ (cfg.username, cfg.password)) × (cfg.username ≢ []) × (cfg.password ≢ [])

  abbrev pub Connects : Result Bytes Writer → Type 0
  Connects (ok w) =
      (w.brokers ≢ [])
      × ((b : Bytes) → IsIn b w.brokers → IsBroker listed_parts b)
      × ((b : Bytes) → IsBroker listed_parts b → IsIn b w.brokers)
      × (w.topic ≡ cfg.chat_events_topic)
      × (is_blank w.topic ≡ false)
      × IsPaired w.plain_credentials
  Connects (err _) =
      ((b : Bytes) → ¬ IsBroker listed_parts b)
      ⊎ ((is_blank cfg.chat_events_topic ≡ true) ⊎ (only_one cfg.username cfg.password ≡ true))

  paired : only_one cfg.username cfg.password ≡ false → IsPaired (credentials cfg)
  paired h = elim (Bool-cases (is_empty cfg.username)) [
    | inl u ↦
        let p : is_empty cfg.password ≡ true = ground (arith, h, u) in
        rw u ((str_eq_iff cfg.username []).0 u, (str_eq_iff cfg.password []).0 p)
    | inr u ↦
        let p : is_empty cfg.password ≡ false = ground (arith, h, u) in
        rw u (
          refl,
          (λ q. ground (arith, str_eq_iff cfg.username [], u, q)),
          (λ q. ground (arith, str_eq_iff cfg.password [], p, q)),
        )
  ]

  with_brokers-Connects :
      (bs : List Bytes) → brokers_from listed_parts ≡ bs → Connects (with_brokers cfg bs)
  unfolding with_brokers
  with_brokers-Connects [] e =
      inl (λ b k. subst (IsIn b) e (IsBroker-brokers_from listed_parts b k.0 k.1 k.2 k.3))
  with_brokers-Connects (x ∷ bs) e = elim (Bool-cases (is_blank cfg.chat_events_topic)) [
    | inl t ↦ rw t (inr (inl t))
    | inr t ↦ elim (Bool-cases (only_one cfg.username cfg.password)) [
      | inl o ↦ rw (t, o) (inr (inr o))
      | inr o ↦
          rw (t, o)
            (
              (λ q. cc q),
              (λ b i. brokers_from-IsBroker listed_parts b (subst (IsIn b) (sym e) i)),
              (λ b k. subst (IsIn b) e (IsBroker-brokers_from listed_parts b k.0 k.1 k.2 k.3)),
              refl,
              t,
              paired o,
            )
    ]
  ]

  -- The publisher writes to exactly the entries of the list of brokers that are not blank, of which
  -- there is one at least, and to the configured topic, which is not blank; it signs in with both
  -- credentials where both are set, and without any where none is. There is no publisher only where
  -- no entry is left, the topic is blank, or one credential is set without the other.
  pub new_kafka_publisher-Connects : Connects (new_kafka_publisher cfg)
  unfolding new_kafka_publisher
  new_kafka_publisher-Connects = with_brokers-Connects (brokers_from listed_parts) refl
