-- ===== src/Setting/Checks.antt =====
-- Which configurations the service starts with.
use lens_chat_service.Prelude.{
  ◌≡◌, ◌≢◌, refl, ◌⊎◌, inl, inr, ◌↔◌, Bool, true, false, List, [], ◌∷◌, Result, ok, arith, IsIn,
  pos, ◌<ℤ◌,
}
use lens_chat_service.GoText.{Bytes, str_eq_iff, is_blank}
use lens_chat_service.Setting.{
  Config, has_star, any_star, is_empty, is_none_listed, only_one, refuse_if, check_kafka,
  check_config,
}

-- What the rest of the service relies on.
pub record IsSound (cfg : Config) : Type 0 where
  pub issuer : cfg.keycloak.issuer ≢ []
  pub audience : cfg.keycloak.audience ≢ []
  pub shutdown : pos 0 <ℤ cfg.server.shutdown_timeout
  pub origins : cfg.allow_origins ≢ []
  pub explicit : (o : Bytes) → IsIn o cfg.allow_origins → ¬ IsIn 42 o
  pub user : (cfg.auth.disabled ≡ false) ⊎ (is_blank cfg.auth.default_user_id ≡ false)
  pub key : ¬ ((cfg.keycloak.public_key ≡ []) × (cfg.keycloak.public_key_file ≡ []))
  pub topic : is_blank cfg.kafka.chat_events_topic ≡ false
  pub credentials : (cfg.kafka.username ≡ []) ↔ (cfg.kafka.password ≡ [])
  pub poll : pos 0 <ℤ cfg.kafka.outbox_poll_interval
  pub timeout : pos 0 <ℤ cfg.kafka.publish_timeout
  pub lease : cfg.kafka.publish_timeout <ℤ cfg.kafka.outbox_lease_duration

passed :
    (b : Bool) (m : Bytes) (rest : Result Bytes Config) (c : Config)
    → refuse_if b m rest ≡ ok c
    → (b ≡ false) × (rest ≡ ok c)
unfolding refuse_if
passed true m rest c h = cc h
passed false m rest c h = (refl, h)

no_star : (o : Bytes) → has_star o ≡ false → ¬ IsIn 42 o
unfolding has_star
no_star [] h i = i
no_star (a ∷ o) h (inl e) = ground arith
no_star (a ∷ o) h (inr i) = no_star o (ground arith) i

no_stars : (os : List Bytes) → any_star os ≡ false → (o : Bytes) → IsIn o os → ¬ IsIn 42 o
unfolding any_star
no_stars [] h o i = absurd i
no_stars (x ∷ os) h o (inl e) = rw e (no_star x (ground arith))
no_stars (x ∷ os) h o (inr i) = no_stars os (ground arith) o i

not_empty : (s : Bytes) → is_empty s ≡ false → s ≢ []
not_empty s h e = cc ((str_eq_iff s []).1 e, h)

listed : (os : List Bytes) → is_none_listed os ≡ false → os ≢ []
listed [] h e = cc h
listed (o ∷ os) h e = cc e

both : (a b : Bytes) → only_one a b ≡ false → (a ≡ []) ↔ (b ≡ [])
both a b h = (
  λ e. ground (arith, str_eq_iff a [], str_eq_iff b [], e),
  λ e. ground (arith, str_eq_iff a [], str_eq_iff b [], e),
)

-- The service starts only with a configuration in which the relay's lease outlasts a publication,
-- all intervals are positive, the origins are explicit, the Kafka user and password are set both or
-- none, there is a public key, an issuer and an audience, and a user if authentication is off.
pub check_config-IsSound : (cfg : Config) → check_config cfg ≡ ok cfg → IsSound cfg
unfolding check_config check_kafka
check_config-IsSound cfg h =
    let p1 = passed _ _ _ cfg h in
    let p2 = passed _ _ _ cfg p1.1 in
    let p3 = passed _ _ _ cfg p2.1 in
    let p4 = passed _ _ _ cfg p3.1 in
    let p5 = passed _ _ _ cfg p4.1 in
    let p6 = passed _ _ _ cfg p5.1 in
    let p7 = passed _ _ _ cfg p6.1 in
    let p8 = passed _ _ _ cfg p7.1 in
    let p9 = passed _ _ _ cfg p8.1 in
    let p10 = passed _ _ _ cfg p9.1 in
    record {
      issuer = not_empty cfg.keycloak.issuer p1.0;
      audience = not_empty cfg.keycloak.audience p2.0;
      shutdown = ground (arith, p3.0);
      origins = listed cfg.allow_origins p4.0;
      explicit = no_stars cfg.allow_origins p5.0;
      user = ground (arith, p7.0);
      key = λ k. ground (
        arith,
        p6.0,
        str_eq_iff cfg.keycloak.public_key [],
        str_eq_iff cfg.keycloak.public_key_file [],
        k,
      );
      topic = ground (arith, p8.0);
      credentials = both cfg.kafka.username cfg.kafka.password p9.0;
      poll = ground (arith, p10.0);
      timeout = ground (arith, p10.0);
      lease = ground (arith, p10.0);
    }
