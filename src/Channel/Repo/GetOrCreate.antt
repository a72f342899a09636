-- ===== src/Channel/Repo/GetOrCreate.antt =====
-- `GetOrCreate`, with no other writer in between.
use lens_chat_service.Prelude.{
  ◌≡◌, ◌∙◌, refl, sym, subst, ap, ◌⊎◌, inl, inr, true, List, [], ◌∷◌, ◌++◌, some, Result, ok, err,
  arith, IsIn,
}
use lens_chat_service.GoText.{Bytes}
use lens_chat_service.Schema.{ObjectId, Time, Channel}
use lens_chat_service.Mongo.{
  Reply, Found, Modified, NoneMatch, any_order, no_documents, duplicate_key, driver_failed,
  Updated-old,
}
use lens_chat_service.Response.{Error, driver}
use lens_chat_service.Store.{View, Ensures, After-find_channel, channel_clash, done}
use lens_chat_service.Channel.Repo.{has_key, new_channel, or_driver, after_upsert, get_or_create}

module _ (id : ObjectId) (now : Time) (pair : Bytes × Bytes) (key : Bytes) where
  abbrev pub GetsOrCreates : View → Result Error Channel → View → Type 0
  GetsOrCreates v (ok ch) w =
      ((w ≡ v) × IsIn ch v.channels × (has_key key ch ≡ true))
      ⊎ (NoneMatch (has_key key) v.channels
          × (ch ≡ new_channel id now pair key)
          × (w ≡ record v { channels = v.channels ++ new_channel id now pair key ∷ [] }))
  GetsOrCreates v (err (driver _)) w = (w.messages ≡ v.messages) × (w.outbox ≡ v.outbox)
  GetsOrCreates v (err _) w = ⊥

  lookup_lem :
      (v : View) (r : Reply Channel)
      → Found (has_key key) any_order v.channels r
      → Ensures (done (or_driver r)) (GetsOrCreates v) v
  lookup_lem v (ok ch) (i, h, _) = inl (refl, i, h)
  lookup_lem v (err e) f = (refl, refl)

  after_upsert_lem :
      (v : View) (r : Reply Channel) (cs : List Channel)
      → Modified channel_clash
          (has_key key)
          (λ ch. ch)
          (some (new_channel id now pair key))
          v.channels
          r
          cs
      → Ensures (after_upsert key r) (GetsOrCreates v) (record v { channels = cs })
  unfolding after_upsert
  after_upsert_lem v (ok ch) cs (inl (u, e)) = inl (
    ap (λ l. record v { channels = l }) (u.after ∙ sym u.before),
    subst (λ c. IsIn c v.channels) (sym e) (Updated-old u),
    subst (λ c. has_key key c ≡ true) (sym e) u.matched,
  )
  after_upsert_lem v (ok ch) cs (inr ((h, grown), e)) =
      inr (h, ground arith, ap (λ l. record v { channels = l }) grown)
  after_upsert_lem v (err no_documents) cs d = (refl, refl)
  after_upsert_lem v (err duplicate_key) cs d =
      subst
        (λ l.
          Ensures (after_upsert key (err duplicate_key)) (GetsOrCreates v)
            (record v { channels = l }))
        (sym d.0)
        (After-find_channel (has_key key) any_order
          (λ r w. Ensures (done (or_driver r)) (GetsOrCreates v) w) v (lookup_lem v))
  after_upsert_lem v (err (driver_failed n)) cs d = (refl, refl)

  -- A stored channel of the key is answered and nothing is written; only where there is none, the
  -- new channel is stored, as the only change, and answered. The only other outcome is a failure of
  -- the driver.
  pub get_or_create-GetsOrCreates :
      (v : View) → Ensures (get_or_create id now pair key) (GetsOrCreates v) v
  unfolding get_or_create
  get_or_create-GetsOrCreates v = λ r cs d _. after_upsert_lem v r cs d
