-- ===== src/Message/Service/Authority.antt =====
-- Who may edit or recall a message.
use lens_chat_service.Prelude.{
  ◌≡◌, ◌∙◌, refl, sym, ap, subst, false, inl, inr, Option, none, some, Result, ok, err, arith, IsIn,
  Bool-cases, ==_iff,
}
use lens_chat_service.GoText.{Bytes, str_eq, str_eq_iff}
use lens_chat_service.Schema.{ObjectId, Message, Channel}
use lens_chat_service.Mongo.{
  Reply, Found, NoneMatch, any_order, no_documents, duplicate_key, driver_failed, eq_of_clash,
}
use lens_chat_service.Response.{Error, invalid, not_found, forbidden, conflict, driver, other}
use lens_chat_service.Store.{
  View, Ensures, Ensures-Reading, Reading, After-find_message, IsIndexed, done, message_clash,
}
use lens_chat_service.Platform.{Platform}
use lens_chat_service.Channel.Service as ChannelService
use lens_chat_service.Channel.Service.Access.{IsOpenTo, IsRefused, Got, get-Gets}
use lens_chat_service.Message.Queries
use lens_chat_service.Message.Queries.{has_id, or_not_found}
use lens_chat_service.Message.Service.{or_invalid, owned, authorized}

-- Why there is no message of an id.
abbrev pub IsMissing : ObjectId → View → Error → Type 0
IsMissing id v not_found = NoneMatch (has_id id) v.messages
IsMissing id v (driver e) = Unit
IsMissing id v _ = ⊥

-- What a lookup of a message by its id answers.
abbrev pub GotMessage : ObjectId → View → Result Error Message → Type 0
GotMessage id v (ok m) = IsIn m v.messages × (m.id ≡ id)
GotMessage id v (err e) = IsMissing id v e

same_message :
    (m n : Message) (v : View)
    → IsIndexed v
    → IsIn m v.messages
    → IsIn n v.messages
    → m.id ≡ n.id
    → m ≡ n
unfolding message_clash
same_message m n v unique i j e =
    eq_of_clash message_clash v.messages m n unique.messages i j (ground arith) (ground arith)

found_lem :
    (id : ObjectId) (v : View) (r : Reply Message)
    → Found (has_id id) any_order v.messages r
    → Reading (GotMessage id v) v (or_not_found r) v
found_lem id v (ok m) (i, h, _) = (refl, (i, (==_iff m.id id).0 h))
found_lem id v (err no_documents) f = (refl, f)
found_lem id v (err duplicate_key) f = (refl, tt)
found_lem id v (err (driver_failed n)) f = (refl, tt)

pub get_message :
    (id : ObjectId) (v : View) → Ensures (Queries.get id) (Reading (GotMessage id v) v) v
unfolding Queries.get
get_message id v =
    After-find_message (has_id id) any_order
      (λ r w. Ensures (done (or_not_found r)) (Reading (GotMessage id v) v) w) v (found_lem id v)

-- The actor sent the stored message of this id, and its channel is open to the actor.
pub record IsAuthor (platform : Platform) (actor id : Bytes) (v : View) (msg : Message)
    : Type 0 where
  pub stored : IsIn msg v.messages
  pub named : platform.from_hex id ≡ some msg.id
  pub sent : msg.sender_id ≡ actor
  pub channel : Channel
  pub access : IsOpenTo platform actor (platform.hex msg.channel_id) v channel

-- No message of this id is the actor's to change.
abbrev pub NotAuthor : Platform → Bytes → Bytes → View → Type 0
NotAuthor platform actor id v = (msg : Message) → ¬ IsAuthor platform actor id v msg

-- Why the authorization of a request is refused.
abbrev pub IsDenied : Platform → Bytes → Bytes → View → Error → Type 0
IsDenied platform actor id v invalid = NotAuthor platform actor id v
IsDenied platform actor id v not_found = NotAuthor platform actor id v
IsDenied platform actor id v forbidden =
    NotAuthor platform actor id v
    × ((msg : Message) × IsIn msg v.messages
        × (platform.from_hex id ≡ some msg.id)
        × ¬ (msg.sender_id ≡ actor))
IsDenied platform actor id v (driver e) = Unit
IsDenied platform actor id v _ = ⊥

-- What the authorization of a request answers.
abbrev pub Authorized : Platform → Bytes → Bytes → View → Result Error Message → Type 0
Authorized platform actor id v (ok msg) = IsAuthor platform actor id v msg
Authorized platform actor id v (err e) = IsDenied platform actor id v e

module _ (platform : Platform) (actor id : Bytes) (v : View) (unique : IsIndexed v) where
  -- The author would have sent the message that has the id.
  author_is :
      (msg n : Message)
      → IsIn msg v.messages
      → platform.from_hex id ≡ some msg.id
      → IsAuthor platform actor id v n
      → n ≡ msg
  author_is msg n i e a =
      let ids : n.id ≡ msg.id = ground (arith, a.named, e) in
      same_message n msg v unique a.stored i ids

  not_sent :
      (msg : Message)
      → IsIn msg v.messages
      → platform.from_hex id ≡ some msg.id
      → str_eq msg.sender_id actor ≡ false
      → IsDenied platform actor id v forbidden
  not_sent msg i e h =
      let other : ¬ (msg.sender_id ≡ actor) = λ s. cc ((str_eq_iff msg.sender_id actor).1 s, h) in
      (
        (λ n a.
            other (subst (λ (x : Message). x.sender_id ≡ actor) (author_is msg n i e a) a.sent)),
        (msg, i, e, other),
      )

  not_open :
      (msg : Message) (x : Error)
      → IsIn msg v.messages
      → platform.from_hex id ≡ some msg.id
      → IsRefused platform actor (platform.hex msg.channel_id) v x
      → IsDenied platform actor id v x
  not_open msg invalid i e h = λ n a.
      let o =
        subst (λ (x : Message). IsOpenTo platform actor (platform.hex x.channel_id) v a.channel)
          (author_is msg n i e a) a.access in
      cc (o.named, h)
  not_open msg not_found i e h = λ n a. h a.channel (
      subst (λ (x : Message). IsOpenTo platform actor (platform.hex x.channel_id) v a.channel)
        (author_is msg n i e a) a.access)
  not_open msg (driver d) i e h = tt
  not_open msg forbidden i e h = absurd h
  not_open msg conflict i e h = absurd h
  not_open msg (other m) i e h = absurd h

  not_stored :
      (oid : ObjectId) (x : Error)
      → platform.from_hex id ≡ some oid
      → IsMissing oid v x
      → IsDenied platform actor id v x
  not_stored oid not_found e h = λ n a.
      let same : n.id ≡ oid = ground (arith, a.named, e) in
      cc (h n a.stored, (==_iff n.id oid).1 same)
  not_stored oid (driver d) e h = tt
  not_stored oid invalid e h = absurd h
  not_stored oid forbidden e h = absurd h
  not_stored oid conflict e h = absurd h
  not_stored oid (other m) e h = absurd h

  owned_lem :
      (msg : Message) (ch : Channel)
      → IsIn msg v.messages
      → platform.from_hex id ≡ some msg.id
      → IsOpenTo platform actor (platform.hex msg.channel_id) v ch
      → Ensures (owned actor msg) (Reading (Authorized platform actor id v) v) v
  unfolding owned
  owned_lem msg ch i e o = elim (Bool-cases (str_eq msg.sender_id actor)) [
    | inl h ↦ rw h (
      refl,
      record {
        stored = i;
        named = e;
        sent = (str_eq_iff msg.sender_id actor).0 h;
        channel = ch;
        access = o;
      },
    )
    | inr h ↦ rw h (refl, not_sent msg i e h)
  ]

  abbrev Parsed : Result Error ObjectId → Type 0
  Parsed (ok oid) = platform.from_hex id ≡ some oid
  Parsed (err e) = IsDenied platform actor id v e

  parsed_lem :
      (o : Option ObjectId) → platform.from_hex id ≡ o → Ensures (or_invalid o) (Reading Parsed v) v
  unfolding or_invalid
  parsed_lem none e = (refl, λ n a. cc (a.named, e))
  parsed_lem (some x) e = (refl, e)

  pub authorized_lem :
      Ensures (authorized platform actor id) (Reading (Authorized platform actor id v) v) v
  unfolding authorized
  authorized_lem =
      Ensures-Reading Parsed _ (Reading (Authorized platform actor id v) v) v
        (λ oid named.
          Ensures-Reading (GotMessage oid v) _ (Reading (Authorized platform actor id v) v) v
            (λ msg got.
              let e = named ∙ ap some (sym got.1) in
              Ensures-Reading (Got platform actor (platform.hex msg.channel_id) v) _
                (Reading (Authorized platform actor id v) v) v
                (λ ch open_to. owned_lem msg ch got.0 e open_to)
                (λ x h. (refl, not_open msg x got.0 e h))
                (ChannelService.get platform actor (platform.hex msg.channel_id))
                (get-Gets platform actor (platform.hex msg.channel_id) v unique))
            (λ x h. (refl, not_stored oid x named h)) (Queries.get oid) (get_message oid v))
        (λ x h. (refl, h)) (or_invalid (platform.from_hex id))
        (parsed_lem (platform.from_hex id) refl)
