-- ===== src/Channel/Service/Access.antt =====
-- Who gets at a channel.
use lens_chat_service.Prelude.{
  ◌≡◌, refl, sym, subst, ap, ◌∙◌, ◌⊎◌, inl, inr, true, false, Option, none, some, Result, ok, err,
  arith, IsIn, Bool-cases, ==_iff,
}
use lens_chat_service.GoText.{Bytes, str_eq_iff}
use lens_chat_service.Schema.{ObjectId, Channel}
use lens_chat_service.Mongo.{
  Reply, Found, any_order, no_documents, duplicate_key, driver_failed, eq_of_clash,
}
use lens_chat_service.Response.{Error, invalid, not_found, driver}
use lens_chat_service.Store.{
  View, Ensures, After-find_channel, Reading, IsIndexed, channel_clash, done, ◌>>=◌,
}
use lens_chat_service.Platform.{Platform}
use lens_chat_service.Channel.Repo
use lens_chat_service.Channel.Repo.{has_id, or_not_found}
use lens_chat_service.Channel.Service.{may_use, usable, get_id, get}

-- The channel is stored and active, has the id, and the actor is one of its two participants.
pub record IsOpenTo (platform : Platform) (actor id : Bytes) (v : View) (ch : Channel)
    : Type 0 where
  pub stored : IsIn ch v.channels
  pub named : platform.from_hex id ≡ some ch.id
  pub active : ch.active ≡ true
  pub participant : (ch.participant_ids.0 ≡ actor) ⊎ (ch.participant_ids.1 ≡ actor)

-- Why a caller gets no channel.
abbrev pub IsRefused : Platform → Bytes → Bytes → View → Error → Type 0
IsRefused platform actor id v invalid = platform.from_hex id ≡ none
IsRefused platform actor id v not_found = (ch : Channel) → ¬ IsOpenTo platform actor id v ch
IsRefused platform actor id v (driver e) = Unit
IsRefused platform actor id v _ = ⊥

abbrev pub Got : Platform → Bytes → Bytes → View → Result Error Channel → Type 0
Got platform actor id v (ok ch) = IsOpenTo platform actor id v ch
Got platform actor id v (err e) = IsRefused platform actor id v e

abbrev pub Gets : Platform → Bytes → Bytes → View → Result Error Channel → View → Type 0
Gets platform actor id v = Reading (Got platform actor id v) v

clash_of_id : (c d : Channel) → c.id ≡ d.id → channel_clash c d ≡ true
unfolding channel_clash
clash_of_id c d e = ground arith

module _ (platform : Platform) (actor id : Bytes) (v : View) where
  usable_lem :
      (ch : Channel)
      → IsIndexed v
      → IsIn ch v.channels
      → platform.from_hex id ≡ some ch.id
      → Ensures (usable actor ch) (Gets platform actor id v) v
  unfolding usable
  usable_lem ch unique i e = elim (Bool-cases (may_use actor ch)) [
    | inl h ↦ rw h (
      refl,
      record {
        stored = i;
        named = e;
        active = unfold may_use in ground arith;
        participant =
            unfold may_use in
            ground
              (arith, str_eq_iff ch.participant_ids.0 actor, str_eq_iff ch.participant_ids.1 actor);
      },
    )
    | inr h ↦ rw h (refl, λ c o. refuses c ch o h (same c o))
  ]
    where
      refuses :
          (c d : Channel) → IsOpenTo platform actor id v c → may_use actor d ≡ false → c ≡ d → ⊥
      refuses c d o h s =
          let k = subst (λ x. may_use actor x ≡ false) (sym s) h in
          unfold may_use in
          ground (
            arith,
            k,
            o.active,
            o.participant,
            str_eq_iff c.participant_ids.0 actor,
            str_eq_iff c.participant_ids.1 actor,
          )

      same_id : (c : Channel) → IsOpenTo platform actor id v c → c.id ≡ ch.id
      same_id c o = ground (arith, o.named, e)

      same : (c : Channel) → IsOpenTo platform actor id v c → c ≡ ch
      same c o =
          eq_of_clash channel_clash v.channels c ch unique.channels o.stored i
            (clash_of_id c ch (same_id c o)) (clash_of_id ch c (sym (same_id c o)))

  found_lem :
      (oid : ObjectId) (r : Reply Channel)
      → IsIndexed v
      → platform.from_hex id ≡ some oid
      → Found (has_id oid) any_order v.channels r
      → Ensures (done (or_not_found r) >>= usable actor) (Gets platform actor id v) v
  found_lem oid (ok ch) unique e (i, h, _) =
      usable_lem ch unique i (e ∙ ap some (sym ((==_iff ch.id oid).0 h)))
  found_lem oid (err no_documents) unique e f = (refl, absent)
    where
      absent : (c : Channel) → IsOpenTo platform actor id v c → ⊥
      absent c o = ground (arith, f c o.stored, o.named, e)
  found_lem oid (err duplicate_key) unique e f = (refl, tt)
  found_lem oid (err (driver_failed n)) unique e f = (refl, tt)

  parsed_lem :
      (o : Option ObjectId)
      → IsIndexed v
      → platform.from_hex id ≡ o
      → Ensures (get_id actor o) (Gets platform actor id v) v
  unfolding get_id Repo.get
  parsed_lem none unique e = (refl, e)
  parsed_lem (some oid) unique e =
      After-find_channel (has_id oid) any_order
        (λ r w. Ensures (done (or_not_found r) >>= usable actor) (Gets platform actor id v) w) v
        λ r f. found_lem oid r unique e f

  -- A caller gets a channel only if it is stored under the id, active, and the caller is one of its
  -- two participants. A malformed id is invalid, and `not found` means that the caller may use no
  -- channel of that id, whether it exists or not. Nothing is written.
  pub get-Gets : IsIndexed v → Ensures (get platform actor id) (Gets platform actor id v) v
  unfolding get
  get-Gets unique = parsed_lem (platform.from_hex id) unique refl
