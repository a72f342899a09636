-- ===== src/Channel/Repo.antt =====
-- internal/channel/repo/channel.repo.go
pub mod GetOrCreate
use lens_chat_service.Prelude.{
  ℕ, pos, leb, Bool, true, false, ◌&&◌, ◌||◌, Option, none, some, List, Result, ok, err, ◌==◌,
  if◌then◌else◌, ltb, ◌≡◌, ◌⊎◌, arith,
}
use lens_chat_service.GoText.{Bytes, str_eq}
use lens_chat_service.Schema.{ObjectId, Time, Channel}
use lens_chat_service.Mongo.{
  Reply, Sort, find_one, find, find_one_and_update, any_order, no_documents, duplicate_key,
}
use lens_chat_service.Response.{Error, not_found, driver}
use lens_chat_service.Store.{Action, done, call, return, fail, channels}

abbrev pub has_key : Bytes → Channel → Bool
has_key key ch = str_eq ch.direct_key key

-- The document that the upsert inserts; `id` and `now` are `primitive.NewObjectID()` and
-- `time.Now()`.
unfoldable pub new_channel : ObjectId → Time → Bytes × Bytes → Bytes → Channel
new_channel id now pair key = record {
  id = id;
  direct_key = key;
  participant_ids = pair;
  last_message_id = 0;
  last_message_seq = pos 0;
  last_event_version = 0;
  last_message_at = none;
  active = true;
  created_at = now;
  updated_at = now;
}

abbrev pub or_driver : {A : Type 0} → Reply A → Result Error A
or_driver (ok a) = ok a
or_driver (err e) = err (driver e)

-- Another request that created the channel first shows as a duplicate key.
unfoldable pub after_upsert : Bytes → Reply Channel → Action Channel
after_upsert key (ok ch) = return ch
after_upsert key (err duplicate_key) =
    call (channels (find_one (has_key key) any_order)) λ r. done (or_driver r)
after_upsert key (err e) = fail (driver e)

-- `$setOnInsert` leaves a document that is there as it is.
unfoldable pub get_or_create : ObjectId → Time → Bytes × Bytes → Bytes → Action Channel
unfolding after_upsert
get_or_create id now pair key =
    call
      (channels (find_one_and_update (has_key key) (λ ch. ch) (some (new_channel id now pair key))))
      (after_upsert key)

abbrev pub or_not_found : Reply Channel → Result Error Channel
or_not_found (ok ch) = ok ch
or_not_found (err no_documents) = err not_found
or_not_found (err e) = err (driver e)

abbrev pub has_id : ObjectId → Channel → Bool
has_id id ch = ch.id == id

unfoldable pub get : ObjectId → Action Channel
get id = call (channels (find_one (has_id id) any_order)) λ r. done (or_not_found r)

unfoldable pub is_listed : Bytes → Channel → Bool
is_listed user ch =
    (str_eq ch.participant_ids.0 user || str_eq ch.participant_ids.1 user) && ch.active

-- `{"updated_at": -1, "_id": -1}`
abbrev pub later : Channel → Channel → Bool
later c d = ltb d.updated_at c.updated_at || (c.updated_at == d.updated_at && leb d.id c.id)

pub later_total : (c d : Channel) → (later c d ≡ true) ⊎ (later d c ≡ true)
later_total c d = ground arith

pub later_trans : (b c d : Channel) → later b c ≡ true → later c d ≡ true → later b d ≡ true
later_trans b c d h i = ground arith

unfoldable pub latest_first : Sort Channel
latest_first = record { le = later; total = later_total; trans = later_trans }

unfoldable pub list : Bytes → ℕ → Action (List Channel)
list user limit =
    call (channels (find (is_listed user) latest_first (pos limit))) λ r. done (or_driver r)
