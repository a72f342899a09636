-- ===== src/Message/Mutate/Interleaved.antt =====
-- `Edit` and `Recall` next to other requests.
use lens_chat_service.Prelude.{◌≡◌, refl, ok, err, true, none, some, Option, IsIn, inr, arith}
use lens_chat_service.GoText.{Bytes}
use lens_chat_service.Schema.{ObjectId, Time, Message, Channel, EventType}
use lens_chat_service.Mongo.{Reply, no_documents, duplicate_key, driver_failed}
use lens_chat_service.Store.{View}
use lens_chat_service.History.{
  MessageNext, ChannelNext, Abides, Abides-modify_message, Abides-modify_channel,
}
use lens_chat_service.Message.Events.{Fresh, message_data}
use lens_chat_service.Message.Events.Covered.{Abides-announce}
use lens_chat_service.Message.Mutate.{
  is_none, unchanged_since, revise, is_open, bump_version, after_event, after_bump, after_revision,
  mutate,
}

unset : {A : Type 0} (o : Option A) → is_none o ≡ true → o ≡ none
unset none h = refl
unset (some a) h = cc h

revise-MessageNext :
    (msg m : Message) (content : Bytes) (kind : EventType) (now : Time)
    → unchanged_since msg m ≡ true
    → MessageNext m (revise content kind now m)
unfolding revise unchanged_since
revise-MessageNext msg m content kind now h = record {
  same = refl;
  changed = inr (unset m.recalled_at (ground arith), omega arith);
}

pub bump_version-ChannelNext : (c : Channel) → ChannelNext c (bump_version c)
unfolding bump_version
bump_version-ChannelNext c = record { same = refl; sequence = omega arith; version = omega arith }

module _ (hex : ObjectId → Bytes) (fresh : Fresh) (kind : EventType) where
  event-Abides :
      (m : Message) (r : Reply (Unit {0})) (v : View)
      → Abides hex v (after_event hex fresh kind m r)
  unfolding after_event
  event-Abides m (ok _) v = tt
  event-Abides m (err e) v = tt

  bump-Abides :
      (m : Message) (r : Reply Channel) (v : View)
      → ((c : Channel) → r ≡ ok c → IsIn c v.channels)
      → Abides hex v (after_bump hex fresh kind m r)
  unfolding after_bump
  bump-Abides m (ok ch) v stored =
      Abides-announce hex fresh fresh.now kind ch (message_data hex ch m) v (stored ch refl)
        (after_event hex fresh kind m) (event-Abides m)
  bump-Abides m (err no_documents) v stored = tt
  bump-Abides m (err duplicate_key) v stored = tt
  bump-Abides m (err (driver_failed n)) v stored = tt

  revision-Abides : (r : Reply Message) (v : View) → Abides hex v (after_revision hex fresh kind r)
  unfolding after_revision
  revision-Abides (ok m) v =
      Abides-modify_channel hex v (is_open m.channel_id) bump_version (after_bump hex fresh kind m)
        (λ c _. bump_version-ChannelNext c) λ r w e stored. bump-Abides m r w stored
  revision-Abides (err no_documents) v = tt
  revision-Abides (err duplicate_key) v = tt
  revision-Abides (err (driver_failed n)) v = tt

  pub mutate-Abides :
      (msg : Message) (content : Bytes) (v : View)
      → Abides hex v (mutate hex fresh kind msg content)
  unfolding mutate
  mutate-Abides msg content v =
      Abides-modify_message hex v (unchanged_since msg) (revise content kind fresh.now)
        (after_revision hex fresh kind) (λ m h. revise-MessageNext msg m content kind fresh.now h)
        λ r w e. revision-Abides r w
