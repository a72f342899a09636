-- ===== src/Message/Create/Interleaved.antt =====
-- `Create` next to other requests.
use lens_chat_service.Prelude.{
  ◌≡◌, refl, ℕ, zero, suc, ℤ, pos, eqb_ℤ, inc64, none, ok, err, Bool, true, false, IsIn,
  if◌then◌else◌, arith,
}
use lens_chat_service.GoText.{Bytes, str_eq}
use lens_chat_service.Schema.{ObjectId, Message, Channel, message_created}
use lens_chat_service.Mongo.{Reply, any_order, no_documents, duplicate_key, driver_failed}
use lens_chat_service.Response.{conflict, not_found}
use lens_chat_service.Store.{View, Action, fail, same_request}
use lens_chat_service.History.{
  IsFirst, ChannelNext, Abides, Abides-later, Abides-if, Abides-find_message, Abides-find_channel,
  Abides-insert_message, Abides-delete_message, Abides-modify_channel,
}
use lens_chat_service.Message.Events.{Fresh, message_data}
use lens_chat_service.Message.Events.Covered.{Abides-announce}
use lens_chat_service.Message.Queries.{in_channel, newest_first, has_id}
use lens_chat_service.Message.Create.{
  Saved, existing_of, settle, existing_or, accepts, summarise, after_event, after_summary, finish,
  after_insert, insert_after, after_latest, after_channel, attempts, max_attempts, create,
}

summarise-ChannelNext : (msg : Message) (ch : Channel) → ChannelNext ch (summarise msg ch)
unfolding summarise
summarise-ChannelNext msg ch = record {
  same = refl;
  sequence = ground arith;
  version = omega arith;
}

module _ (hex : ObjectId → Bytes) where
  same_hash :
      (b : Bool) (m : Message) (rest : Action Saved) (v : View)
      → Abides hex v (settle (if b then ok m else err conflict) rest)
  unfolding settle
  same_hash true m rest v = tt
  same_hash false m rest v = tt

  settle-Abides :
      (msg : Message) (rest : Action Saved) (r : Reply Message) (v : View)
      → Abides hex v rest
      → Abides hex v (settle (existing_of msg r) rest)
  unfolding settle existing_of
  settle-Abides msg rest (ok m) v h = same_hash (str_eq m.request_hash msg.request_hash) m rest v
  settle-Abides msg rest (err no_documents) v h = h
  settle-Abides msg rest (err duplicate_key) v h = tt
  settle-Abides msg rest (err (driver_failed n)) v h = tt

  existing_or-Abides :
      (msg : Message) (rest : Action Saved) (v : View)
      → Abides hex v rest
      → Abides hex v (existing_or msg rest)
  unfolding existing_or
  existing_or-Abides msg rest v h =
      Abides-find_message hex v (same_request msg) any_order (λ r. settle (existing_of msg r) rest)
        λ r w e. settle-Abides msg rest r w (Abides-later hex rest v w e h)

  module _ (fresh : Fresh) where
    event-Abides :
        (msg : Message) (r : Reply (Unit {0})) (v : View)
        → Abides hex v (after_event hex fresh msg r)
    unfolding after_event
    event-Abides msg (ok _) v = tt
    event-Abides msg (err e) v = tt

    summary-Abides :
        (msg : Message) (r : Reply Channel) (v : View)
        → ((c : Channel) → r ≡ ok c → IsIn c v.channels)
        → Abides hex v (after_summary hex fresh msg r)
    unfolding after_summary
    summary-Abides msg (ok ch) v stored =
        Abides-announce hex fresh fresh.occurred_at message_created ch (message_data hex ch msg) v
          (stored ch refl) (after_event hex fresh msg) (event-Abides msg)
    summary-Abides msg (err no_documents) v stored =
        Abides-delete_message hex v (has_id msg.id) (λ _. fail {A = Saved} not_found) λ r w e. tt
    summary-Abides msg (err duplicate_key) v stored = tt
    summary-Abides msg (err (driver_failed n)) v stored = tt

    finish-Abides : (msg : Message) (v : View) → Abides hex v (finish hex fresh msg)
    unfolding finish
    finish-Abides msg v = Abides-if hex (eqb_ℤ msg.sequence (pos 0)) (fail conflict) _ v tt (
        Abides-modify_channel hex v (accepts msg) (summarise msg) (after_summary hex fresh msg)
          (λ c _. summarise-ChannelNext msg c) λ r w e stored. summary-Abides msg r w stored)

    -- `rest` is the next round.
    module _ (msg : Message) (first : IsFirst msg) (rest : Action Saved) where
      insert-Abides :
          (candidate : Message) (r : Reply (Unit {0})) (v : View)
          → Abides hex v rest
          → Abides hex v (after_insert hex fresh msg candidate rest r)
      unfolding after_insert
      insert-Abides candidate (ok _) v h = finish-Abides candidate v
      insert-Abides candidate (err no_documents) v h = tt
      insert-Abides candidate (err duplicate_key) v h = existing_or-Abides msg rest v h
      insert-Abides candidate (err (driver_failed n)) v h = tt

      insert_after-Abides :
          (s : ℤ) (v : View) → Abides hex v rest → Abides hex v (insert_after hex fresh msg s rest)
      unfolding insert_after
      insert_after-Abides s v h =
          let candidate : Message = record msg { sequence = inc64 s } in
          Abides-insert_message hex v candidate (after_insert hex fresh msg candidate rest) first
            λ r w e. insert-Abides candidate r w (Abides-later hex rest v w e h)

      latest-Abides :
          (ch : Channel) (r : Reply Message) (v : View)
          → Abides hex v rest
          → Abides hex v (after_latest hex fresh msg ch rest r)
      unfolding after_latest
      latest-Abides ch (ok latest) v h = insert_after-Abides _ v h
      latest-Abides ch (err no_documents) v h = insert_after-Abides ch.last_message_seq v h
      latest-Abides ch (err duplicate_key) v h = tt
      latest-Abides ch (err (driver_failed n)) v h = tt

      channel-Abides :
          (r : Reply Channel) (v : View)
          → Abides hex v rest
          → Abides hex v (after_channel hex fresh msg rest r)
      unfolding after_channel
      channel-Abides (ok ch) v h =
          Abides-find_message hex v (in_channel msg.channel_id) newest_first
            (after_latest hex fresh msg ch rest)
            λ r w e. latest-Abides ch r w (Abides-later hex rest v w e h)
      channel-Abides (err no_documents) v h = tt
      channel-Abides (err duplicate_key) v h = tt
      channel-Abides (err (driver_failed n)) v h = tt

    attempts-Abides :
        (n : ℕ) (msg : Message) (v : View) → IsFirst msg → Abides hex v (attempts hex fresh n msg)
    unfolding attempts
    attempts-Abides zero msg v first = finish-Abides msg v
    attempts-Abides (suc n) msg v first =
        Abides-find_channel hex v (accepts msg) any_order
          (after_channel hex fresh msg (attempts hex fresh n msg))
          λ r w e.
            channel-Abides msg first (attempts hex fresh n msg) r w (attempts-Abides n msg w first)

    pub create-Abides :
        (msg : Message) (v : View) → msg.recalled_at ≡ none → Abides hex v (create hex fresh msg)
    unfolding create
    create-Abides msg v unset =
        existing_or-Abides msg _ v (attempts-Abides max_attempts _ v (refl, unset))
