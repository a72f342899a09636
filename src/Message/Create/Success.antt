-- ===== src/Message/Create/Success.antt =====
-- A request that may be carried out succeeds where the driver fails no call.
use lens_chat_service.Prelude.{
  ◌≡◌, inl, inr, ℕ, zero, suc, ℤ, pos, eqb_ℤ, inc64, ok, err, Bool, true, false, if◌then◌else◌,
}
use lens_chat_service.GoText.{Bytes, str_eq}
use lens_chat_service.Schema.{ObjectId, Message, Channel}
use lens_chat_service.Mongo.{Reply, no_documents, duplicate_key, driver_failed}
use lens_chat_service.Response.{conflict}
use lens_chat_service.Store.{
  Action, fail, Server, Db, view, run, view-IsIndexed, Ensures-run, IsAnswered, IsSearched,
  Faultless, Faultless-if, GoesWell, Faultless-run,
}
use lens_chat_service.Message.Events.{Fresh}
use lens_chat_service.Message.Create.{
  Saved, existing_of, settle, existing_or, after_event, after_summary, finish, after_insert,
  insert_after, after_latest, after_channel, attempts, max_attempts, create,
}
use lens_chat_service.Message.Create.Spec.{IsReady, IsCreated, Creates}
use lens_chat_service.Message.Create.NewMessage.{create-Creates}

same_hash :
    (b : Bool) (m : Message) (rest : Action Saved)
    → Faultless (settle (if b then ok m else err conflict) rest)
unfolding settle
same_hash true m rest = tt
same_hash false m rest = tt

settled :
    (msg : Message) (rest : Action Saved) (r : Reply Message)
    → Faultless rest
    → IsSearched r
    → Faultless (settle (existing_of msg r) rest)
unfolding settle existing_of
settled msg rest (ok m) h w = same_hash (str_eq m.request_hash msg.request_hash) m rest
settled msg rest (err no_documents) h w = h
settled msg rest (err duplicate_key) h w = absurd w
settled msg rest (err (driver_failed n)) h w = absurd w

existing_or-Faultless :
    (msg : Message) (rest : Action Saved) → Faultless rest → Faultless (existing_or msg rest)
unfolding existing_or
existing_or-Faultless msg rest h = λ r w. settled msg rest r h w

module _ (hex : ObjectId → Bytes) (fresh : Fresh) where
  event-Faultless :
      (msg : Message) (r : Reply (Unit {0}))
      → IsAnswered r
      → Faultless (after_event hex fresh msg r)
  unfolding after_event
  event-Faultless msg (ok _) w = tt
  event-Faultless msg (err e) w = absurd w

  summary-Faultless :
      (msg : Message) (r : Reply Channel) → IsSearched r → Faultless (after_summary hex fresh msg r)
  unfolding after_summary
  summary-Faultless msg (ok ch) w = λ r u. event-Faultless msg r u
  summary-Faultless msg (err no_documents) w = λ r u. tt
  summary-Faultless msg (err duplicate_key) w = absurd w
  summary-Faultless msg (err (driver_failed n)) w = absurd w

  finish-Faultless : (msg : Message) → Faultless (finish hex fresh msg)
  unfolding finish
  finish-Faultless msg =
      Faultless-if (eqb_ℤ msg.sequence (pos 0)) (fail conflict) _ tt
        λ r w. summary-Faultless msg r w

  module _ (msg : Message) (rest : Action Saved) (h : Faultless rest) where
    insert-Faultless :
        (candidate : Message) (r : Reply (Unit {0}))
        → IsAnswered r
        → Faultless (after_insert hex fresh msg candidate rest r)
    unfolding after_insert
    insert-Faultless candidate (ok _) w = finish-Faultless candidate
    insert-Faultless candidate (err e) w = absurd w

    insert_after-Faultless : (s : ℤ) → Faultless (insert_after hex fresh msg s rest)
    unfolding insert_after
    insert_after-Faultless s = λ r w. insert-Faultless (record msg { sequence = inc64 s }) r w

    latest-Faultless :
        (ch : Channel) (r : Reply Message)
        → IsSearched r
        → Faultless (after_latest hex fresh msg ch rest r)
    unfolding after_latest
    latest-Faultless ch (ok latest) w = insert_after-Faultless _
    latest-Faultless ch (err no_documents) w = insert_after-Faultless ch.last_message_seq
    latest-Faultless ch (err duplicate_key) w = absurd w
    latest-Faultless ch (err (driver_failed n)) w = absurd w

    channel-Faultless :
        (r : Reply Channel) → IsSearched r → Faultless (after_channel hex fresh msg rest r)
    unfolding after_channel
    channel-Faultless (ok ch) w = λ r u. latest-Faultless ch r u
    channel-Faultless (err no_documents) w = tt
    channel-Faultless (err duplicate_key) w = absurd w
    channel-Faultless (err (driver_failed n)) w = absurd w

  attempts-Faultless : (n : ℕ) (msg : Message) → Faultless (attempts hex fresh n msg)
  unfolding attempts
  attempts-Faultless zero msg = finish-Faultless msg
  attempts-Faultless (suc n) msg =
      λ r w. channel-Faultless msg (attempts hex fresh n msg) (attempts-Faultless n msg) r w

  create-Faultless : (msg : Message) → Faultless (create hex fresh msg)
  unfolding create
  create-Faultless msg = existing_or-Faultless msg _ (attempts-Faultless max_attempts _)

  module _ (server : Server) (db : Db server) (msg : Message) where
    -- The request has created its message.
    abbrev pub Succeeds : Type 0
    Succeeds =
        (m : Message) × ((run server (create hex fresh msg) db).0 ≡ ok (m, true))
        × IsCreated hex fresh msg m (view server db)
            (view server (run server (create hex fresh msg) db).1)

    -- On every server that behaves as documented, a request that is new and whose sender may write
    -- is answered with the message that it created, the channel's summary and the outbox being
    -- brought up to it, provided that the driver fails none of its calls and no other writer comes
    -- in between.
    pub create-Succeeds :
        IsReady fresh msg (view server db) → GoesWell server (create hex fresh msg) db → Succeeds
    create-Succeeds ready well =
        let outcome =
          Ensures-run server (create hex fresh msg) (Creates hex fresh msg (view server db)) db
            (create-Creates hex fresh msg (view server db) (view-IsIndexed server db) ready) in
        elim outcome [
          | inl failed ↦
              absurd
                (Faultless-run server (create hex fresh msg) db (create-Faultless msg) well failed)
          | inr made ↦ made
        ]
