-- ===== src/Message/Events/Covered.antt =====
-- internal/message/repo/message.repo.go: an event is written for a channel that is stored.
use lens_chat_service.Prelude.{◌≡◌, sym, ap, IsIn}
use lens_chat_service.GoText.{Bytes}
use lens_chat_service.Schema.{ObjectId, Time, Channel, EventType, ChatEventData}
use lens_chat_service.Mongo.{Reply, insert_one}
use lens_chat_service.Store.{View, Program, call, outbox}
use lens_chat_service.History.{Evolves, IsCovered, Abides, Abides-insert_event}
use lens_chat_service.Message.Events.{Fresh, outbox_event}

module _ (hex : ObjectId → Bytes) (fresh : Fresh) (occurred : Time) (kind : EventType)
    (ch : Channel) (payload : ChatEventData) (v : View) (stored : IsIn ch v.channels) where
  outbox_event-IsCovered :
      (u : View)
      → Evolves v u
      → IsCovered hex u.channels (outbox_event hex fresh occurred kind ch payload)
  unfolding outbox_event
  outbox_event-IsCovered u e =
      let (d, i, next) = e.channels ch stored in
      let same : hex ch.id ≡ hex d.id = sym (ap (λ (x : Channel). hex x.id) next.same) in
      record { channel = d; stored = i; partition = same; aggregate = same; reached = next.version }

  pub Abides-announce :
      {A : Type 0} (k : Reply (Unit {0}) → Program A)
      → ((r : Reply (Unit {0})) (w : View) → Abides hex w (k r))
      → Abides hex v
          (call (outbox (insert_one (outbox_event hex fresh occurred kind ch payload))) k)
  Abides-announce k h =
      Abides-insert_event hex v (outbox_event hex fresh occurred kind ch payload) k
        outbox_event-IsCovered (λ r w e. h r w)
