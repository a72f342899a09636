-- ===== src/Message/Create/Steps.antt =====
-- Rules for the driver calls of `Create` that only read.
use lens_chat_service.Prelude.{ℕ, suc, ok, Result}
use lens_chat_service.GoText.{Bytes}
use lens_chat_service.Schema.{ObjectId, Message, Channel}
use lens_chat_service.Mongo.{Reply, Found, any_order}
use lens_chat_service.Response.{Error}
use lens_chat_service.Store.{
  Action, View, Ensures, After-find_message, After-find_channel, same_request,
}
use lens_chat_service.Message.Events.{Fresh}
use lens_chat_service.Message.Queries.{in_channel, newest_first}
use lens_chat_service.Message.Create.{
  Saved, existing_of, settle, existing_or, accepts, after_latest, after_channel, attempts,
}

module _ (msg : Message) (Q : Result Error Saved → View → Type 0) (v : View) where
  pub Ensures-existing_or :
      (rest : Action Saved)
      → ((r : Reply Message)
          → Found (same_request msg) any_order v.messages r
          → Ensures (settle (existing_of msg r) rest) Q v)
      → Ensures (existing_or msg rest) Q v
  unfolding existing_or
  Ensures-existing_or rest k =
      After-find_message (same_request msg) any_order
        (λ r w. Ensures (settle (existing_of msg r) rest) Q w) v k

  module _ (hex : ObjectId → Bytes) (fresh : Fresh) where
    pub Ensures-after_channel :
        (ch : Channel) (rest : Action Saved)
        → ((r : Reply Message)
            → Found (in_channel msg.channel_id) newest_first v.messages r
            → Ensures (after_latest hex fresh msg ch rest r) Q v)
        → Ensures (after_channel hex fresh msg rest (ok ch)) Q v
    unfolding after_channel
    Ensures-after_channel ch rest k =
        After-find_message (in_channel msg.channel_id) newest_first
          (λ r w. Ensures (after_latest hex fresh msg ch rest r) Q w) v k

    pub Ensures-attempts :
        (n : ℕ)
        → ((r : Reply Channel)
            → Found (accepts msg) any_order v.channels r
            → Ensures (after_channel hex fresh msg (attempts hex fresh n msg) r) Q v)
        → Ensures (attempts hex fresh (suc n) msg) Q v
    unfolding attempts
    Ensures-attempts n k =
        After-find_channel (accepts msg) any_order
          (λ r w. Ensures (after_channel hex fresh msg (attempts hex fresh n msg) r) Q w) v k
