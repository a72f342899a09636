-- ===== src/Message/Create/Retry.antt =====
-- `Create` for a request that has a stored message.
use lens_chat_service.Prelude.{
  ◌≡◌, refl, subst, ◌⊎◌, inl, inr, Bool, true, false, Result, ok, err, arith, IsIn, if◌then◌else◌,
}
use lens_chat_service.GoText.{Bytes, str_eq, str_eq_iff}
use lens_chat_service.Schema.{ObjectId, Message}
use lens_chat_service.Mongo.{
  Reply, Found, any_order, no_documents, duplicate_key, driver_failed, eq_of_clash,
}
use lens_chat_service.Response.{Error, conflict}
use lens_chat_service.Store.{
  Action, View, Ensures, IsIndexed, IsDriverFailure, same_request, message_clash,
}
use lens_chat_service.Message.Events.{Fresh}
use lens_chat_service.Message.Create.Steps.{Ensures-existing_or}
use lens_chat_service.Message.Create.{Saved, existing_of, settle, create}

-- Two messages of one request clash.
clash_of_request :
    (msg m n : Message)
    → same_request msg m ≡ true
    → same_request msg n ≡ true
    → message_clash m n ≡ true
unfolding message_clash
clash_of_request msg m n h k = ground (
  arith,
  str_eq_iff msg.sender_id m.sender_id,
  str_eq_iff msg.sender_id n.sender_id,
  str_eq_iff m.sender_id n.sender_id,
  str_eq_iff msg.client_message_id m.client_message_id,
  str_eq_iff msg.client_message_id n.client_message_id,
  str_eq_iff m.client_message_id n.client_message_id,
)

-- What a retry answers.
abbrev pub retried : Message → Message → Result Error Saved
retried msg m = if str_eq m.request_hash msg.request_hash then ok (m, false) else err conflict

abbrev pub Retried : Message → Message → View → Result Error Saved → View → Type 0
Retried msg m v r w = (w ≡ v) × (IsDriverFailure r ⊎ (r ≡ retried msg m))

module _ (msg m : Message) (v : View) (rest : Action Saved) (unique : IsIndexed v)
    (stored : IsIn m v.messages) (same : same_request msg m ≡ true) where
  settle_if :
      (b : Bool)
      → Ensures
          (settle (if b then ok m else err conflict) rest)
          (λ r w. (w ≡ v) × (IsDriverFailure r ⊎ (r ≡ (if b then ok (m, false) else err conflict))))
          v
  unfolding settle
  settle_if true = (refl, inr refl)
  settle_if false = (refl, inr refl)

  settle_lem :
      (r : Reply Message)
      → Found (same_request msg) any_order v.messages r
      → Ensures (settle (existing_of msg r) rest) (Retried msg m v) v
  unfolding existing_of settle
  settle_lem (ok d) f =
      let e =
        eq_of_clash message_clash v.messages m d unique.messages stored f.0
          (clash_of_request msg m d same f.1) (clash_of_request msg d m f.1 same) in
      subst (λ x. Ensures (settle (existing_of msg (ok x)) rest) (Retried msg m v) v) e
        (settle_if (str_eq m.request_hash msg.request_hash))
  settle_lem (err no_documents) f = cc (f m stored)
  settle_lem (err duplicate_key) f = (refl, inl tt)
  settle_lem (err (driver_failed n)) f = (refl, inl tt)

-- A request whose message is stored changes nothing. It answers that message, as not created, if
-- the stored request hash is the same, and a conflict if it is not; or the driver failed.
pub create-stored :
    (hex : ObjectId → Bytes) (fresh : Fresh) (msg m : Message) (v : View)
    → IsIndexed v
    → IsIn m v.messages
    → same_request msg m ≡ true
    → Ensures (create hex fresh msg) (Retried msg m v) v
unfolding create
create-stored hex fresh msg m v unique stored same =
    Ensures-existing_or msg (Retried msg m v) v _ (settle_lem msg m v _ unique stored same)
