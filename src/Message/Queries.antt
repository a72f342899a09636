-- ===== src/Message/Queries.antt =====
-- internal/message/repo/message.repo.go: the filters, `Get` and `List`.
use lens_chat_service.Prelude.{
  ℤ, pos, ltb_ℤ, Bool, true, not, ◌&&◌, ◌||◌, List, Result, ok, err, ◌==◌, ◌≡◌, ◌⊎◌, arith,
  if◌then◌else◌,
}
use lens_chat_service.GoText.{Bytes, str_eq}
use lens_chat_service.Schema.{ObjectId, Message, Channel}
use lens_chat_service.Mongo.{find_one, find, Sort, any_order, Reply, no_documents}
use lens_chat_service.Response.{Error, not_found, driver}
use lens_chat_service.Store.{Action, done, call, messages}

-- `"participant_ids": user` holds where the array has the user.
unfoldable pub is_participant : Channel → Bytes → Bool
is_participant ch user = str_eq ch.participant_ids.0 user || str_eq ch.participant_ids.1 user

unfoldable pub in_channel : ObjectId → Message → Bool
in_channel ch m = m.channel_id == ch

-- `{"seq": -1}`: the highest sequence first.
abbrev pub newer : Message → Message → Bool
newer m n = not (ltb_ℤ m.sequence n.sequence)

pub newer_total : (m n : Message) → (newer m n ≡ true) ⊎ (newer n m ≡ true)
newer_total m n = ground arith

pub newer_trans : (k m n : Message) → newer k m ≡ true → newer m n ≡ true → newer k n ≡ true
newer_trans k m n h i = ground arith

unfoldable pub newest_first : Sort Message
newest_first = record { le = newer; total = newer_total; trans = newer_trans }

-- A single document, `ErrNoDocuments` becoming `ErrNotFound`.
abbrev pub or_not_found : {A : Type 0} → Reply A → Result Error A
or_not_found (ok a) = ok a
or_not_found (err no_documents) = err not_found
or_not_found (err e) = err (driver e)

abbrev pub or_driver : {A : Type 0} → Reply A → Result Error A
or_driver (ok a) = ok a
or_driver (err e) = err (driver e)

abbrev pub has_id : ObjectId → Message → Bool
has_id id m = m.id == id

unfoldable pub get : ObjectId → Action Message
get id = call (messages (find_one (has_id id) any_order)) λ r. done (or_not_found r)

unfoldable pub list_filter : ObjectId → ℤ → Message → Bool
unfolding in_channel
list_filter ch before m =
    in_channel ch m && (if ltb_ℤ (pos 0) before then ltb_ℤ m.sequence before else true)

unfoldable pub list : ObjectId → ℤ → ℤ → Action (List Message)
list ch limit before =
    call (messages (find (list_filter ch before) newest_first limit)) λ r. done (or_driver r)
