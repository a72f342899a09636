-- ===== src/Message/ReadCursor/Interleaved.antt =====
-- `Read` next to other requests.
use lens_chat_service.Prelude.{◌≡◌, refl, ok, err, Bool, true, false, some, ℤ, IsIn, arith}
use lens_chat_service.GoText.{Bytes}
use lens_chat_service.Schema.{ObjectId, Time, Channel, ChannelState, read_cursor_advanced}
use lens_chat_service.Mongo.{
  Reply, UpdateResult, any_order, no_documents, duplicate_key, driver_failed,
}
use lens_chat_service.Store.{View}
use lens_chat_service.History.{
  CursorNext, Abides, Abides-find_state, Abides-update_state, Abides-modify_channel,
}
use lens_chat_service.Message.Events.{Fresh, cursor_data}
use lens_chat_service.Message.Events.Covered.{Abides-announce}
use lens_chat_service.Message.Mutate.{bump_version}
use lens_chat_service.Message.Mutate.Interleaved.{bump_version-ChannelNext}
use lens_chat_service.Message.ReadCursor.{
  cursor_of, behind, advance, new_cursor, has_advanced, is_member, after_event, after_bump,
  after_state, read_back, after_advance, read,
}

advance-CursorNext :
    (ch : ObjectId) (user : Bytes) (seq : ℤ) (now : Time) (s : ChannelState)
    → behind ch user seq s ≡ true
    → CursorNext s (advance seq now s)
unfolding behind advance
advance-CursorNext ch user seq now s h = record { same = refl; sequence = ground arith }

module _ (hex : ObjectId → Bytes) (fresh : Fresh) (ch : ObjectId) (user : Bytes) where
  event-Abides :
      (n : ℤ) (r : Reply (Unit {0})) (v : View) → Abides hex v (after_event hex fresh ch user n r)
  unfolding after_event
  event-Abides n (ok _) v = tt
  event-Abides n (err e) v = tt

  bump-Abides :
      (n : ℤ) (r : Reply Channel) (v : View)
      → ((c : Channel) → r ≡ ok c → IsIn c v.channels)
      → Abides hex v (after_bump hex fresh ch user n r)
  unfolding after_bump
  bump-Abides n (ok c) v stored =
      Abides-announce hex fresh fresh.now read_cursor_advanced c (cursor_data hex c user n) v
        (stored c refl) (after_event hex fresh ch user n) (event-Abides n)
  bump-Abides n (err no_documents) v stored = tt
  bump-Abides n (err duplicate_key) v stored = tt
  bump-Abides n (err (driver_failed k)) v stored = tt

  state-Abides :
      (advanced : Bool) (r : Reply ChannelState) (v : View)
      → Abides hex v (after_state hex fresh ch user advanced r)
  unfolding after_state
  state-Abides true (ok s) v =
      Abides-modify_channel hex v (is_member ch user) bump_version
        (after_bump hex fresh ch user s.last_read_seq) (λ c _. bump_version-ChannelNext c)
        λ r w e stored. bump-Abides s.last_read_seq r w stored
  state-Abides false (ok s) v = tt
  state-Abides true (err e) v = tt
  state-Abides false (err e) v = tt

  read_back-Abides :
      (advanced : Bool) (v : View) → Abides hex v (read_back hex fresh ch user advanced)
  unfolding read_back
  read_back-Abides advanced v =
      Abides-find_state hex v (cursor_of ch user) any_order (after_state hex fresh ch user advanced)
        λ r w e. state-Abides advanced r w

  advance-Abides :
      (r : Reply UpdateResult) (v : View) → Abides hex v (after_advance hex fresh ch user r)
  unfolding after_advance
  advance-Abides (ok r) v = read_back-Abides (has_advanced r) v
  advance-Abides (err no_documents) v = tt
  advance-Abides (err duplicate_key) v = read_back-Abides false v
  advance-Abides (err (driver_failed n)) v = tt

  pub read-Abides : (seq : ℤ) (v : View) → Abides hex v (read hex fresh ch user seq)
  unfolding read
  read-Abides seq v =
      Abides-update_state hex v (behind ch user seq) (advance seq fresh.now)
        (some (new_cursor fresh ch user seq)) (after_advance hex fresh ch user)
        (λ s h. advance-CursorNext ch user seq fresh.now s h) λ r w e. advance-Abides r w
