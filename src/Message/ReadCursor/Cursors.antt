-- ===== src/Message/ReadCursor/Cursors.antt =====
-- Facts about stored cursors.
use lens_chat_service.Prelude.{ℤ, ◌≤ℤ◌, ◌<ℤ◌, ◌≡◌, refl, true, false, List, ◌∷◌, ◌++◌, arith, IsIn}
use lens_chat_service.GoText.{Bytes, str_eq_iff}
use lens_chat_service.Schema.{ObjectId, Time, ChannelState}
use lens_chat_service.Mongo.{IsUnique, eq_of_clash, IsUnique-replace}
use lens_chat_service.Store.{state_clash}
use lens_chat_service.Message.Events.{Fresh}
use lens_chat_service.Message.ReadCursor.{cursor_of, behind, advance, new_cursor}

-- Two cursors of one user in one channel clash.
pub clash_of_cursor :
    (ch : ObjectId) (user : Bytes) (s t : ChannelState)
    → cursor_of ch user s ≡ true
    → cursor_of ch user t ≡ true
    → state_clash s t ≡ true
unfolding cursor_of state_clash
clash_of_cursor ch user s t h k =
    ground
      (arith, str_eq_iff s.user_id user, str_eq_iff t.user_id user, str_eq_iff s.user_id t.user_id)

pub same_cursor :
    (ch : ObjectId) (user : Bytes) (docs : List ChannelState) (s t : ChannelState)
    → IsUnique state_clash docs
    → IsIn s docs
    → IsIn t docs
    → cursor_of ch user s ≡ true
    → cursor_of ch user t ≡ true
    → s ≡ t
same_cursor ch user docs s t u i j h k =
    eq_of_clash state_clash docs s t u i j (clash_of_cursor ch user s t h k)
      (clash_of_cursor ch user t s k h)

pub behind_parts :
    (ch : ObjectId) (user : Bytes) (seq : ℤ) (s : ChannelState)
    → behind ch user seq s ≡ true
    → (cursor_of ch user s ≡ true) × (s.last_read_seq <ℤ seq)
unfolding behind
behind_parts ch user seq s h = ground arith

pub not_behind :
    (ch : ObjectId) (user : Bytes) (seq : ℤ) (s : ChannelState)
    → behind ch user seq s ≡ false
    → cursor_of ch user s ≡ true
    → seq ≤ℤ s.last_read_seq
unfolding behind
not_behind ch user seq s h k = ground arith

pub advance-cursor_of :
    (ch : ObjectId) (user : Bytes) (seq : ℤ) (now : Time) (s : ChannelState)
    → cursor_of ch user (advance seq now s) ≡ cursor_of ch user s
unfolding cursor_of advance
advance-cursor_of ch user seq now s = refl

pub new_cursor-cursor_of :
    (fresh : Fresh) (ch : ObjectId) (user : Bytes) (seq : ℤ)
    → cursor_of ch user (new_cursor fresh ch user seq) ≡ true
unfolding cursor_of new_cursor
new_cursor-cursor_of fresh ch user seq = ground (arith, str_eq_iff user user)

-- Advancing a cursor keeps the unique indexes.
pub advance-IsUnique :
    (seq : ℤ) (now : Time) (s : ChannelState) (pre post : List ChannelState)
    → IsUnique state_clash (pre ++ (s ∷ post))
    → IsUnique state_clash (pre ++ (advance seq now s ∷ post))
unfolding advance state_clash
advance-IsUnique seq now s pre post u =
    IsUnique-replace state_clash s (advance seq now s) (λ _. refl) (λ _. refl) pre post u
