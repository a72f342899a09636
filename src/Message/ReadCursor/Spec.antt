-- ===== src/Message/ReadCursor/Spec.antt =====
-- What advancing a read cursor may leave behind.
use lens_chat_service.Prelude.{
  ℤ, ◌≤ℤ◌, ◌<ℤ◌, ◌≡◌, ◌⊎◌, true, List, [], ◌∷◌, ◌++◌, Result, ok, err, IsIn,
}
use lens_chat_service.GoText.{Bytes}
use lens_chat_service.Schema.{ObjectId, Time, ChannelState, read_cursor_advanced}
use lens_chat_service.Mongo.{Updated, NoneMatch}
use lens_chat_service.Response.{Error, not_found, driver}
use lens_chat_service.Store.{View}
use lens_chat_service.Message.Events.{Fresh, outbox_event, cursor_data}
use lens_chat_service.Message.Mutate.{bump_version}
use lens_chat_service.Message.ReadCursor.{cursor_of, is_member}

abbrev pub moved_to : ℤ → Time → ChannelState → ChannelState
moved_to n now s = record s { last_read_seq = n; updated_at = now }

abbrev pub first_cursor : Fresh → ObjectId → Bytes → ℤ → ChannelState
first_cursor fresh ch user n = record {
  id = fresh.id;
  channel_id = ch;
  user_id = user;
  last_read_seq = n;
  updated_at = fresh.now;
}

module _ (ch : ObjectId) (user : Bytes) where
  -- The user's cursor stands at `n`.
  abbrev pub HasCursor : List ChannelState → ℤ → Type 0
  HasCursor docs n =
      (s : ChannelState) × IsIn s docs × (cursor_of ch user s ≡ true) × (s.last_read_seq ≡ n)

module _ (ch : ObjectId) (user : Bytes) (seq : ℤ) where
  -- Every cursor of the user is before `seq`.
  abbrev pub AllBefore : List ChannelState → Type 0
  AllBefore docs =
      (s : ChannelState) → IsIn s docs → cursor_of ch user s ≡ true → s.last_read_seq <ℤ seq

module _ (fresh : Fresh) (ch : ObjectId) (user : Bytes) (seq : ℤ) where
  -- The user's cursor was brought to `seq`, or is new there. All others are as they were.
  abbrev pub Moves : List ChannelState → List ChannelState → Type 0
  Moves docs docs' =
      ((u : Updated (cursor_of ch user) (moved_to seq fresh.now) docs docs') × (u.old.last_read_seq
          <ℤ seq))
      ⊎ (NoneMatch (cursor_of ch user) docs × (docs' ≡ docs ++ first_cursor fresh ch user seq ∷ []))

module _ (hex : ObjectId → Bytes) (fresh : Fresh) (ch : ObjectId) (user : Bytes) (seq : ℤ) where
  -- The channel was brought to its next version; the event was written or not.
  pub record IsVersioned (v w : View) : Type 0 where
    pub versioned : Updated (is_member ch user) bump_version v.channels w.channels
    pub announced_or_not :
        (w.outbox ≡ v.outbox)
        ⊎ (w.outbox
            ≡ v.outbox
              ++ outbox_event hex fresh fresh.now read_cursor_advanced
                  (bump_version versioned.old)
                  (cursor_data hex (bump_version versioned.old) user seq)
                ∷ [])

  -- The cursor was moved, and the driver failed at that or later.
  pub record IsCutShort (v w : View) : Type 0 where
    pub moved : Moves fresh ch user seq v.states w.states
    pub stored : HasCursor ch user w.states seq
    pub before : AllBefore ch user seq v.states
    pub rest : ((w.channels ≡ v.channels) × (w.outbox ≡ v.outbox)) ⊎ IsVersioned v w
    pub messages : w.messages ≡ v.messages
    pub leases : w.leases ≡ v.leases

  pub record IsMoved (v w : View) (n : ℤ) : Type 0 where
    pub asked : n ≡ seq
    pub moved : Moves fresh ch user seq v.states w.states
    pub stored : HasCursor ch user w.states seq
    pub before : AllBefore ch user seq v.states
    pub versioned : Updated (is_member ch user) bump_version v.channels w.channels
    pub announced :
        w.outbox
        ≡ v.outbox
          ++ outbox_event hex fresh fresh.now read_cursor_advanced
              (bump_version versioned.old)
              (cursor_data hex (bump_version versioned.old) user seq)
            ∷ []
    pub messages : w.messages ≡ v.messages
    pub leases : w.leases ≡ v.leases

  abbrev pub IsUnmoved : View → View → ℤ → Type 0
  IsUnmoved v w n = (w ≡ v) × HasCursor ch user v.states n × (seq ≤ℤ n)

  abbrev pub Reads : View → Result Error ℤ → View → Type 0
  Reads v (ok n) w = IsUnmoved v w n ⊎ IsMoved v w n
  Reads v (err not_found) w =
      HasCursor ch user w.states seq
      × Moves fresh ch user seq v.states w.states
      × AllBefore ch user seq v.states
      × (w.outbox ≡ v.outbox)
      × NoneMatch (is_member ch user) v.channels
      × (w.channels ≡ v.channels)
      × (w.messages ≡ v.messages)
      × (w.leases ≡ v.leases)
  Reads v (err (driver e)) w = (w ≡ v) ⊎ IsCutShort v w
  Reads v (err _) w = ⊥
