-- ===== src/Message/ReadCursor/Monotone.antt =====
-- What advancing a read cursor may leave behind, with no other writer in between.
use lens_chat_service.Prelude.{
  ℤ, ◌≡◌, ◌∙◌, refl, sym, subst, ap, ◌⊎◌, inl, inr, Bool, true, false, List, [], ◌∷◌, ◌++◌, none,
  some, ok, err,
}
use lens_chat_service.GoText.{Bytes}
use lens_chat_service.Schema.{ObjectId, Channel, ChannelState, OutboxEvent, read_cursor_advanced}
use lens_chat_service.Mongo.{
  Reply, UpdateResult, Found, Inserted, Modified, UpdatedOne, IsUnique, NoneMatch, any_order,
  no_documents, duplicate_key, driver_failed,
}
use lens_chat_service.Store.{
  View, Ensures, After-find_state, IsIndexed, state_clash, event_clash, channel_clash,
}
use lens_chat_service.Message.Events.{Fresh, outbox_event, cursor_data}
use lens_chat_service.Message.Mutate.{bump_version}
use lens_chat_service.Message.ReadCursor.{
  cursor_of, behind, advance, new_cursor, has_advanced, is_member, after_event, after_bump,
  after_state, read_back, after_advance, read,
}
use lens_chat_service.Message.ReadCursor.Cursors.{same_cursor, not_behind}
use lens_chat_service.Message.ReadCursor.Spec.{
  HasCursor, AllBefore, Moves, IsVersioned, IsCutShort, Reads,
}
use lens_chat_service.Message.ReadCursor.Update.{
  has_advanced_matched, has_advanced_upserted, matched_lem, upserted_lem, blocked_lem,
}

module _ (hex : ObjectId → Bytes) (fresh : Fresh) (ch : ObjectId) (user : Bytes) (seq : ℤ) where
  module _ (v : View) (ds : List ChannelState) (stored : HasCursor ch user ds seq)
      (before : AllBefore ch user seq v.states) (moved : Moves fresh ch user seq v.states ds) where
    cut_short :
        (cs : List Channel) (os : List OutboxEvent)
        → ((cs ≡ v.channels) × (os ≡ v.outbox))
          ⊎ IsVersioned hex fresh ch user seq v
              (record v { states = ds; channels = cs; outbox = os })
        → IsCutShort hex fresh ch user seq v (record v { states = ds; channels = cs; outbox = os })
    cut_short cs os h = record {
      moved = moved;
      stored = stored;
      before = before;
      rest = h;
      messages = refl;
      leases = refl;
    }

    bump_lem :
        (n : ℤ) (r : Reply Channel) (cs : List Channel)
        → n ≡ seq
        → Modified channel_clash (is_member ch user) bump_version none v.channels r cs
        → Ensures
            (after_bump hex fresh ch user n r)
            (Reads hex fresh ch user seq v)
            (record v { states = ds; channels = cs })
    unfolding after_bump
    bump_lem n (ok channel) cs e (inl (c, made)) = λ r os d _. event r os d
      where
        row : ℤ → Channel → OutboxEvent
        row k x = outbox_event hex fresh fresh.now read_cursor_advanced x (cursor_data hex x user k)

        event :
            (r : Reply (Unit {0})) (os : List OutboxEvent)
            → Inserted event_clash (row n channel) v.outbox r os
            → Ensures
                (after_event hex fresh ch user n r)
                (Reads hex fresh ch user seq v)
                (record v { states = ds; channels = cs; outbox = os })
        event (ok _) os d =
            unfold after_event in
            inr (record {
              asked = e;
              moved = moved;
              stored = stored;
              before = before;
              versioned = c;
              announced =
                  d
                  ∙ ap (λ k. v.outbox ++ row k channel ∷ []) e
                  ∙ ap (λ x. v.outbox ++ row seq x ∷ []) made;
              messages = refl;
              leases = refl;
            })
        event (err no_documents) os d =
            unfold after_event in
            inr (cut_short cs os (inr (record { versioned = c; announced_or_not = inl d })))
        event (err duplicate_key) os (d, _) =
            unfold after_event in
            inr (cut_short cs os (inr (record { versioned = c; announced_or_not = inl d })))
        event (err (driver_failed k)) os (inl d) =
            unfold after_event in
            inr (cut_short cs os (inr (record { versioned = c; announced_or_not = inl d })))
        event (err (driver_failed k)) os (inr d) =
            unfold after_event in
            inr (
              cut_short cs os (
                inr (record {
                  versioned = c;
                  announced_or_not = inr (
                      d
                      ∙ ap (λ k. v.outbox ++ row k channel ∷ []) e
                      ∙ ap (λ x. v.outbox ++ row seq x ∷ []) made);
                })))
    bump_lem n (ok channel) cs e (inr (h, _)) = absurd h
    bump_lem n (err no_documents) cs e (same, h) =
        (stored, moved, before, refl, h, same, refl, refl)
    bump_lem n (err duplicate_key) cs e (same, _) = inr (cut_short cs v.outbox (inl (same, refl)))
    bump_lem n (err (driver_failed k)) cs e (inl same) =
        inr (cut_short cs v.outbox (inl (same, refl)))
    bump_lem n (err (driver_failed k)) cs e (inr (inl c)) =
        inr (cut_short cs v.outbox (inr (record { versioned = c; announced_or_not = inl refl })))
    bump_lem n (err (driver_failed k)) cs e (inr (inr h)) = absurd h

    moved_lem :
        (r : Reply ChannelState)
        → IsUnique state_clash ds
        → Found (cursor_of ch user) any_order ds r
        → Ensures
            (after_state hex fresh ch user true r)
            (Reads hex fresh ch user seq v)
            (record v { states = ds })
    unfolding after_state
    moved_lem (ok d) u (i, own, _) = λ r cs m _.
        bump_lem d.last_read_seq r cs
          (ap (λ (s : ChannelState). s.last_read_seq)
              (same_cursor ch user ds d stored.0 u i stored.1 own stored.2)
            ∙ stored.3)
          m
    moved_lem (err e) u f = inr (cut_short v.channels v.outbox (inl (refl, refl)))

  unmoved_lem :
      (v : View) (r : Reply ChannelState)
      → NoneMatch (behind ch user seq) v.states
      → Found (cursor_of ch user) any_order v.states r
      → Ensures (after_state hex fresh ch user false r) (Reads hex fresh ch user seq v) v
  unfolding after_state
  unmoved_lem v (ok d) none_behind (i, own, _) =
      inl (refl, (d, i, own, refl), not_behind ch user seq d (none_behind d i) own)
  unmoved_lem v (err e) none_behind f = inl refl

  back_lem :
      (v w : View) (advanced : Bool)
      → ((r : Reply ChannelState)
          → Found (cursor_of ch user) any_order w.states r
          → Ensures (after_state hex fresh ch user advanced r) (Reads hex fresh ch user seq v) w)
      → Ensures (read_back hex fresh ch user advanced) (Reads hex fresh ch user seq v) w
  unfolding read_back
  back_lem v w advanced k =
      After-find_state (cursor_of ch user) any_order
        (λ r x.
          Ensures (after_state hex fresh ch user advanced r) (Reads hex fresh ch user seq v) x)
        w k

  advanced_lem :
      (v : View) (r : UpdateResult) (ds : List ChannelState)
      → has_advanced r ≡ true
      → HasCursor ch user ds seq
      → AllBefore ch user seq v.states
      → Moves fresh ch user seq v.states ds
      → IsUnique state_clash ds
      → Ensures
          (read_back hex fresh ch user (has_advanced r))
          (Reads hex fresh ch user seq v)
          (record v { states = ds })
  advanced_lem v r ds e stored before moved unique = rw e (
      back_lem v (record v { states = ds }) true
        (λ r f. moved_lem v ds stored before moved r unique f))

  advance_lem :
      (v : View) (r : Reply UpdateResult) (ds : List ChannelState)
      → IsUnique state_clash v.states
      → IsUnique state_clash ds
      → UpdatedOne state_clash
          (behind ch user seq)
          (advance seq fresh.now)
          (some (new_cursor fresh ch user seq))
          v.states
          r
          ds
      → Ensures
          (after_advance hex fresh ch user r)
          (Reads hex fresh ch user seq v)
          (record v { states = ds })
  unfolding after_advance
  advance_lem v (ok r) ds unique unique' (inl (e, u)) =
      let h = matched_lem fresh ch user seq v ds unique u in
      advanced_lem v r ds (has_advanced_matched r e) h.0 h.1 h.2 unique'
  advance_lem v (ok r) ds unique unique' (inr (inl (e, k, (_, grown)))) =
      let h = upserted_lem fresh ch user seq v ds unique' grown in
      advanced_lem v r ds (has_advanced_upserted r k) h.0 h.1 h.2 unique'
  advance_lem v (ok r) ds unique unique' (inr (inr (_, _, _, h))) = absurd h
  advance_lem v (err no_documents) ds unique unique' same =
      inl (ap (λ l. record v { states = l }) same)
  advance_lem v (err duplicate_key) ds unique unique' (same, blocked) =
      back_lem v (record v { states = ds }) false
        (subst
          (λ l.
            (r : Reply ChannelState)
            → Found (cursor_of ch user) any_order l r
            → Ensures (after_state hex fresh ch user false r) (Reads hex fresh ch user seq v)
                (record v { states = l }))
          (sym same) (λ r f. unmoved_lem v r (blocked_lem fresh ch user seq v unique blocked) f))
  advance_lem v (err (driver_failed n)) ds unique unique' (inl same) =
      inl (ap (λ l. record v { states = l }) same)
  advance_lem v (err (driver_failed n)) ds unique unique' (inr (inl u)) =
      let h = matched_lem fresh ch user seq v ds unique u in
      inr (cut_short v ds h.0 h.1 h.2 v.channels v.outbox (inl (refl, refl)))
  advance_lem v (err (driver_failed n)) ds unique unique' (inr (inr (_, grown))) =
      let h = upserted_lem fresh ch user seq v ds unique' grown in
      inr (cut_short v ds h.0 h.1 h.2 v.channels v.outbox (inl (refl, refl)))

  -- A read cursor never goes back. Where the user's stored cursor has already reached `seq`, `Read`
  -- answers it and changes nothing. Otherwise the cursor is moved to `seq`, or created there, `seq`
  -- is answered, and one event is put at the end of the outbox under the channel's next version;
  -- where the channel is gone the cursor is moved, `not found` is answered and no event is
  -- written. The only other outcome is a driver failure: then nothing is changed, or the cursor is
  -- moved in this way and what follows was done up to some point. In every case all other cursors
  -- stay as they are, and so does what is not named here.
  pub read-Reads :
      (v : View)
      → IsIndexed v
      → Ensures (read hex fresh ch user seq) (Reads hex fresh ch user seq v) v
  unfolding read
  read-Reads v unique = λ r ds d u. advance_lem v r ds unique.states u d
