-- ===== src/Message/ReadCursor/Update.antt =====
-- What the update of a read cursor does to the stored cursors.
use lens_chat_service.Prelude.{
  ℤ, ◌<ℤ◌, ◌≡◌, ◌∙◌, refl, sym, subst, inl, inr, true, List, [], ◌∷◌, ◌++◌, some, Bool-cases, arith,
  IsIn, IsIn-append_self,
}
use lens_chat_service.GoText.{Bytes}
use lens_chat_service.Schema.{ObjectId, ChannelState}
use lens_chat_service.Mongo.{
  UpdateResult, Updated, IsBlocked, IsUnique, NoneMatch, Updated-old, Updated-new, IsUnique-concat,
}
use lens_chat_service.Store.{View, state_clash}
use lens_chat_service.Message.Events.{Fresh}
use lens_chat_service.Message.ReadCursor.{cursor_of, behind, advance, new_cursor, has_advanced}
use lens_chat_service.Message.ReadCursor.Cursors.{
  clash_of_cursor, same_cursor, behind_parts, advance-cursor_of, new_cursor-cursor_of,
  advance-IsUnique,
}
use lens_chat_service.Message.ReadCursor.Spec.{HasCursor, AllBefore, Moves}

pub has_advanced_matched : (r : UpdateResult) → r.matched_count ≡ 1 → has_advanced r ≡ true
unfolding has_advanced
has_advanced_matched r e = ground arith

pub has_advanced_upserted : (r : UpdateResult) → r.upserted_count ≡ 1 → has_advanced r ≡ true
unfolding has_advanced
has_advanced_upserted r e = ground arith

module _ (fresh : Fresh) (ch : ObjectId) (user : Bytes) (seq : ℤ) where
  -- The update changed a stored cursor.
  pub matched_lem :
      (v : View) (ds : List ChannelState)
      → IsUnique state_clash v.states
      → Updated (behind ch user seq) (advance seq fresh.now) v.states ds
      → HasCursor ch user ds seq
        × AllBefore ch user seq v.states
        × Moves fresh ch user seq v.states ds
  unfolding advance
  matched_lem v ds unique u =
      let old = behind_parts ch user seq u.old u.matched in
      (
        (
          advance seq fresh.now u.old,
          Updated-new u,
          advance-cursor_of ch user seq fresh.now u.old ∙ old.0,
          refl,
        ),
        λ s i own.
            subst (λ (c : ChannelState). c.last_read_seq <ℤ seq)
              (same_cursor ch user v.states u.old s unique (Updated-old u) i old.0 own) old.1,
        inl (
          record {
            old = u.old;
            pre = u.pre;
            post = u.post;
            matched = old.0;
            before = u.before;
            after = u.after;
          },
          old.1,
        ),
      )

  -- The update inserted the user's first cursor.
  pub upserted_lem :
      (v : View) (ds : List ChannelState)
      → IsUnique state_clash ds
      → ds ≡ v.states ++ new_cursor fresh ch user seq ∷ []
      → HasCursor ch user ds seq
        × AllBefore ch user seq v.states
        × Moves fresh ch user seq v.states ds
  unfolding new_cursor
  upserted_lem v ds unique e =
      let own_new = new_cursor-cursor_of fresh ch user seq in
      let absent : NoneMatch (cursor_of ch user) v.states = λ s i.
        elim (Bool-cases (cursor_of ch user s)) [
          | inl own ↦ cc (
            IsUnique-concat state_clash v.states (new_cursor fresh ch user seq) s
                (subst (IsUnique state_clash) e unique) i,
            clash_of_cursor ch user s (new_cursor fresh ch user seq) own own_new,
          )
          | inr other ↦ other
        ] in
      (
        (
          new_cursor fresh ch user seq,
          subst (IsIn (new_cursor fresh ch user seq)) (sym e) (IsIn-append_self _ v.states),
          own_new,
          refl,
        ),
        λ s i own. cc (absent s i, own),
        inr (absent, e),
      )

  -- The update was refused by the unique index, so no cursor is behind.
  pub blocked_lem :
      (v : View)
      → IsUnique state_clash v.states
      → IsBlocked state_clash
          (behind ch user seq)
          (advance seq fresh.now)
          (some (new_cursor fresh ch user seq))
          v.states
      → NoneMatch (behind ch user seq) v.states
  blocked_lem v unique (inl (d, e, h, _)) = h
  blocked_lem v unique (inr (old, pre, post, e, h, broken)) =
      absurd (
        broken
          (advance-IsUnique seq fresh.now old pre post (subst (IsUnique state_clash) e unique)))
