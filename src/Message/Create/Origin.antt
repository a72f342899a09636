-- ===== src/Message/Create/Origin.antt =====
-- Which messages `Create` may leave behind, whatever the driver answers.
use lens_chat_service.Prelude.{
  ℕ, zero, suc, ◌≡◌, refl, subst, sym, ap, ◌⊎◌, inl, inr, Bool, true, false, List, [], ◌∷◌, ◌++◌,
  ok, err, IsIn, IsIn-concat, ℤ, pos, eqb_ℤ, inc64, Bool-cases, if◌then◌else◌,
}
use lens_chat_service.GoText.{Bytes, str_eq}
use lens_chat_service.Schema.{ObjectId, Message, Channel}
use lens_chat_service.Mongo.{
  Reply, Inserted, Deleted, Removed, no_documents, duplicate_key, driver_failed,
}
use lens_chat_service.Response.{conflict}
use lens_chat_service.Store.{Action, View, Ensures, message_clash}
use lens_chat_service.Message.Events.{Fresh}
use lens_chat_service.Message.Queries.{has_id}
use lens_chat_service.Message.Create.{
  Saved, existing_of, settle, existing_or, after_event, after_summary, finish, after_insert,
  insert_after, after_latest, after_channel, attempts, max_attempts, create,
}
use lens_chat_service.Message.Create.Spec.{stamped}

module _ (hex : ObjectId → Bytes) (fresh : Fresh) (msg : Message) (old : List Message) where
  -- Every document was there before or is the message of the request.
  abbrev pub OnlyAdds : List Message → Type 0
  OnlyAdds ms = (x : Message) → IsIn x ms → IsIn x old ⊎ (x ≡ stamped fresh msg x.sequence)

  abbrev Keeps : Action Saved → View → Type 0
  Keeps m v = Ensures m (λ _ w. OnlyAdds w.messages) v

  abbrev Stamped : Message → Type 0
  Stamped c = c ≡ stamped fresh msg c.sequence

  inserted :
      (ms ds : List Message) (c : Message)
      → OnlyAdds ms
      → Stamped c
      → ds ≡ ms ++ c ∷ []
      → OnlyAdds ds
  inserted ms ds c h s e x i = elim (IsIn-concat x c ms (subst (IsIn x) e i)) [
    | inl j ↦ h x j
    | inr q ↦ inr (subst Stamped (sym q) s)
  ]

  removed :
      (ms ds : List Message) (p : Message → Bool) → OnlyAdds ms → Removed p ms ds → OnlyAdds ds
  removed ms ds p h u x i =
      h x (subst (IsIn x) (sym u.before) (back u.pre (subst (IsIn x) u.after i)))
    where
      back : (pre : List Message) → IsIn x (pre ++ u.post) → IsIn x (pre ++ (u.old ∷ u.post))
      back [] k = inr k
      back (z ∷ pre) (inl q) = inl q
      back (z ∷ pre) (inr k) = inr (back pre k)

  deleted :
      (ms ds : List Message) (p : Message → Bool) (r : Reply (Unit {0}))
      → OnlyAdds ms
      → Deleted p ms r ds
      → OnlyAdds ds
  deleted ms ds p (ok _) h (inl u) = removed ms ds p h u
  deleted ms ds p (ok _) h (inr (e, _)) = subst OnlyAdds (sym e) h
  deleted ms ds p (err e) h (inl q) = subst OnlyAdds (sym q) h
  deleted ms ds p (err e) h (inr u) = removed ms ds p h u

  event-Keeps :
      (c : Message) (r : Reply (Unit {0})) (v : View)
      → OnlyAdds v.messages
      → Keeps (after_event hex fresh c r) v
  unfolding after_event
  event-Keeps c (ok _) v h = h
  event-Keeps c (err e) v h = h

  summary-Keeps :
      (c : Message) (r : Reply Channel) (v : View)
      → OnlyAdds v.messages
      → Keeps (after_summary hex fresh c r) v
  unfolding after_summary
  summary-Keeps c (ok ch) v h = λ r ds d _. event-Keeps c r (record v { outbox = ds }) h
  summary-Keeps c (err no_documents) v h = λ r ds d _. deleted v.messages ds (has_id c.id) r h d
  summary-Keeps c (err duplicate_key) v h = h
  summary-Keeps c (err (driver_failed n)) v h = h

  finish-Keeps : (c : Message) (v : View) → OnlyAdds v.messages → Keeps (finish hex fresh c) v
  unfolding finish
  finish-Keeps c v h = elim (Bool-cases (eqb_ℤ c.sequence (pos 0))) [
    | inl e ↦ rw e h
    | inr e ↦ rw e λ r cs d _. summary-Keeps c r (record v { channels = cs }) h
  ]

  -- The rest of the loop keeps the messages, wherever it starts.
  abbrev Safe : Action Saved → Type 0
  Safe rest = (v : View) → OnlyAdds v.messages → Keeps rest v

  hash-Keeps :
      (b : Bool) (m : Message) (rest : Action Saved) (v : View)
      → OnlyAdds v.messages
      → Keeps (settle (if b then ok m else err conflict) rest) v
  unfolding settle
  hash-Keeps true m rest v h = h
  hash-Keeps false m rest v h = h

  settle-Keeps :
      (q : Message) (rest : Action Saved) (r : Reply Message) (v : View)
      → Safe rest
      → OnlyAdds v.messages
      → Keeps (settle (existing_of q r) rest) v
  unfolding settle existing_of
  settle-Keeps q rest (ok m) v safe h = hash-Keeps (str_eq m.request_hash q.request_hash) m rest v h
  settle-Keeps q rest (err no_documents) v safe h = safe v h
  settle-Keeps q rest (err duplicate_key) v safe h = h
  settle-Keeps q rest (err (driver_failed n)) v safe h = h

  existing_keeps : (q : Message) (rest : Action Saved) → Safe rest → Safe (existing_or q rest)
  unfolding existing_or
  existing_keeps q rest safe v h = λ r ds d _.
      settle-Keeps q rest r (record v { messages = ds }) safe (subst OnlyAdds (sym d.0) h)

  insert-Keeps :
      (q c : Message) (rest : Action Saved) (r : Reply (Unit {0})) (v : View) (ds : List Message)
      → Safe rest
      → Stamped c
      → OnlyAdds v.messages
      → Inserted message_clash c v.messages r ds
      → Keeps (after_insert hex fresh q c rest r) (record v { messages = ds })
  unfolding after_insert
  insert-Keeps q c rest (ok _) v ds safe s h d =
      finish-Keeps c (record v { messages = ds }) (inserted v.messages ds c h s d)
  insert-Keeps q c rest (err no_documents) v ds safe s h d = subst OnlyAdds (sym d) h
  insert-Keeps q c rest (err duplicate_key) v ds safe s h d =
      existing_keeps q rest safe (record v { messages = ds }) (subst OnlyAdds (sym d.0) h)
  insert-Keeps q c rest (err (driver_failed n)) v ds safe s h (inl d) = subst OnlyAdds (sym d) h
  insert-Keeps q c rest (err (driver_failed n)) v ds safe s h (inr d) =
      inserted v.messages ds c h s d

  sequence_keeps :
      (q : Message) (n : ℤ) (rest : Action Saved)
      → Stamped q
      → Safe rest
      → Safe (insert_after hex fresh q n rest)
  unfolding insert_after
  sequence_keeps q n rest s safe v h = λ r ds d _.
      insert-Keeps q (record q { sequence = inc64 n }) rest r v ds safe
        (ap (λ (x : Message). record x { sequence = inc64 n }) s) h d

  latest_keeps :
      (q : Message) (ch : Channel) (rest : Action Saved) (r : Reply Message)
      → Stamped q
      → Safe rest
      → Safe (after_latest hex fresh q ch rest r)
  unfolding after_latest
  latest_keeps q ch rest (ok m) s safe v h = sequence_keeps q _ rest s safe v h
  latest_keeps q ch rest (err no_documents) s safe v h =
      sequence_keeps q ch.last_message_seq rest s safe v h
  latest_keeps q ch rest (err duplicate_key) s safe v h = h
  latest_keeps q ch rest (err (driver_failed n)) s safe v h = h

  channel_keeps :
      (q : Message) (rest : Action Saved) (r : Reply Channel)
      → Stamped q
      → Safe rest
      → Safe (after_channel hex fresh q rest r)
  unfolding after_channel
  channel_keeps q rest (ok ch) s safe v h = λ r ds d _.
      latest_keeps q ch rest r s safe (record v { messages = ds }) (subst OnlyAdds (sym d.0) h)
  channel_keeps q rest (err no_documents) s safe v h = h
  channel_keeps q rest (err duplicate_key) s safe v h = h
  channel_keeps q rest (err (driver_failed n)) s safe v h = h

  attempts_keep : (n : ℕ) (q : Message) → Stamped q → Safe (attempts hex fresh n q)
  unfolding attempts
  attempts_keep zero q s v h = finish-Keeps q v h
  attempts_keep (suc n) q s v h = λ r cs d _.
      channel_keeps q (attempts hex fresh n q) r s (attempts_keep n q s)
        (record v { channels = cs }) h

  pub create-OnlyAdds :
      (v : View)
      → OnlyAdds v.messages
      → Ensures (create hex fresh msg) (λ _ w. OnlyAdds w.messages) v
  unfolding create
  create-OnlyAdds v h =
      existing_keeps msg _ (attempts_keep max_attempts (stamped fresh msg msg.sequence) refl) v h
