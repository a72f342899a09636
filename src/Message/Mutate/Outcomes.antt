-- ===== src/Message/Mutate/Outcomes.antt =====
-- Every outcome of an edit or a recall.
use lens_chat_service.Prelude.{
  ◌≡◌, ◌∙◌, refl, subst, ap, ◌⊎◌, inl, inr, List, [], ◌∷◌, ◌++◌, Option, none, some, ok, err, true,
  false, arith,
}
use lens_chat_service.GoText.{Bytes, str_eq_iff}
use lens_chat_service.Schema.{
  ObjectId, Time, Message, Channel, EventType, OutboxEvent, message_created, message_updated,
  message_recalled, read_cursor_advanced,
}
use lens_chat_service.Mongo.{
  Reply, Inserted, Modified, Updated, NoneMatch, no_documents, duplicate_key, driver_failed,
}
use lens_chat_service.Store.{View, Ensures, event_clash, channel_clash, message_clash}
use lens_chat_service.Message.Events.{Fresh, outbox_event, message_data}
use lens_chat_service.Message.Mutate.{
  is_none, unchanged_since, revise, is_open, bump_version, after_event, after_bump, after_revision,
  mutate,
}
use lens_chat_service.Message.Mutate.Spec.{IsAsRead, revised, IsVersioned, IsCutShort, Mutates}

is_none_open : {A : Type 0} (o : Option A) → is_none o ≡ true → o ≡ none
is_none_open none h = refl
is_none_open (some a) h = cc h

as_read : (msg m : Message) → unchanged_since msg m ≡ true → IsAsRead msg m
unfolding unchanged_since
as_read msg m h = record {
  id = ground arith;
  sender = ground (arith, str_eq_iff m.sender_id msg.sender_id);
  revision = ground arith;
  not_recalled = is_none_open m.recalled_at (ground arith);
}

not-IsAsRead : (msg m : Message) → unchanged_since msg m ≡ false → ¬ IsAsRead msg m
unfolding unchanged_since
not-IsAsRead msg m h a =
    let recalled : is_none m.recalled_at ≡ true = ap is_none a.not_recalled in
    ground (arith, str_eq_iff m.sender_id msg.sender_id, a.id, a.sender, a.revision)

revise-revised :
    (content : Bytes) (kind : EventType) (now : Time) (old : Message)
    → revise content kind now old ≡ revised content kind now old
unfolding revise
revise-revised content message_created now old = refl
revise-revised content message_updated now old = refl
revise-revised content message_recalled now old = refl
revise-revised content read_cursor_advanced now old = refl

module _ (hex : ObjectId → Bytes) (fresh : Fresh) (kind : EventType) (msg : Message)
    (content : Bytes) where
  module _ (v : View) (ms : List Message)
      (u : Updated (unchanged_since msg) (revise content kind fresh.now) v.messages ms)
      (m : Message) (e : m ≡ revise content kind fresh.now u.old) where
    cut_short :
        (cs : List Channel) (os : List OutboxEvent)
        → ((cs ≡ v.channels) × (os ≡ v.outbox))
          ⊎ IsVersioned hex fresh kind msg content v
              (record v { messages = ms; channels = cs; outbox = os })
              m
        → IsCutShort hex fresh kind msg content v
            (record v { messages = ms; channels = cs; outbox = os })
    cut_short cs os h = record {
      change = u;
      as_read = as_read msg u.old u.matched;
      result = m;
      is_revised = e ∙ revise-revised content kind fresh.now u.old;
      rest = h;
      states = refl;
      leases = refl;
    }

    bump_lem :
        (r : Reply Channel) (cs : List Channel)
        → Modified channel_clash (is_open m.channel_id) bump_version none v.channels r cs
        → Ensures
            (after_bump hex fresh kind m r)
            (Mutates hex fresh kind msg content v)
            (record v { messages = ms; channels = cs })
    unfolding after_bump
    bump_lem (ok ch) cs (inl (c, made)) = λ r ds d _. event r ds d
      where
        row : Channel → OutboxEvent
        row x = outbox_event hex fresh fresh.now kind x (message_data hex x m)

        event :
            (r : Reply (Unit {0})) (ds : List OutboxEvent)
            → Inserted event_clash (row ch) v.outbox r ds
            → Ensures
                (after_event hex fresh kind m r)
                (Mutates hex fresh kind msg content v)
                (record v { messages = ms; channels = cs; outbox = ds })
        event (ok _) ds d =
            unfold after_event in
            record {
              change = u;
              as_read = as_read msg u.old u.matched;
              result = e ∙ revise-revised content kind fresh.now u.old;
              versioned = c;
              announced = d ∙ ap (λ x. v.outbox ++ row x ∷ []) made;
              states = refl;
              leases = refl;
            }
        event (err no_documents) ds d =
            unfold after_event in
            inr (cut_short cs ds (inr (record { versioned = c; announced_or_not = inl d })))
        event (err duplicate_key) ds (d, _) =
            unfold after_event in
            inr (cut_short cs ds (inr (record { versioned = c; announced_or_not = inl d })))
        event (err (driver_failed n)) ds (inl d) =
            unfold after_event in
            inr (cut_short cs ds (inr (record { versioned = c; announced_or_not = inl d })))
        event (err (driver_failed n)) ds (inr d) =
            unfold after_event in
            inr (
              cut_short cs ds (
                inr (record {
                  versioned = c;
                  announced_or_not = inr (d ∙ ap (λ x. v.outbox ++ row x ∷ []) made);
                })))
    bump_lem (ok ch) cs (inr (h, _)) = absurd h
    bump_lem (err no_documents) cs (same, h) = (
      u,
      as_read msg u.old u.matched,
      subst (λ (x : Message). NoneMatch (is_open x.channel_id) v.channels) e h,
      same,
      refl,
      refl,
      refl,
    )
    bump_lem (err duplicate_key) cs (same, _) = inr (cut_short cs v.outbox (inl (same, refl)))
    bump_lem (err (driver_failed n)) cs (inl same) = inr (cut_short cs v.outbox (inl (same, refl)))
    bump_lem (err (driver_failed n)) cs (inr (inl c)) =
        inr (cut_short cs v.outbox (inr (record { versioned = c; announced_or_not = inl refl })))
    bump_lem (err (driver_failed n)) cs (inr (inr h)) = absurd h

  revision_lem :
      (v : View) (r : Reply Message) (ms : List Message)
      → Modified message_clash
          (unchanged_since msg)
          (revise content kind fresh.now)
          none
          v.messages
          r
          ms
      → Ensures
          (after_revision hex fresh kind r)
          (Mutates hex fresh kind msg content v)
          (record v { messages = ms })
  unfolding after_revision
  revision_lem v (ok m) ms (inl (u, e)) = λ r cs d _. bump_lem v ms u m e r cs d
  revision_lem v (ok m) ms (inr (h, _)) = absurd h
  revision_lem v (err no_documents) ms (same, h) =
      (ap (λ l. record v { messages = l }) same, λ x i. not-IsAsRead msg x (h x i))
  revision_lem v (err duplicate_key) ms (same, _) = inl (ap (λ l. record v { messages = l }) same)
  revision_lem v (err (driver_failed n)) ms (inl same) =
      inl (ap (λ l. record v { messages = l }) same)
  revision_lem v (err (driver_failed n)) ms (inr (inl u)) = inr (
      cut_short v ms u (revise content kind fresh.now u.old) refl v.channels v.outbox
        (inl (refl, refl)))
  revision_lem v (err (driver_failed n)) ms (inr (inr h)) = absurd h

  -- An edit or recall takes effect only on the message as its caller read it: same sender, same
  -- revision, not recalled since. It then has the new content, the next revision and an event at
  -- the end of the outbox under the channel's next version. Where no message is so, it answers a
  -- conflict and changes nothing. Where the channel is gone, the message is changed, `not found` is
  -- answered and no event is written. The only other outcome is a driver failure: then nothing is
  -- changed, or the message as it was read is revised in this way and what follows was done up to
  -- some point. Nothing else changes in any of these cases.
  pub mutate-Mutates :
      (v : View)
      → Ensures (mutate hex fresh kind msg content) (Mutates hex fresh kind msg content v) v
  unfolding mutate
  mutate-Mutates v = λ r ms d _. revision_lem v r ms d
