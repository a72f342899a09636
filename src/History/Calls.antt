-- ===== src/History/Calls.antt =====
-- The calls of the driver as lawful steps.
use lens_chat_service.Prelude.{
  ◌≡◌, ◌∙◌, Bool, true, Option, none, Result, ok, err, List, ℤ, IsIn, inl, inr, subst, sym,
}
use lens_chat_service.GoText.{Bytes}
use lens_chat_service.Schema.{
  ObjectId, Message, Channel, ChannelState, OutboxEvent, OutboxRelayLease,
}
use lens_chat_service.Mongo.{
  Reply, UpdateResult, Op, AnswerOf, Sort, Modified, Updated-new, find_one, find, insert_one,
  find_one_and_update, update_one, delete_one, aggregate_heads,
}
use lens_chat_service.Store.{
  View, Program, call, messages, channels, states, outbox, leases, message_clash, channel_clash,
  state_clash, event_clash,
}
use lens_chat_service.History.Next.{
  MessageNext, ChannelNext, CursorNext, EventNext, MessageNext-refl, ChannelNext-refl,
  CursorNext-refl, EventNext-refl,
}
use lens_chat_service.History.Collections.{
  Kept-eq, Kept-Inserted, Kept-Modified, Kept-UpdatedOne, Traced-eq, Traced-Inserted,
  Traced-Deleted, Traced-Modified, Traced-UpdatedOne,
}
use lens_chat_service.History.Evolution.{
  Evolves, Evolves-trans, IsFirst, IsNew, IsCovered, Steps, Steps-messages, Steps-channels,
  Steps-states, Steps-outbox, Steps-leases,
}
use lens_chat_service.History.Rely.{Abides}
use lens_chat_service.History.Created.{Inserted-IsNew}

ok_inj : {A B : Type 0} (a b : A) → ◌≡◌ {A = Result B A} (ok a) (ok b) → a ≡ b
ok_inj a b e = cc e

module _ (hex : ObjectId → Bytes) where
  since : (v u w : View) → Evolves v u → Steps hex u w → Evolves v w
  since v u w e s = Evolves-trans v u w e s.evolves

  module _ {A : Type 0} (v : View) where
    -- What is to be shown of the rest after an answer.
    abbrev Goes : {B : Type 0} → (B → Program A) → Type 0
    Goes {B} k = (r : B) (w : View) → Evolves v w → Abides hex w (k r)

    pub Abides-find_message :
        (p : Message → Bool) (order : Sort Message) (k : Reply Message → Program A)
        → Goes k
        → Abides hex v (call (messages (find_one p order)) k)
    Abides-find_message p order k h = λ u e r ds d _.
        let s =
          Steps-messages hex u ds
            (Traced-eq MessageNext MessageNext-refl (IsNew u.messages) u.messages ds d.0) in
        (s, h r (record u { messages = ds }) (since v u (record u { messages = ds }) e s))

    pub Abides-list_messages :
        (p : Message → Bool) (order : Sort Message) (n : ℤ) (k : Reply (List Message) → Program A)
        → Goes k
        → Abides hex v (call (messages (find p order n)) k)
    Abides-list_messages p order n k h = λ u e r ds d _.
        let s =
          Steps-messages hex u ds
            (Traced-eq MessageNext MessageNext-refl (IsNew u.messages) u.messages ds d.0) in
        (s, h r (record u { messages = ds }) (since v u (record u { messages = ds }) e s))

    pub Abides-insert_message :
        (d : Message) (k : Reply (Unit {0}) → Program A)
        → IsFirst d
        → Goes k
        → Abides hex v (call (messages (insert_one d)) k)
    Abides-insert_message d k first h = λ u e r ds q unique.
        let s = Steps-messages hex u ds (Inserted-IsNew d u.messages ds r first unique q) in
        (s, h r (record u { messages = ds }) (since v u (record u { messages = ds }) e s))

    pub Abides-delete_message :
        (p : Message → Bool) (k : Reply (Unit {0}) → Program A)
        → Goes k
        → Abides hex v (call (messages (delete_one p)) k)
    Abides-delete_message p k h = λ u e r ds q _.
        let s =
          Steps-messages hex u ds
            (Traced-Deleted MessageNext MessageNext-refl (IsNew u.messages) p u.messages ds r q) in
        (s, h r (record u { messages = ds }) (since v u (record u { messages = ds }) e s))

    pub Abides-modify_message :
        (p : Message → Bool) (f : Message → Message) (k : Reply Message → Program A)
        → ((m : Message) → p m ≡ true → MessageNext m (f m))
        → Goes k
        → Abides hex v (call (messages (find_one_and_update p f none)) k)
    Abides-modify_message p f k step h = λ u e r ds q _.
        let s = Steps-messages hex u ds (
          Traced-Modified MessageNext MessageNext-refl (IsNew u.messages) message_clash p f step
            u.messages ds r q) in
        (s, h r (record u { messages = ds }) (since v u (record u { messages = ds }) e s))

    pub Abides-find_channel :
        (p : Channel → Bool) (order : Sort Channel) (k : Reply Channel → Program A)
        → Goes k
        → Abides hex v (call (channels (find_one p order)) k)
    Abides-find_channel p order k h = λ u e r cs d _.
        let s = Steps-channels hex u cs (Kept-eq ChannelNext ChannelNext-refl u.channels cs d.0) in
        (s, h r (record u { channels = cs }) (since v u (record u { channels = cs }) e s))

    pub Abides-list_channels :
        (p : Channel → Bool) (order : Sort Channel) (n : ℤ) (k : Reply (List Channel) → Program A)
        → Goes k
        → Abides hex v (call (channels (find p order n)) k)
    Abides-list_channels p order n k h = λ u e r cs d _.
        let s = Steps-channels hex u cs (Kept-eq ChannelNext ChannelNext-refl u.channels cs d.0) in
        (s, h r (record u { channels = cs }) (since v u (record u { channels = cs }) e s))

    -- The channel that is answered is stored.
    pub Abides-modify_channel :
        (p : Channel → Bool) (f : Channel → Channel) (k : Reply Channel → Program A)
        → ((c : Channel) → p c ≡ true → ChannelNext c (f c))
        → ((r : Reply Channel) (w : View)
            → Evolves v w
            → ((c : Channel) → r ≡ ok c → IsIn c w.channels)
            → Abides hex w (k r))
        → Abides hex v (call (channels (find_one_and_update p f none)) k)
    Abides-modify_channel p f k step h = λ u e r cs q _.
        let s = Steps-channels hex u cs (
          Kept-Modified ChannelNext ChannelNext-refl channel_clash p f none step u.channels cs r
            q) in
        (
          s,
          h r (record u { channels = cs }) (since v u (record u { channels = cs }) e s)
              (stored r u.channels cs q),
        )
      where
        stored :
            (r : Reply Channel) (bs cs : List Channel)
            → Modified channel_clash p f none bs r cs
            → (c : Channel) → r ≡ ok c
            → IsIn c cs
        stored (ok d) bs cs (inl (x, made)) c e =
            subst (λ z. IsIn z cs) (sym made ∙ ok_inj d c e) (Updated-new x)
        stored (ok d) bs cs (inr (x, _)) c e = absurd x
        stored (err x) bs cs q c e = cc e

    pub Abides-upsert_channel :
        (p : Channel → Bool) (f : Channel → Channel) (up : Option Channel)
        (k : Reply Channel → Program A)
        → ((c : Channel) → p c ≡ true → ChannelNext c (f c))
        → Goes k
        → Abides hex v (call (channels (find_one_and_update p f up)) k)
    Abides-upsert_channel p f up k step h = λ u e r cs q _.
        let s = Steps-channels hex u cs (
          Kept-Modified ChannelNext ChannelNext-refl channel_clash p f up step u.channels cs r q) in
        (s, h r (record u { channels = cs }) (since v u (record u { channels = cs }) e s))

    pub Abides-find_state :
        (p : ChannelState → Bool) (order : Sort ChannelState) (k : Reply ChannelState → Program A)
        → Goes k
        → Abides hex v (call (states (find_one p order)) k)
    Abides-find_state p order k h = λ u e r ss d _.
        let s = Steps-states hex u ss (Kept-eq CursorNext CursorNext-refl u.states ss d.0) in
        (s, h r (record u { states = ss }) (since v u (record u { states = ss }) e s))

    pub Abides-update_state :
        (p : ChannelState → Bool) (f : ChannelState → ChannelState) (up : Option ChannelState)
        (k : Reply UpdateResult → Program A)
        → ((s : ChannelState) → p s ≡ true → CursorNext s (f s))
        → Goes k
        → Abides hex v (call (states (update_one p f up)) k)
    Abides-update_state p f up k step h = λ u e r ss q _.
        let s =
          Steps-states hex u ss
            (Kept-UpdatedOne CursorNext CursorNext-refl state_clash p f up step u.states ss r q) in
        (s, h r (record u { states = ss }) (since v u (record u { states = ss }) e s))

    pub Abides-insert_event :
        (row : OutboxEvent) (k : Reply (Unit {0}) → Program A)
        → ((u : View) → Evolves v u → IsCovered hex u.channels row)
        → Goes k
        → Abides hex v (call (outbox (insert_one row)) k)
    Abides-insert_event row k covered h = λ u e r es q _.
        let s =
          Steps-outbox hex u es
            (Kept-Inserted EventNext EventNext-refl event_clash row u.outbox es r q)
            (Traced-Inserted EventNext EventNext-refl (IsCovered hex u.channels) event_clash row
              u.outbox es r (covered u e) q) in
        (s, h r (record u { outbox = es }) (since v u (record u { outbox = es }) e s))

    pub Abides-update_event :
        (p : OutboxEvent → Bool) (f : OutboxEvent → OutboxEvent)
        (k : Reply UpdateResult → Program A)
        → ((x : OutboxEvent) → p x ≡ true → EventNext x (f x))
        → Goes k
        → Abides hex v (call (outbox (update_one p f none)) k)
    Abides-update_event p f k step h = λ u e r es q _.
        let s =
          Steps-outbox hex u es
            (Kept-UpdatedOne EventNext EventNext-refl event_clash p f none step u.outbox es r q)
            (Traced-UpdatedOne EventNext EventNext-refl (IsCovered hex u.channels) event_clash p f
              step u.outbox es r q) in
        (s, h r (record u { outbox = es }) (since v u (record u { outbox = es }) e s))

    pub Abides-heads :
        (p : OutboxEvent → Bool) (first : Sort OutboxEvent)
        (same : OutboxEvent → OutboxEvent → Bool) (last : Sort OutboxEvent) (n : ℤ)
        (k : Reply (List OutboxEvent) → Program A)
        → Goes k
        → Abides hex v (call (outbox (aggregate_heads p first same last n)) k)
    Abides-heads p first same last n k h = λ u e r es d _.
        let s =
          Steps-outbox hex u es (Kept-eq EventNext EventNext-refl u.outbox es d.0)
            (Traced-eq EventNext EventNext-refl (IsCovered hex u.channels) u.outbox es d.0) in
        (s, h r (record u { outbox = es }) (since v u (record u { outbox = es }) e s))

    -- The leases are no part of the history.
    pub Abides-lease :
        (o : Op OutboxRelayLease) (k : AnswerOf o → Program A)
        → Goes k
        → Abides hex v (call (leases o) k)
    Abides-lease o k h = λ u e r ls _ _.
        let s = Steps-leases hex u ls in
        (s, h r (record u { leases = ls }) (since v u (record u { leases = ls }) e s))
