-- ===== src/History/Next.antt =====
-- How one document may change. The schema is that of internal/schema.
use lens_chat_service.Prelude.{
  ◌≤◌, ◌<◌, ◌≡◌, ◌∙◌, refl, sym, ap, subst, ◌⊎◌, inl, inr, none, ◌≤ℤ◌, arith,
}
use lens_chat_service.Schema.{Message, Channel, ChannelState, OutboxEvent, pending}

-- Who sent what where and when stays. A message changes only while it is not recalled, and then its
-- revision grows.
pub record MessageNext (m n : Message) : Type 0 where
  pub same : n ≡ record m {
    content = n.content;
    revision = n.revision;
    recalled_at = n.recalled_at;
    updated_at = n.updated_at;
  }
  pub changed : (n ≡ m) ⊎ ((m.recalled_at ≡ none) × (m.revision < n.revision))

-- The participants stay, and the sequence and the version do not fall.
pub record ChannelNext (c d : Channel) : Type 0 where
  pub same : d ≡ record c {
    last_message_id = d.last_message_id;
    last_message_seq = d.last_message_seq;
    last_event_version = d.last_event_version;
    last_message_at = d.last_message_at;
    updated_at = d.updated_at;
  }
  pub sequence : c.last_message_seq ≤ℤ d.last_message_seq
  pub version : c.last_event_version ≤ d.last_event_version

pub record CursorNext (s t : ChannelState) : Type 0 where
  pub same : t ≡ record s { last_read_seq = t.last_read_seq; updated_at = t.updated_at }
  pub sequence : s.last_read_seq ≤ℤ t.last_read_seq

-- What is to be published stays, and an event that is settled stays whole.
pub record EventNext (e f : OutboxEvent) : Type 0 where
  pub same : f ≡ record e {
    status = f.status;
    attempt_count = f.attempt_count;
    next_attempt_at = f.next_attempt_at;
    published_at = f.published_at;
    failed_at = f.failed_at;
    last_error = f.last_error;
  }
  pub settled : (f ≡ e) ⊎ (e.status ≡ pending)

pub MessageNext-refl : (m : Message) → MessageNext m m
MessageNext-refl m = record { same = refl; changed = inl refl }

pub ChannelNext-refl : (c : Channel) → ChannelNext c c
ChannelNext-refl c = record { same = refl; sequence = omega arith; version = omega arith }

pub CursorNext-refl : (s : ChannelState) → CursorNext s s
CursorNext-refl s = record { same = refl; sequence = omega arith }

pub EventNext-refl : (e : OutboxEvent) → EventNext e e
EventNext-refl e = record { same = refl; settled = inl refl }

pub MessageNext-trans : (k m n : Message) → MessageNext k m → MessageNext m n → MessageNext k n
MessageNext-trans k m n h i = record {
  same =
      i.same
      ∙ ap
          (λ (x : Message). record x {
            content = n.content;
            revision = n.revision;
            recalled_at = n.recalled_at;
            updated_at = n.updated_at;
          })
          h.same;
  changed = elim h.changed [
    | inl e ↦
        subst (λ (x : Message). (n ≡ x) ⊎ ((x.recalled_at ≡ none) × (x.revision < n.revision))) e
          i.changed
    | inr (unset, lt) ↦ elim i.changed [
      | inl e ↦ inr (unset, subst (λ (x : Message). k.revision < x.revision) (sym e) lt)
      | inr (_, lt') ↦ inr (unset, omega arith)
    ]
  ];
}

pub ChannelNext-trans : (b c d : Channel) → ChannelNext b c → ChannelNext c d → ChannelNext b d
ChannelNext-trans b c d h i = record {
  same =
      i.same
      ∙ ap
          (λ (x : Channel). record x {
            last_message_id = d.last_message_id;
            last_message_seq = d.last_message_seq;
            last_event_version = d.last_event_version;
            last_message_at = d.last_message_at;
            updated_at = d.updated_at;
          })
          h.same;
  sequence = omega (arith, h.sequence, i.sequence);
  version = omega (arith, h.version, i.version);
}

pub CursorNext-trans : (r s t : ChannelState) → CursorNext r s → CursorNext s t → CursorNext r t
CursorNext-trans r s t h i = record {
  same =
      i.same
      ∙ ap
          (λ (x : ChannelState). record x {
            last_read_seq = t.last_read_seq;
            updated_at = t.updated_at;
          })
          h.same;
  sequence = omega (arith, h.sequence, i.sequence);
}

pub EventNext-trans : (d e f : OutboxEvent) → EventNext d e → EventNext e f → EventNext d f
EventNext-trans d e f h i = record {
  same =
      i.same
      ∙ ap
          (λ (x : OutboxEvent). record x {
            status = f.status;
            attempt_count = f.attempt_count;
            next_attempt_at = f.next_attempt_at;
            published_at = f.published_at;
            failed_at = f.failed_at;
            last_error = f.last_error;
          })
          h.same;
  settled = elim h.settled [
    | inl q ↦ subst (λ (x : OutboxEvent). (f ≡ x) ⊎ (x.status ≡ pending)) q i.settled
    | inr w ↦ inr w
  ];
}
