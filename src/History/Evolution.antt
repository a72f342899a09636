-- ===== src/History/Evolution.antt =====
-- How the database may change from one moment to a later one.
use lens_chat_service.Prelude.{◌≤◌, ◌≡◌, ◌∙◌, ap, sym, List, none, IsIn, inl, inr, arith}
use lens_chat_service.GoText.{Bytes}
use lens_chat_service.Schema.{
  ObjectId, Message, Channel, ChannelState, OutboxEvent, OutboxRelayLease,
}
use lens_chat_service.Store.{View}
use lens_chat_service.History.Next.{
  MessageNext, ChannelNext, CursorNext, EventNext, MessageNext-refl, ChannelNext-refl,
  ChannelNext-trans, CursorNext-refl, CursorNext-trans, EventNext-refl, EventNext-trans,
}
use lens_chat_service.History.Collections.{Kept, Traced, Kept-refl, Kept-trans}

-- A message as it is created.
abbrev pub IsFirst : Message → Type 0
IsFirst m = (m.revision ≡ 1) × (m.recalled_at ≡ none)

-- A message that is created among `ms`: none of these has its id.
pub record IsNew (ms : List Message) (m : Message) : Type 0 where
  pub first : IsFirst m
  pub unknown : (x : Message) → IsIn x ms → ¬ (x.id ≡ m.id)

-- Every channel, cursor and event goes on.
pub record Evolves (v w : View) : Type 0 where
  pub channels : Kept ChannelNext v.channels w.channels
  pub states : Kept CursorNext v.states w.states
  pub outbox : Kept EventNext v.outbox w.outbox

pub Evolves-refl : (v : View) → Evolves v v
Evolves-refl v = record {
  channels = Kept-refl ChannelNext ChannelNext-refl v.channels;
  states = Kept-refl CursorNext CursorNext-refl v.states;
  outbox = Kept-refl EventNext EventNext-refl v.outbox;
}

pub Evolves-trans : (u v w : View) → Evolves u v → Evolves v w → Evolves u w
Evolves-trans u v w h k = record {
  channels = Kept-trans ChannelNext-trans u.channels v.channels w.channels h.channels k.channels;
  states = Kept-trans CursorNext-trans u.states v.states w.states h.states k.states;
  outbox = Kept-trans EventNext-trans u.outbox v.outbox w.outbox h.outbox k.outbox;
}

-- `hex` is `primitive.ObjectID.Hex`.
module _ (hex : ObjectId → Bytes) where
  -- The event belongs to a channel that has reached the event's version.
  pub record IsCovered (channels : List Channel) (e : OutboxEvent) : Type 0 where
    pub channel : Channel
    pub stored : IsIn channel channels
    pub partition : e.partition_key ≡ hex channel.id
    pub aggregate : e.event.aggregate_id ≡ hex channel.id
    pub reached : e.event.aggregate_version ≤ channel.last_event_version

  abbrev pub AllCovered : View → Type 0
  AllCovered v = (e : OutboxEvent) → IsIn e v.outbox → IsCovered v.channels e

  pub IsCovered-next :
      (cs ds : List Channel) (e f : OutboxEvent)
      → Kept ChannelNext cs ds
      → EventNext e f
      → IsCovered cs e
      → IsCovered ds f
  IsCovered-next cs ds e f kept n h =
      let (d, i, next) = kept h.channel h.stored in
      record {
        channel = d;
        stored = i;
        partition =
            ap (λ (x : OutboxEvent). x.partition_key) n.same
            ∙ h.partition
            ∙ sym (ap (λ (x : Channel). hex x.id) next.same);
        aggregate =
            ap (λ (x : OutboxEvent). x.event.aggregate_id) n.same
            ∙ h.aggregate
            ∙ sym (ap (λ (x : Channel). hex x.id) next.same);
        reached = omega (
          arith,
          h.reached,
          next.version,
          ap (λ (x : OutboxEvent). x.event.aggregate_version) n.same,
        );
      }

  -- What one call does. A message after it was there before, as it is or as one that may go on so,
  -- or it is created by the call.
  pub record Steps (v w : View) : Type 0 where
    pub messages : Traced MessageNext (IsNew v.messages) v.messages w.messages
    pub evolves : Evolves v w
    pub covered : AllCovered v → AllCovered w

  module _ (v : View) where
    unchanged : Traced MessageNext (IsNew v.messages) v.messages v.messages
    unchanged m i = (m, inl i, MessageNext-refl m)

    pub Steps-messages :
        (ms : List Message)
        → Traced MessageNext (IsNew v.messages) v.messages ms
        → Steps v (record v { messages = ms })
    Steps-messages ms h = record {
      messages = h;
      evolves = record {
        channels = (Evolves-refl v).channels;
        states = (Evolves-refl v).states;
        outbox = (Evolves-refl v).outbox;
      };
      covered = λ c. c;
    }

    pub Steps-channels :
        (cs : List Channel) → Kept ChannelNext v.channels cs → Steps v (record v { channels = cs })
    Steps-channels cs h = record {
      messages = unchanged;
      evolves = record {
        channels = h;
        states = (Evolves-refl v).states;
        outbox = (Evolves-refl v).outbox;
      };
      covered = λ c e i. IsCovered-next v.channels cs e e h (EventNext-refl e) (c e i);
    }

    pub Steps-states :
        (ss : List ChannelState) → Kept CursorNext v.states ss → Steps v (record v { states = ss })
    Steps-states ss h = record {
      messages = unchanged;
      evolves = record {
        channels = (Evolves-refl v).channels;
        states = h;
        outbox = (Evolves-refl v).outbox;
      };
      covered = λ c. c;
    }

    pub Steps-outbox :
        (es : List OutboxEvent)
        → Kept EventNext v.outbox es
        → Traced EventNext (IsCovered v.channels) v.outbox es
        → Steps v (record v { outbox = es })
    Steps-outbox es h t = record {
      messages = unchanged;
      evolves = record {
        channels = (Evolves-refl v).channels;
        states = (Evolves-refl v).states;
        outbox = h;
      };
      covered = λ c f i.
          let (e, o, n) = t f i in
          IsCovered-next v.channels v.channels e f
            (Kept-refl ChannelNext ChannelNext-refl v.channels) n
            (elim o [ inl j ↦ c e j | inr first ↦ first ]);
    }

    pub Steps-leases : (ls : List OutboxRelayLease) → Steps v (record v { leases = ls })
    Steps-leases ls = record {
      messages = unchanged;
      evolves = record {
        channels = (Evolves-refl v).channels;
        states = (Evolves-refl v).states;
        outbox = (Evolves-refl v).outbox;
      };
      covered = λ c. c;
    }
