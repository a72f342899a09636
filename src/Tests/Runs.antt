-- ===== src/Tests/Runs.antt =====
-- The code run against the sample database on a server that keeps it in memory.
use lens_chat_service.Prelude.{refl, arith, inc64, inl, inr}
use lens_chat_service.GoText.{str_eq}
use lens_chat_service.Store.{
  Server, Db, message_clash, channel_clash, state_clash, event_clash, lease_clash,
}
use lens_chat_service.Store.{view, GoesWell, same_request, same_sequence}
use lens_chat_service.Message.Create.{accepts}
use lens_chat_service.Message.Create.Spec.{IsReady}
use lens_chat_service.Message.Create.Success.{Succeeds, create-Succeeds}
use lens_chat_service.Message.Events.{outbox_event}
use lens_chat_service.Message.Queries.{is_participant, in_channel, newest_first}
use lens_chat_service.Message.Create as Create
use lens_chat_service.Tests.Memory.{memory}
use lens_chat_service.Tests.Fixture.{hex, fresh, chat, channel, chat-IsIndexed, next}

abbrev server : Server
server = record {
  messages = memory message_clash;
  channels = memory channel_clash;
  states = memory state_clash;
  outbox = memory event_clash;
  leases = memory lease_clash;
}

abbrev start : Db server
start = record {
  messages = record { docs = chat.messages; unique = chat-IsIndexed.messages };
  channels = record { docs = chat.channels; unique = chat-IsIndexed.channels };
  states = record { docs = chat.states; unique = chat-IsIndexed.states };
  outbox = record { docs = chat.outbox; unique = chat-IsIndexed.outbox };
  leases = record { docs = chat.leases; unique = chat-IsIndexed.leases };
}

next-IsReady : IsReady fresh next (view server start)
unfolding same_request accepts str_eq is_participant
next-IsReady = record {
  unseen = λ x i. elim i [ inl e ↦ rw e refl | inr k ↦ absurd k ];
  new_id = λ x i e. elim i [ inl q ↦ ground (arith, q) | inr k ↦ absurd k ];
  channel = channel;
  listed = inl refl;
  accepted = refl;
  below = λ x i. elim i [ inl e ↦ rw e (omega arith) | inr k ↦ absurd k ];
  summaries = λ c i. elim i [ inl e ↦ rw e (omega arith) | inr k ↦ absurd k ];
  summaries_below = λ c i. elim i [ inl e ↦ rw e (omega arith) | inr k ↦ absurd k ];
}

next-GoesWell : GoesWell server (Create.create hex fresh next) start
unfolding Create.create Create.existing_or Create.existing_of Create.settle Create.attempts
    Create.after_channel Create.after_latest Create.insert_after Create.after_insert Create.finish
    Create.after_summary Create.after_event Create.accepts Create.summarise same_request
    same_sequence message_clash channel_clash event_clash outbox_event is_participant in_channel
    newest_first str_eq inc64
next-GoesWell = (tt, (tt, (tt, (tt, (tt, (tt, tt))))))

create-Succeeds_example : Succeeds hex fresh server start next
create-Succeeds_example = create-Succeeds hex fresh server start next next-IsReady next-GoesWell
