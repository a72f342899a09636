-- ===== src/Tests/Worlds.antt =====
-- Requests side by side at the sample database.
use lens_chat_service.Prelude.{pos, refl, inl, inr, ok, none, some, true, [], ◌∷◌, arith}
use lens_chat_service.GoText.{text, str_eq}
use lens_chat_service.Schema.{Channel, ChannelState, read_cursor_advanced}
use lens_chat_service.Message.Events.{outbox_event, cursor_data}
use lens_chat_service.Message.Queries.{is_participant}
use lens_chat_service.Message.Mutate.{bump_version}
use lens_chat_service.Store.{View, state_clash, event_clash}
use lens_chat_service.Mongo.{IsUnique}
use lens_chat_service.History.{Evolves, AllCovered}
use lens_chat_service.Channel.Repo as ChannelRepo
use lens_chat_service.Channel.Service as ChannelService
use lens_chat_service.Message.Service
use lens_chat_service.Message.ReadCursor
use lens_chat_service.Http.{Json, respond}
use lens_chat_service.Router
use lens_chat_service.Router.{
  Access, public_route, put_read_cursor, serve, principal, public_handler,
}
use lens_chat_service.Message.Controller as Messages
use lens_chat_service.Concurrency.{
  Job, request, World, start, Runs, still, then_step, arrives, goes_on, ends,
}
use lens_chat_service.Concurrency.History.{starting, Descends, history-Evolves, history-AllCovered}
use lens_chat_service.Tests.Fixture.{hex, cursor, platform, ada, channel, fresh, chat, first_event}

-- Ada alone uses this instance.
abbrev access : Access
access = record {
  auth_disabled = true;
  default_user_id = ada;
  ai_worker_token = text "";
  parse = λ _. none;
}

-- Every body says one thing.
abbrev json : Json
json = record {
  create_channel = λ _ _. some ada;
  create_message = λ _ _. none;
  create_ai_reply = λ _ _. none;
  update_message = λ _ _. some (text "bye");
  advance_read_cursor = λ _ _. some (pos 1);
}

abbrev reading : Job
reading = request access fresh (record {
  route = public_route (put_read_cursor (7 ∷ []));
  credentials = record {
    method = text "PUT";
    authorization = text "";
    token_cookie = text "";
    csrf_cookie = text "";
    csrf_header = text "";
  };
  worker_token = text "";
  limit = none;
  before_seq = none;
  photographer_id = text "";
  body = text "1";
})

abbrev ada_cursor : ChannelState
ada_cursor = record {
  id = 2;
  channel_id = 7;
  user_id = ada;
  last_read_seq = pos 1;
  updated_at = 200;
}

-- The channel after the request.
abbrev later_channel : Channel
later_channel = record channel { last_event_version = 2 }

abbrev with_cursor : View
with_cursor = record chat { states = cursor ∷ ada_cursor ∷ [] }

abbrev with_version : View
with_version = record with_cursor { channels = later_channel ∷ [] }

abbrev with_event : View
with_event = record with_version {
  outbox =
      first_event
      ∷ outbox_event hex fresh 200 read_cursor_advanced later_channel
          (cursor_data hex later_channel ada (pos 1))
      ∷ [];
}

abbrev before : World
before = record { view = chat; tasks = start platform json reading ∷ [] }

arrived : Runs platform json (starting chat) before
arrived = then_step _ _ still (arrives reading)

two_cursors : IsUnique state_clash with_cursor.states
unfolding state_clash str_eq
two_cursors = ((λ y i. elim i [ inl e ↦ rw e refl | inr k ↦ absurd k ]), ((λ y i. absurd i), tt))

two_events : IsUnique event_clash with_event.outbox
unfolding event_clash str_eq outbox_event
two_events = ((λ y i. elim i [ inl e ↦ rw e refl | inr k ↦ absurd k ]), ((λ y i. absurd i), tt))

-- Ada's request from its first call to its last.
abbrev after : World
after = record { view = with_event; tasks = [] }

served : (s : World) → Runs platform json s before → Runs platform json s after
unfolding start serve Router.serve_route principal public_handler Messages.read respond Service.read
    ChannelService.get ChannelService.get_id ChannelRepo.get ChannelService.usable
    ChannelService.may_use Service.read_in ReadCursor.read ReadCursor.after_advance
    ReadCursor.has_advanced ReadCursor.read_back ReadCursor.after_state ReadCursor.after_bump
    ReadCursor.after_event ReadCursor.behind ReadCursor.cursor_of ReadCursor.advance
    ReadCursor.new_cursor ReadCursor.is_member is_participant bump_version str_eq
served s first =
    then_step _ _
      (then_step _ _
        (then_step _ _
          (then_step _ _
            (then_step _ _
              (then_step _ _ first (
                goes_on chat [] [] _ _ (ok channel) refl (
                  channel ∷ [],
                  (refl, (inl refl, refl, λ _ _ _. refl)),
                  ((λ y i. absurd i), tt),
                  refl,
                )))
              (goes_on with_cursor [] [] _ _ (ok (record { matched_count = 0; upserted_count = 1 }))
                refl
                (
                  cursor ∷ ada_cursor ∷ [],
                  inr (
                      inl (
                        refl,
                        refl,
                        ((λ x i. elim i [ inl e ↦ rw e refl | inr k ↦ absurd k ]), refl),
                      )),
                  two_cursors,
                  refl,
                )))
            (goes_on with_cursor [] [] _ _ (ok ada_cursor) refl (
              cursor ∷ ada_cursor ∷ [],
              (refl, (inr (inl refl), refl, λ _ _ _. refl)),
              two_cursors,
              refl,
            )))
          (goes_on with_version [] [] _ _ (ok later_channel) refl (
            later_channel ∷ [],
            inl (
              record {
                old = channel;
                pre = [];
                post = [];
                matched = refl;
                before = refl;
                after = refl;
              },
              refl,
            ),
            ((λ y i. absurd i), tt),
            refl,
          )))
        (goes_on with_event [] [] _ _ (ok tt) refl (_, refl, two_events, refl)))
      (ends [] [] _ refl)

history-Evolves_example :
    Evolves before.view after.view × Descends platform json before after (served before still)
history-Evolves_example =
    history-Evolves platform json chat before after arrived (served before still)

chat-AllCovered : AllCovered hex chat
chat-AllCovered e (inl q) = record {
  channel = channel;
  stored = inl refl;
  partition = rw q refl;
  aggregate = rw q refl;
  reached = rw q (omega arith);
}
chat-AllCovered e (inr k) = absurd k

history-AllCovered_example : AllCovered hex after.view
history-AllCovered_example =
    history-AllCovered platform json chat after chat-AllCovered (served (starting chat) arrived)
