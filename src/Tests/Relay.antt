-- ===== src/Tests/Relay.antt =====
-- The outbox at the sample database.
use lens_chat_service.Prelude.{◌≡◌, refl, inl, false, none, some, [], ◌∷◌, List, arith, ◌*◌}
use lens_chat_service.GoText.{text, str_eq, str_eq_iff}
use lens_chat_service.Schema.{OutboxRelayLease}
use lens_chat_service.Store.{View, Ensures, IsIndexed}
use lens_chat_service.Outbox.Repo.{relay_lease_id, acquire_relay_lease}
use lens_chat_service.Outbox.Repo.Lease.{Acquires, acquire-Acquires}
use lens_chat_service.Outbox.Repo.Lock.{Request, free, held, take, drop, ask_all, Represents}
use lens_chat_service.Outbox.Repo.Lock.Refines.{StandsAll, ask_all-Refines}
use lens_chat_service.Outbox.Repo.Lock.Exclusive.{NoneTaken, ask_all-Excludes}
use lens_chat_service.Outbox.Relay.{Attempt, due_events, retry_delay, second}
use lens_chat_service.Outbox.Relay.Selection.{IsSelection, due_events-IsSelection}
use lens_chat_service.Outbox.Relay.Retry.{retry_delay_lem}
use lens_chat_service.Outbox.Relay.Rounds.{Moment, round}
use lens_chat_service.Outbox.Relay.Rounds.Order.{KeepsOrder, round-KeepsOrder}
use lens_chat_service.Tests.Fixture.{chat, chat-IsIndexed, first_event}

abbrev refused : Attempt
refused = record { publish_error = some (text "broker down"); now = 500; nanos = 40 }

due_events-IsSelection_example :
    IsSelection 200 (due_events 200 (first_event ∷ [])) (first_event ∷ [])
due_events-IsSelection_example = due_events-IsSelection 200 (first_event ∷ [])

retry_delay_lem_example : retry_delay 3 ≡ 4 * second
retry_delay_lem_example = retry_delay_lem 2

acquire-Acquires_example :
    Ensures
      (acquire_relay_lease (text "relay-1") 100 30)
      (Acquires (text "relay-1") 100 30 chat)
      chat
acquire-Acquires_example = acquire-Acquires (text "relay-1") 100 30 chat chat-IsIndexed

-- Two relays that take turns, the second one late enough.
abbrev turns : List Request
turns =
    take (text "relay-1") 100 30
    ∷ take (text "relay-2") 120 30
    ∷ drop (text "relay-1")
    ∷ take (text "relay-2") 125 30
    ∷ []

ask_all-Refines_example : Ensures (ask_all turns) (StandsAll free turns) chat
ask_all-Refines_example = ask_all-Refines turns free chat chat-IsIndexed λ l i. absurd i.0

abbrev lease : OutboxRelayLease
lease = record { id = relay_lease_id; owner = text "relay-1"; lease_until = 130; updated_at = 100 }

abbrev leased : View
leased = record chat { leases = lease ∷ [] }

leased-IsIndexed : IsIndexed leased
leased-IsIndexed = record {
  messages = chat-IsIndexed.messages;
  channels = chat-IsIndexed.channels;
  states = chat-IsIndexed.states;
  outbox = chat-IsIndexed.outbox;
  leases = ((λ y i. absurd i), tt);
}

-- Another relay that tries twice and then shuts down.
abbrev rival : List Request
rival = take (text "relay-2") 110 30 ∷ take (text "relay-2") 120 30 ∷ drop (text "relay-2") ∷ []

rival_is_other : ¬ (text "relay-2" ≡ text "relay-1")
rival_is_other e =
    let apart : str_eq (text "relay-2") (text "relay-1") ≡ false = unfold str_eq in refl in
    cc (apart, (str_eq_iff (text "relay-2") (text "relay-1")).1 e)

ask_all-Excludes_example :
    Ensures
      (ask_all rival)
      (λ acts w. Represents w.leases (held (text "relay-1") 130) × NoneTaken rival acts)
      leased
ask_all-Excludes_example =
    ask_all-Excludes (text "relay-1") 130 leased rival leased-IsIndexed
      (lease, (inl refl, refl), refl, refl)
      (omega arith, rival_is_other, (omega arith, rival_is_other, (rival_is_other, tt)))

-- Kafka refuses all, and the workers come in the order of the selection.
abbrev moment : Moment
moment = record {
  started = 150;
  selected = 200;
  looked = 250;
  attempt = λ _. refused;
  turns = λ es. es;
}

round-KeepsOrder_example :
    Ensures (round (text "relay-1") 30 10 moment none) (λ _ w. KeepsOrder 200 chat w) chat
round-KeepsOrder_example =
    round-KeepsOrder 10 moment chat chat-IsIndexed (λ es e i. i) (text "relay-1") 30 none
