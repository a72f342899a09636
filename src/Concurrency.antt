-- ===== src/Concurrency.antt =====
-- Several requests and relays, of one instance of the service or of more, that work on one database
-- side by side. The unit of interleaving is one call of the driver.
pub mod History
use lens_chat_service.Prelude.{◌≡◌, ℕ, ℤ, Option, List, ◌∷◌, ◌++◌}
use lens_chat_service.GoText.{Bytes}
use lens_chat_service.Schema.{
  ObjectId, Time, Message, Channel, ChannelState, OutboxEvent, OutboxRelayLease,
}
use lens_chat_service.Mongo.{AnswerOf, Does, IsUnique}
use lens_chat_service.Store.{
  View, Program, done, call, Call, Answer, messages, channels, states, outbox, leases, and_then,
  message_clash, channel_clash, state_clash, event_clash, lease_clash,
}
use lens_chat_service.Platform.{Platform}
use lens_chat_service.Http.{Json}
use lens_chat_service.Router.{Access, HttpCall, serve}
use lens_chat_service.Message.Events.{Fresh}
use lens_chat_service.Outbox.Telemetry.{Telemetry}
use lens_chat_service.Outbox.Relay.Rounds.{Moment, relay_run}

-- What the process starts: the handler of a request that comes in, or the relay.
pub data Job : Type 0 where
  request : Access → Fresh → HttpCall → Job
  relay : Bytes → ℕ → ℕ → List Moment → Option Telemetry → Job

abbrev pub Task : Type 0
Task = Program (Unit {0})

abbrev pub dropping : {A : Type 0} → Program A → Task
dropping m = and_then m λ _. done tt

-- `w` is what the call leaves of `v` when it answers `r`.
abbrev pub Performs : (c : Call) → View → Answer c → View → Type 0
Performs (messages o) v r w =
    (ds : List Message) × Does message_clash o v.messages r ds
    × IsUnique message_clash ds
    × (w ≡ record v { messages = ds })
Performs (channels o) v r w =
    (ds : List Channel) × Does channel_clash o v.channels r ds
    × IsUnique channel_clash ds
    × (w ≡ record v { channels = ds })
Performs (states o) v r w =
    (ds : List ChannelState) × Does state_clash o v.states r ds
    × IsUnique state_clash ds
    × (w ≡ record v { states = ds })
Performs (outbox o) v r w =
    (ds : List OutboxEvent) × Does event_clash o v.outbox r ds
    × IsUnique event_clash ds
    × (w ≡ record v { outbox = ds })
Performs (leases o) v r w =
    (ds : List OutboxRelayLease) × Does lease_clash o v.leases r ds
    × IsUnique lease_clash ds
    × (w ≡ record v { leases = ds })

pub record World : Type 0 where
  pub view : View
  pub tasks : List Task

module _ (platform : Platform) (json : Json) where
  unfoldable pub start : Job → Task
  start (request access fresh c) = dropping (serve platform json fresh access c)
  start (relay owner lease_duration poll moments t) =
      dropping (relay_run owner lease_duration poll moments t)

  -- A job comes in; a task makes its next call; or a task ends, having nothing left to do or being
  -- given up in the middle, as when its instance crashes or the client goes.
  pub data Step (s : World) : World → Type 0 where
    arrives : (job : Job) → Step s (record s { tasks = start job ∷ s.tasks })
    goes_on :
        (w : View) (pre post : List Task) (c : Call) (k : Answer c → Task) (r : Answer c)
        → s.tasks ≡ pre ++ (call c k ∷ post)
        → Performs c s.view r w
        → Step s (record { view = w; tasks = pre ++ (k r ∷ post) })
    ends :
        (pre post : List Task) (task : Task)
        → s.tasks ≡ pre ++ (task ∷ post)
        → Step s (record s { tasks = pre ++ post })

  pub data Runs (s : World) : World → Type 0 where
    still : Runs s s
    then_step : (v w : World) → Runs s v → Step v w → Runs s w
