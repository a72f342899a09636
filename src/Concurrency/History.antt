-- ===== src/Concurrency/History.antt =====
-- What holds of every interleaving of requests and relays.
use lens_chat_service.Prelude.{◌≡◌, refl, ap, ◌⊎◌, sym, subst, List, [], ◌∷◌, ◌++◌, IsIn, inl, inr}
use lens_chat_service.Mongo.{IsIn-middle, IsIn-replaced}
use lens_chat_service.Schema.{ObjectId, Message}
use lens_chat_service.Store.{
  View, Program, call, Call, Answer, messages, channels, states, outbox, leases, After,
}
use lens_chat_service.History.{
  MessageNext, MessageNext-refl, MessageNext-trans, IsFirst, Evolves, Evolves-refl, Evolves-trans,
  Steps, AllCovered, Abides, Abides-later, Abides-and_then,
}
use lens_chat_service.Platform.{Platform}
use lens_chat_service.Http.{Json}
use lens_chat_service.Router.Interleaved.{serve-Abides}
use lens_chat_service.Outbox.Relay.Rounds.Interleaved.{relay_run-Abides}
use lens_chat_service.Concurrency.{
  Job, request, relay, Task, dropping, Performs, World, start, Step, arrives, goes_on, ends, Runs,
  still, then_step,
}

After-Performs :
    (c : Call) (K : Answer c → View → Type 0) (v w : View) (r : Answer c)
    → After c K v
    → Performs c v r w
    → K r w
After-Performs (messages o) K v w r h (ds, d, u, e) = subst (K r) (sym e) (h r ds d u)
After-Performs (channels o) K v w r h (ds, d, u, e) = subst (K r) (sym e) (h r ds d u)
After-Performs (states o) K v w r h (ds, d, u, e) = subst (K r) (sym e) (h r ds d u)
After-Performs (outbox o) K v w r h (ds, d, u, e) = subst (K r) (sym e) (h r ds d u)
After-Performs (leases o) K v w r h (ds, d, u, e) = subst (K r) (sym e) (h r ds d u)

IsIn-without :
    {A : Type 0} (x a : A) (pre post : List A) → IsIn x (pre ++ post) → IsIn x (pre ++ (a ∷ post))
IsIn-without x a [] post i = inr i
IsIn-without x a (z ∷ pre) post (inl e) = inl e
IsIn-without x a (z ∷ pre) post (inr i) = inr (IsIn-without x a pre post i)

-- Nothing runs yet.
abbrev pub starting : View → World
starting v = record { view = v; tasks = [] }

module _ (platform : Platform) (json : Json) where
  dropping-Abides :
      {A : Type 0} (m : Program A) (v : View)
      → Abides platform.hex v m
      → Abides platform.hex v (dropping m)
  dropping-Abides m v h = Abides-and_then platform.hex m (λ _. Program.done tt) v h λ a u e. tt

  start-Abides : (job : Job) (v : View) → Abides platform.hex v (start platform json job)
  unfolding start
  start-Abides (request access fresh c) v =
      dropping-Abides _ v (serve-Abides platform v json fresh access c)
  start-Abides (relay owner lease_duration poll moments t) v =
      dropping-Abides _ v (relay_run-Abides platform.hex owner lease_duration poll moments t v)

  abbrev AllAbide : World → Type 0
  AllAbide s = (t : Task) → IsIn t s.tasks → Abides platform.hex s.view t

  record Lawful (s w : World) : Type 0 where
    steps : Steps platform.hex s.view w.view
    abide : AllAbide w

  idle : (v : View) → Steps platform.hex v v
  idle v = record {
    messages = λ m i. (m, inl i, MessageNext-refl m);
    evolves = Evolves-refl v;
    covered = λ c. c;
  }

  Step-Lawful : (s w : World) → AllAbide s → Step platform json s w → Lawful s w
  Step-Lawful s w h (arrives job) = record {
    steps = idle s.view;
    abide = λ t i. elim i [
      | inl e ↦ subst (Abides platform.hex s.view) (sym e) (start-Abides job s.view)
      | inr k ↦ h t k
    ];
  }
  Step-Lawful s w h (goes_on v pre post c k r e p) =
      let next : Abides platform.hex s.view (call c k) =
        h (call c k) (subst (IsIn (call c k)) (sym e) (IsIn-middle (call c k) pre post)) in
      let (stepped, rest) =
        After-Performs c (λ a x. Steps platform.hex s.view x × Abides platform.hex x (k a)) s.view v
          r (next s.view (Evolves-refl s.view)) p in
      record {
        steps = stepped;
        abide = λ t i. elim (IsIn-replaced t (call c k) (k r) pre post i) [
          | inl q ↦ subst (Abides platform.hex v) (sym q) rest
          | inr j ↦
              Abides-later platform.hex t s.view v stepped.evolves (h t (subst (IsIn t) (sym e) j))
        ];
      }
  Step-Lawful s w h (ends pre post task e) = record {
    steps = idle s.view;
    abide = λ t i. h t (subst (IsIn t) (sym e) (IsIn-without t task pre post i));
  }

  -- The worlds that a run goes through.
  abbrev pub IsMoment : (s w : World) → Runs platform json s w → World → Type 0
  IsMoment s w still u = u ≡ s
  IsMoment s w (then_step v w' before step) u = (u ≡ w') ⊎ IsMoment s v before u

  last-IsMoment : (s v : World) (run : Runs platform json s v) → IsMoment s v run v
  last-IsMoment s v still = refl
  last-IsMoment s v (then_step u v' before step) = inl refl

  abbrev pub IsUnknown : ObjectId → World → Type 0
  IsUnknown id u = (x : Message) → IsIn x u.view.messages → ¬ (x.id ≡ id)

  -- A message at the end of a run goes back to one that was there at its start; or at some moment
  -- of the run no message had its id, and it goes back to one that was created.
  abbrev pub Descends : (s w : World) → Runs platform json s w → Type 0
  Descends s w run =
      (n : Message)
      → IsIn n w.view.messages
      → ((m : Message) × IsIn m s.view.messages × MessageNext m n)
        ⊎ (((m : Message) × IsFirst m × MessageNext m n)
            × ((u : World) × IsMoment s w run u × IsUnknown n.id u))

  Step-Descends :
      (s v w : World) (before : Runs platform json s v) (step : Step platform json v w)
      → Descends s v before
      → Steps platform.hex v.view w.view
      → Descends s w (then_step v w before step)
  Step-Descends s v w before step h steps n i =
      let (x, origin, next) = steps.messages n i in
      let same_id : n.id ≡ x.id = ap (λ (y : Message). y.id) next.same in
      elim origin [
        | inl j ↦ elim (h x j) [
          | inl (m, k, past) ↦ inl (m, k, MessageNext-trans m x n past next)
          | inr ((m, first, past), (u, moment, unknown)) ↦ inr (
            (m, first, MessageNext-trans m x n past next),
            (u, inr moment, subst (λ d. IsUnknown d u) (sym same_id) unknown),
          )
        ]
        | inr new ↦ inr (
          (x, new.first, next),
          (v, inr (last-IsMoment s v before), subst (λ d. IsUnknown d v) (sym same_id) new.unknown),
        )
      ]

  record LawfulRun (s w : World) (run : Runs platform json s w) : Type 0 where
    evolves : Evolves s.view w.view
    descends : Descends s w run
    covered : AllCovered platform.hex s.view → AllCovered platform.hex w.view
    abide : AllAbide w

  Runs-Lawful : (s w : World) → AllAbide s → (run : Runs platform json s w) → LawfulRun s w run
  Runs-Lawful s w h still = record {
    evolves = Evolves-refl s.view;
    descends = λ n i. inl (n, i, MessageNext-refl n);
    covered = λ c. c;
    abide = h;
  }
  Runs-Lawful s w h (then_step v w' before step) =
      let first = Runs-Lawful s v h before in
      let last = Step-Lawful v w' first.abide step in
      record {
        evolves = Evolves-trans s.view v.view w'.view first.evolves last.steps.evolves;
        descends = Step-Descends s v w' before step first.descends last.steps;
        covered = λ c. last.steps.covered (first.covered c);
        abide = last.abide;
      }

  at_rest : (v : View) → AllAbide (starting v)
  at_rest v t i = absurd i

  -- Take any sequence of steps of any requests and relays, from a start on, and any two moments of
  -- it. From the one to the other no channel, cursor or event is lost, a channel's participants
  -- stay and its sequence and version do not fall, no cursor goes back, and an event stays what it
  -- was once it is published or parked. Every message of the later moment was there at the earlier
  -- one, or there was a moment between at which no message had its id, and it began at revision 1,
  -- not recalled. Since then it has kept its id, sender, place and keys, and it has changed only if
  -- it was not recalled, its revision growing.
  pub history-Evolves :
      (v : View) (s w : World)
      → Runs platform json (starting v) s
      → (between : Runs platform json s w) → Evolves s.view w.view × Descends s w between
  history-Evolves v s w before between =
      let run = Runs-Lawful s w (Runs-Lawful (starting v) s (at_rest v) before).abide between in
      (run.evolves, run.descends)

  -- At every moment, each event of the outbox belongs to a stored channel whose version has reached
  -- that of the event, provided that this holds at the start.
  pub history-AllCovered :
      (v : View) (w : World)
      → AllCovered platform.hex v
      → Runs platform json (starting v) w
      → AllCovered platform.hex w.view
  history-AllCovered v w c before = (Runs-Lawful (starting v) w (at_rest v) before).covered c
