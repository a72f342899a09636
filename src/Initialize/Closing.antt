-- ===== src/Initialize/Closing.antt =====
-- What `Run` opens it closes.
use lens_chat_service.Prelude.{
  ◌≡◌, refl, ap, Option, none, some, List, [], ◌∷◌, ◌++◌, Result, ok, err,
}
use lens_chat_service.GoText.{Bytes}
use lens_chat_service.Outbox.Publisher.{new_kafka_publisher}
use lens_chat_service.Initialize.{
  Resource, startup, client, publisher, relay, server, Effect, opened, closed, Serving, ended,
  stopped, Outside, Outcome, checked, passing, between, serve_http, load_runtime_config,
  initialize_repositories, with_mongo, with_relay, run,
}

-- Everything that is opened is closed once, the last first.
pub data Nested : List Effect → Type 0 where
  nothing : Nested []
  around :
      (r : Resource) (es fs : List Effect)
      → Nested es
      → Nested fs
      → Nested (opened r ∷ (es ++ (closed r ∷ fs)))

-- What is opened is closed, and the function succeeds only having done `done`.
pub record Orderly (done : List Effect) (o : Outcome (Unit {0})) : Type 0 where
  pub nested : Nested o.effects
  pub full : o.result ≡ ok tt → o.effects ≡ done

one : (r : Resource) → Nested (opened r ∷ closed r ∷ [])
one r = around r [] [] nothing nothing

failing : (done : List Effect) (e : Bytes) → Orderly done (record { result = err e; effects = [] })
failing done e = record { nested = nothing; full = λ q. cc q }

checked-Orderly :
    {A : Type 0} (done : List Effect) (r : Result Bytes A) (k : A → Outcome (Unit {0}))
    → ((a : A) → Orderly done (k a))
    → Orderly done (checked r k)
checked-Orderly done (ok a) k h = h a
checked-Orderly done (err e) k h = failing done e

passing-Orderly :
    (done : List Effect) (x : Option Bytes) (rest : Outcome (Unit {0}))
    → Orderly done rest
    → Orderly done (passing x rest)
passing-Orderly done none rest h = h
passing-Orderly done (some e) rest h = failing done e

between-Orderly :
    (r : Resource) (done : List Effect) (o : Outcome (Unit {0}))
    → Orderly done o
    → Orderly (opened r ∷ (done ++ closed r ∷ [])) (between (opened r ∷ []) o (closed r ∷ []))
between-Orderly r done o h = record {
  nested = around r o.effects [] h.nested nothing;
  full = λ q. ap (λ es. opened r ∷ (es ++ closed r ∷ [])) (h.full q);
}

abbrev served : List Effect
served = opened server ∷ closed server ∷ []

serve_http-Orderly : (s : Serving) → Orderly served (serve_http s)
unfolding serve_http
serve_http-Orderly (ended none) = record { nested = one server; full = λ _. refl }
serve_http-Orderly (ended (some e)) = record { nested = one server; full = λ _. refl }
serve_http-Orderly (stopped none) = record { nested = one server; full = λ _. refl }
serve_http-Orderly (stopped (some e)) = record { nested = one server; full = λ _. refl }

-- A whole run.
abbrev pub whole_run : List Effect
whole_run =
    opened startup
    ∷ opened client
    ∷ opened publisher
    ∷ opened relay
    ∷ opened server
    ∷ closed server
    ∷ closed relay
    ∷ closed publisher
    ∷ closed client
    ∷ closed startup
    ∷ []

module _ {Key : Type 0} (outside : Outside Key) where
  -- Whatever fails on the way, everything that the service has opened by then is closed again, each
  -- once and the last first; and it returns no error only if it has opened everything, served, and
  -- closed the server, the relay, the publisher and the database client in this order.
  pub run-Orderly : Orderly whole_run (run outside)
  unfolding run with_mongo initialize_repositories with_relay
  run-Orderly = checked-Orderly whole_run (load_runtime_config outside) _ λ c.
      between-Orderly startup _ _ (
        passing-Orderly _ outside.connecting _ (
          between-Orderly client _ _ (
            passing-Orderly _ outside.pinging _ (
              passing-Orderly _ outside.channel_indexes _ (
                passing-Orderly _ outside.message_indexes _ (
                  passing-Orderly _ outside.outbox_indexes _ (
                    checked-Orderly _ (new_kafka_publisher c.0.kafka) _ λ _.
                      between-Orderly publisher _ _
                        (between-Orderly relay _ _ (serve_http-Orderly outside.serving)))))))))
