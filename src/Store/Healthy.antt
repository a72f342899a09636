-- ===== src/Store/Healthy.antt =====
-- Runs in which the driver fails no call.
use lens_chat_service.Prelude.{Bool, true, false, ok, err, if◌then◌else◌}
use lens_chat_service.Mongo.{
  Reply, Op, AnswerOf, find_one, find, insert_one, find_one_and_update, update_one, delete_one,
  aggregate_heads, no_documents,
}
use lens_chat_service.Response.{driver, invalid, not_found, forbidden, conflict, other}
use lens_chat_service.Store.Actions.{
  Call, Answer, messages, channels, states, outbox, leases, Program, done, call, Action, Server, Db,
  perform, run,
}
use lens_chat_service.Store.Reads.{IsDriverFailure}

abbrev pub IsAnswered : {A : Type 0} → Reply A → Type 0
IsAnswered (ok _) = Unit {0}
IsAnswered (err _) = ⊥

-- A search may find no document.
abbrev pub IsSearched : {A : Type 0} → Reply A → Type 0
IsSearched (ok _) = Unit {0}
IsSearched (err no_documents) = Unit {0}
IsSearched (err _) = ⊥

abbrev pub IsWell : {A : Type 0} → (o : Op A) → AnswerOf o → Type 0
IsWell (find_one p order) r = IsSearched r
IsWell (find p order limit) r = IsAnswered r
IsWell (insert_one d) r = IsAnswered r
IsWell (find_one_and_update p f up) r = IsSearched r
IsWell (update_one p f up) r = IsAnswered r
IsWell (delete_one p) r = IsAnswered r
IsWell (aggregate_heads p first same last limit) r = IsAnswered r

abbrev pub IsWellCall : (c : Call) → Answer c → Type 0
IsWellCall (messages o) r = IsWell o r
IsWellCall (channels o) r = IsWell o r
IsWellCall (states o) r = IsWell o r
IsWellCall (outbox o) r = IsWell o r
IsWellCall (leases o) r = IsWell o r

-- An action that answers no error of the driver while the driver fails no call.
abbrev pub Faultless : {A : Type 0} → Action A → Type 0
Faultless (done (ok a)) = Unit {0}
Faultless (done (err invalid)) = Unit {0}
Faultless (done (err not_found)) = Unit {0}
Faultless (done (err forbidden)) = Unit {0}
Faultless (done (err conflict)) = Unit {0}
Faultless (done (err (driver e))) = ⊥
Faultless (done (err (other m))) = Unit {0}
Faultless (call c k) = (r : Answer c) → IsWellCall c r → Faultless (k r)

pub Faultless-if :
    {A : Type 0} (b : Bool) (m n : Action A)
    → Faultless m
    → Faultless n
    → Faultless (if b then m else n)
Faultless-if true m n h k = h
Faultless-if false m n h k = k

module _ (server : Server) where
  -- The driver fails no call of this run.
  abbrev pub GoesWell : {A : Type 0} → Program A → Db server → Type 0
  GoesWell (done a) db = Unit {0}
  GoesWell (call c k) db =
      IsWellCall c (perform server c db).0
      × GoesWell (k (perform server c db).0) (perform server c db).1

  pub Faultless-run :
      {A : Type 0} (m : Action A) (db : Db server)
      → Faultless m
      → GoesWell m db
      → ¬ IsDriverFailure (run server m db).0
  unfolding run
  Faultless-run (done (ok a)) db h g = λ e. e
  Faultless-run (done (err invalid)) db h g = λ e. e
  Faultless-run (done (err not_found)) db h g = λ e. e
  Faultless-run (done (err forbidden)) db h g = λ e. e
  Faultless-run (done (err conflict)) db h g = λ e. e
  Faultless-run (done (err (driver x))) db h g = λ e. h
  Faultless-run (done (err (other m))) db h g = λ e. e
  Faultless-run (call c k) db h g =
      Faultless-run (k (perform server c db).0) (perform server c db).1
        (h (perform server c db).0 g.0) g.1
