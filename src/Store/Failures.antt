-- ===== src/Store/Failures.antt =====
-- Where the driver's errors that an action answers come from.
use lens_chat_service.Prelude.{Bool, true, false, List, [], ◌∷◌, ◌++◌, ok, err, IsIn, if◌then◌else◌}
use lens_chat_service.Mongo.{
  DriverError, Reply, Op, AnswerOf, find_one, find, insert_one, find_one_and_update, update_one,
  delete_one, aggregate_heads,
}
use lens_chat_service.Response.{driver, invalid, not_found, forbidden, conflict, other}
use lens_chat_service.Store.Actions.{
  Call, Answer, messages, channels, states, outbox, leases, done, call, Action, ◌>>=◌,
}

abbrev pub reply_errors : {A : Type 0} → Reply A → List DriverError
reply_errors (ok _) = []
reply_errors (err e) = e ∷ []

abbrev pub op_errors : {A : Type 0} → (o : Op A) → AnswerOf o → List DriverError
op_errors (find_one p order) r = reply_errors r
op_errors (find p order limit) r = reply_errors r
op_errors (insert_one d) r = reply_errors r
op_errors (find_one_and_update p f up) r = reply_errors r
op_errors (update_one p f up) r = reply_errors r
op_errors (delete_one p) r = reply_errors r
op_errors (aggregate_heads p first same last limit) r = reply_errors r

-- The error of a call, if it failed.
abbrev pub call_errors : (c : Call) → Answer c → List DriverError
call_errors (messages o) r = op_errors o r
call_errors (channels o) r = op_errors o r
call_errors (states o) r = op_errors o r
call_errors (outbox o) r = op_errors o r
call_errors (leases o) r = op_errors o r

-- A driver's error is answered only if it is one of `seen` or the driver answered it to a call of
-- the action; and all other errors are those that the handlers tell apart.
abbrev pub PassesOn : {A : Type 0} → List DriverError → Action A → Type 0
PassesOn seen (done (ok a)) = Unit {0}
PassesOn seen (done (err (driver e))) = IsIn e seen
PassesOn seen (done (err invalid)) = Unit {0}
PassesOn seen (done (err not_found)) = Unit {0}
PassesOn seen (done (err forbidden)) = Unit {0}
PassesOn seen (done (err conflict)) = Unit {0}
PassesOn seen (done (err (other _))) = ⊥
PassesOn seen (call c k) = (r : Answer c) → PassesOn (call_errors c r ++ seen) (k r)

-- The same of an action that starts with nothing seen, and wherever it stands.
abbrev pub IsHonest : {A : Type 0} → Action A → Type 0
IsHonest m = (seen : List DriverError) → PassesOn seen m

pub PassesOn-bind :
    {A B : Type 0} (m : Action A) (f : A → Action B) (seen : List DriverError)
    → PassesOn seen m
    → ((a : A) → IsHonest (f a))
    → PassesOn seen (m >>= f)
PassesOn-bind (done (ok a)) f seen h k = k a seen
PassesOn-bind (done (err (driver e))) f seen h k = h
PassesOn-bind (done (err invalid)) f seen h k = tt
PassesOn-bind (done (err not_found)) f seen h k = tt
PassesOn-bind (done (err forbidden)) f seen h k = tt
PassesOn-bind (done (err conflict)) f seen h k = tt
PassesOn-bind (done (err (other m))) f seen h k = absurd h
PassesOn-bind (call c m) f seen h k = λ r. PassesOn-bind (m r) f (call_errors c r ++ seen) (h r) k

pub IsHonest-bind :
    {A B : Type 0} (m : Action A) (f : A → Action B)
    → IsHonest m
    → ((a : A) → IsHonest (f a))
    → IsHonest (m >>= f)
IsHonest-bind m f h k = λ seen. PassesOn-bind m f seen (h seen) k

pub IsHonest-if :
    {A : Type 0} (b : Bool) (m n : Action A)
    → IsHonest m
    → IsHonest n
    → IsHonest (if b then m else n)
IsHonest-if true m n h k = h
IsHonest-if false m n h k = k
