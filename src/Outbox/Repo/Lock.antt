-- ===== src/Outbox/Repo/Lock.antt =====
-- The relay's lease, seen as a lock that one relay at a time holds until some time.
pub mod Refines
pub mod Exclusive
use lens_chat_service.Prelude.{
  ◌+◌, ◌≤◌, ◌≡◌, ◌⊎◌, Bool, true, false, List, [], ◌∷◌, Result, ok, err, IsIn,
}
use lens_chat_service.GoText.{Bytes}
use lens_chat_service.Schema.{Time, OutboxRelayLease}
use lens_chat_service.Response.{Error}
use lens_chat_service.Store.{Program, done, and_then}
use lens_chat_service.Outbox.Repo.{relay_lease_id, acquire_relay_lease, release_relay_lease}
use lens_chat_service.Outbox.Repo.Lease.{IsLease}

pub data Lock : Type 0 where
  free : Lock
  held : Bytes → Time → Lock

-- The documents that stand for a lock.
abbrev pub Represents : List OutboxRelayLease → Lock → Type 0
Represents docs free = (l : OutboxRelayLease) → ¬ IsLease l docs
Represents docs (held owner until) =
    (l : OutboxRelayLease) × IsLease l docs × (l.owner ≡ owner) × (l.lease_until ≡ until)

-- What a relay asks for: the lock, now and for some time, or to be rid of it.
pub data Request : Type 0 where
  take : Bytes → Time → Time → Request
  drop : Bytes → Request

pub data Reaction : Type 0 where
  yes no fault : Reaction

abbrev pub MayTake : Lock → Bytes → Time → Type 0
MayTake free owner now = Unit
MayTake (held o until) owner now = (until ≤ now) ⊎ (o ≡ owner)

abbrev pub Drops : Lock → Bytes → Lock → Type 0
Drops free owner k = k ≡ free
Drops (held o until) owner k = ((o ≡ owner) × (k ≡ free)) ⊎ (¬ (o ≡ owner) × (k ≡ held o until))

-- How a lock reacts. One that is faulty may have done what was asked.
abbrev pub Reacts : Lock → Request → Reaction → Lock → Type 0
Reacts k (take owner now duration) yes k' = MayTake k owner now × (k' ≡ held owner (now + duration))
Reacts k (take owner now duration) no k' = ¬ MayTake k owner now × (k' ≡ k)
Reacts k (take owner now duration) fault k' =
    (k' ≡ k) ⊎ (MayTake k owner now × (k' ≡ held owner (now + duration)))
Reacts k (drop owner) yes k' = Drops k owner k'
Reacts k (drop owner) no k' = ⊥
Reacts k (drop owner) fault k' = (k' ≡ k) ⊎ Drops k owner k'

-- The reactions to a sequence of requests.
abbrev pub ReactsAll : Lock → List Request → List Reaction → Lock → Type 0
ReactsAll k [] [] k' = k' ≡ k
ReactsAll k [] (a ∷ acts) k' = ⊥
ReactsAll k (r ∷ rs) [] k' = ⊥
ReactsAll k (r ∷ rs) (a ∷ acts) k' = (l : Lock) × Reacts k r a l × ReactsAll l rs acts k'

abbrev pub of_acquire : Result Error Bool → Reaction
of_acquire (ok true) = yes
of_acquire (ok false) = no
of_acquire (err e) = fault

abbrev pub of_release : Result Error (Unit {0}) → Reaction
of_release (ok u) = yes
of_release (err e) = fault

-- What the repository does for a request.
unfoldable pub ask : Request → Program Reaction
ask (take owner now duration) =
    and_then (acquire_relay_lease owner now duration) λ r. done (of_acquire r)
ask (drop owner) = and_then (release_relay_lease owner) λ r. done (of_release r)

-- What it does for the requests of all relays, in the order in which they reach the database.
unfoldable pub ask_all : List Request → Program (List Reaction)
ask_all [] = done []
ask_all (r ∷ rs) = and_then (ask r) λ a. and_then (ask_all rs) λ acts. done (a ∷ acts)
