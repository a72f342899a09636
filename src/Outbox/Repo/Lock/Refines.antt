-- ===== src/Outbox/Repo/Lock/Refines.antt =====
-- The operations on the lease implement the lock.
use lens_chat_service.Prelude.{
  ◌+◌, ◌≤◌, ◌<◌, ◌≡◌, ◌∙◌, refl, sym, subst, ap, ◌⊎◌, inl, inr, Bool, true, false, List, [], ◌∷◌,
  ◌++◌, Result, ok, err, arith, IsIn,
}
use lens_chat_service.GoText.{Bytes, str_eq_iff}
use lens_chat_service.Schema.{Time, OutboxRelayLease}
use lens_chat_service.Mongo.{
  Reply, Deleted, Removed, NoneMatch, IsUnique, eq_of_clash, no_documents, duplicate_key,
  driver_failed, IsIn-middle,
}
use lens_chat_service.Response.{Error}
use lens_chat_service.Store.{
  View, Ensures, Ensures-mono, Ensures-and_then, IsIndexed, lease_clash, done,
}
use lens_chat_service.Outbox.Repo.{
  relay_lease_id, after_lease, acquire_relay_lease, is_held_by, release_relay_lease, or_driver,
}
use lens_chat_service.Outbox.Repo.Lease.{
  IsLease, clash_of_lease, IsAcquired, Acquires, acquire-Acquires,
}
use lens_chat_service.Outbox.Repo.Lock.{
  Lock, free, held, Represents, Request, take, drop, Reaction, MayTake, Drops, Reacts, ReactsAll,
  of_acquire, of_release, ask, ask_all,
}

-- There is one lease.
one_lease :
    (docs : List OutboxRelayLease) (l m : OutboxRelayLease)
    → IsUnique lease_clash docs
    → IsLease l docs
    → IsLease m docs
    → l ≡ m
one_lease docs l m u h k =
    eq_of_clash lease_clash docs l m u h.0 k.0 (clash_of_lease l m h.1 k.1)
      (clash_of_lease m l k.1 h.1)

removed_apart :
    (x old : OutboxRelayLease) (pre post : List OutboxRelayLease)
    → IsUnique lease_clash (pre ++ (old ∷ post))
    → IsIn x (pre ++ post)
    → (lease_clash x old ≡ false) ⊎ (lease_clash old x ≡ false)
removed_apart x old [] post u i = inr (u.0 x i)
removed_apart x old (z ∷ pre) post u (inl e) =
    inl (subst (λ y. lease_clash y old ≡ false) (sym e) (u.0 old (IsIn-middle old pre post)))
removed_apart x old (z ∷ pre) post u (inr i) = removed_apart x old pre post u.1 i

module _ (v : View) (unique : IsIndexed v) where
  acquired_lem :
      (owner : Bytes) (now duration : Time) (k : Lock) (w : View)
      → Represents v.leases k
      → IsAcquired owner now duration v w
      → MayTake k owner now × Represents w.leases (held owner (now + duration))
  acquired_lem owner now duration free w h a = (tt, (a.lease, a.stored, a.owned, a.until))
  acquired_lem owner now duration (held o u) w (l, i, e, t) a = (
    subst (λ x. (u ≤ now) ⊎ (x ≡ owner)) e
        (subst (λ x. (x ≤ now) ⊎ (l.owner ≡ owner)) t (a.free l i)),
    (a.lease, a.stored, a.owned, a.until),
  )

  refused_lem :
      (owner : Bytes) (now : Time) (k : Lock) (l : OutboxRelayLease)
      → Represents v.leases k
      → IsLease l v.leases
      → now < l.lease_until
      → ¬ (l.owner ≡ owner)
      → ¬ MayTake k owner now
  refused_lem owner now free l h i late other m = absurd (h l i)
  refused_lem owner now (held o u) l (x, j, e, t) i late other (inl past) =
      let same : x ≡ l = one_lease v.leases x l unique.leases j i in
      omega (arith, late, past, t, ap (λ (y : OutboxRelayLease). y.lease_until) same)
  refused_lem owner now (held o u) l (x, j, e, t) i late other (inr own) =
      let same : x ≡ l = one_lease v.leases x l unique.leases j i in
      other (sym (ap (λ (y : OutboxRelayLease). y.owner) same) ∙ e ∙ own)

  removed_lem :
      (owner : Bytes) (k : Lock) (ls : List OutboxRelayLease)
      → Represents v.leases k
      → Removed (is_held_by owner) v.leases ls
      → Drops k owner free × Represents ls free
  unfolding is_held_by
  removed_lem owner k ls h r = (drops k h, gone)
    where
      named : r.old.id ≡ relay_lease_id
      named = ground (arith, str_eq_iff r.old.id relay_lease_id, r.matched)

      owned : r.old.owner ≡ owner
      owned = ground (arith, str_eq_iff r.old.owner owner, r.matched)

      stored : IsLease r.old v.leases
      stored = (subst (IsIn r.old) (sym r.before) (IsIn-middle r.old r.pre r.post), named)

      drops : (k : Lock) → Represents v.leases k → Drops k owner free
      drops free h = refl
      drops (held o u) (x, j, e, t) =
          let same : x ≡ r.old = one_lease v.leases x r.old unique.leases j stored in
          inl (sym e ∙ ap (λ (y : OutboxRelayLease). y.owner) same ∙ owned, refl)

      gone : (l : OutboxRelayLease) → ¬ IsLease l ls
      gone l i =
          let apart =
            removed_apart l r.old r.pre r.post (subst (IsUnique lease_clash) r.before unique.leases)
              (subst (IsIn l) r.after i.0) in
          elim apart [
            | inl off ↦ cc (off, clash_of_lease l r.old i.1 named)
            | inr off ↦ cc (off, clash_of_lease r.old l named i.1)
          ]

  untouched_lem :
      (owner : Bytes) (k : Lock)
      → Represents v.leases k
      → NoneMatch (is_held_by owner) v.leases
      → Drops k owner k
  unfolding is_held_by
  untouched_lem owner free h n = refl
  untouched_lem owner (held o u) (x, j, e, t) n = inr (
    (λ own.
        let off = n x j.0 in
        let named = (str_eq_iff x.id relay_lease_id).1 j.1 in
        let mine = (str_eq_iff x.owner owner).1 (e ∙ own) in ground (arith, off, named, mine)),
    refl,
  )

-- The rest of the run begins with a database that still stands for the lock.
record Stands (k : Lock) (r : Request) (a : Reaction) (w : View) : Type 0 where
  indexed : IsIndexed w
  lock : Lock
  reacts : Reacts k r a lock
  represents : Represents w.leases lock

-- The lock after all reactions, for which the database stands.
pub record StandsAll (k : Lock) (rs : List Request) (acts : List Reaction) (w : View) : Type 0 where
  pub lock : Lock
  pub reacts : ReactsAll k rs acts lock
  pub represents : Represents w.leases lock

with_leases :
    (v : View)
    → IsIndexed v
    → (ls : List OutboxRelayLease) → IsUnique lease_clash ls
    → IsIndexed (record v { leases = ls })
with_leases v unique ls u = record {
  messages = unique.messages;
  channels = unique.channels;
  states = unique.states;
  outbox = unique.outbox;
  leases = u;
}

module _ (k : Lock) (v : View) (unique : IsIndexed v) (h : Represents v.leases k) where
  acquired-Stands :
      (owner : Bytes) (now duration : Time) (r : Result Error Bool) (w : View)
      → IsIndexed w
      → Acquires owner now duration v r w
      → Stands k (take owner now duration) (of_acquire r) w
  acquired-Stands owner now duration (ok true) w i a =
      let (may, rep) = acquired_lem v unique owner now duration k w h a in
      record {
        indexed = i;
        lock = held owner (now + duration);
        reacts = (may, refl);
        represents = rep;
      }
  acquired-Stands owner now duration (ok false) w i (same, (l, j, late, other)) = record {
    indexed = i;
    lock = k;
    reacts = (refused_lem v unique owner now k l h j late other, refl);
    represents = subst (λ (x : View). Represents x.leases k) (sym same) h;
  }
  acquired-Stands owner now duration (err e) w i (_, inl same) = record {
    indexed = i;
    lock = k;
    reacts = inl refl;
    represents = subst (λ (x : View). Represents x.leases k) (sym same) h;
  }
  acquired-Stands owner now duration (err e) w i (_, inr a) =
      let (may, rep) = acquired_lem v unique owner now duration k w h a in
      record {
        indexed = i;
        lock = held owner (now + duration);
        reacts = inr (may, refl);
        represents = rep;
      }

  released-Stands :
      (owner : Bytes) (r : Reply (Unit {0})) (ls : List OutboxRelayLease)
      → IsIndexed (record v { leases = ls })
      → Deleted (is_held_by owner) v.leases r ls
      → Stands k (drop owner) (of_release (or_driver r)) (record v { leases = ls })
  released-Stands owner (ok t) ls i (inl gone) =
      let (drops, rep) = removed_lem v unique owner k ls h gone in
      record { indexed = i; lock = free; reacts = drops; represents = rep }
  released-Stands owner (ok t) ls i (inr (same, none_here)) = record {
    indexed = i;
    lock = k;
    reacts = untouched_lem v unique owner k h none_here;
    represents = subst (λ x. Represents x k) (sym same) h;
  }
  released-Stands owner (err e) ls i (inl same) = record {
    indexed = i;
    lock = k;
    reacts = inl refl;
    represents = subst (λ x. Represents x k) (sym same) h;
  }
  released-Stands owner (err e) ls i (inr gone) =
      let (drops, rep) = removed_lem v unique owner k ls h gone in
      record { indexed = i; lock = free; reacts = inr drops; represents = rep }

-- The answer is given without a further call.
at_once :
    (owner : Bytes) (a : Reply OutboxRelayLease) (Q : Result Error Bool → View → Type 0) (v : View)
    → IsIndexed v
    → Ensures (after_lease owner a) Q v
    → Ensures (after_lease owner a) (λ r w. IsIndexed w × Q r w) v
unfolding after_lease
at_once owner (ok l) Q v i h = (i, h)
at_once owner (err no_documents) Q v i h = (i, h)
at_once owner (err duplicate_key) Q v i h = (i, h)
at_once owner (err (driver_failed n)) Q v i h = (i, h)

ask-Stands :
    (r : Request) (k : Lock) (v : View)
    → IsIndexed v
    → Represents v.leases k
    → Ensures (ask r) (Stands k r) v
unfolding ask acquire_relay_lease release_relay_lease
ask-Stands (take owner now duration) k v unique h = λ a ls d u.
    let w : View = record v { leases = ls } in
    Ensures-and_then (after_lease owner a) (λ b. done (of_acquire b))
      (Stands k (take owner now duration)) w
      (Ensures-mono (after_lease owner a) w
        (λ b x t. acquired-Stands k v unique h owner now duration b x t.0 t.1)
        (at_once owner a (Acquires owner now duration v) w (with_leases v unique ls u)
          (acquire-Acquires owner now duration v unique a ls d u)))
ask-Stands (drop owner) k v unique h =
    λ a ls d u. released-Stands k v unique h owner a ls (with_leases v unique ls u) d

-- Take a database that keeps its unique indexes and stands for a lock. For any sequence of requests
-- of any relays to take or release the lease, the answers of the repository are reactions of the
-- lock to these requests, one for each, and the database stands for the lock after them. The lock
-- is given only where it is free, has run out or is the relay's own, refused only where it is not,
-- and dropped only by its holder. A call that fails was carried out so or not at all.
pub ask_all-Refines :
    (rs : List Request) (k : Lock) (v : View)
    → IsIndexed v
    → Represents v.leases k
    → Ensures (ask_all rs) (StandsAll k rs) v
unfolding ask_all
ask_all-Refines [] k v unique h = record { lock = k; reacts = refl; represents = h }
ask_all-Refines (r ∷ rs) k v unique h = Ensures-and_then (ask r) _ (StandsAll k (r ∷ rs)) v (
    Ensures-mono (ask r) v
      (λ a w s. Ensures-and_then (ask_all rs) _ (StandsAll k (r ∷ rs)) w (
        Ensures-mono (ask_all rs) w
          (λ acts x t. record {
            lock = t.lock;
            reacts = (s.lock, s.reacts, t.reacts);
            represents = t.represents;
          })
          (ask_all-Refines rs s.lock w s.indexed s.represents)))
      (ask-Stands r k v unique h))
