-- ===== src/Message/Service/Pages.antt =====
-- The pages that `List` answers.
use lens_chat_service.Prelude.{
  ℕ, zero, suc, ◌≡◌, refl, sym, subst, ap, ◌⊎◌, inl, inr, true, false, List, Result, ok, err, IsIn,
  Bool-cases, ℤ, pos, negsuc, ltb_ℤ, ◌≤ℤ◌, ◌<ℤ◌, length, arith,
}
use lens_chat_service.GoText.{Bytes}
use lens_chat_service.Schema.{Message, Channel}
use lens_chat_service.Mongo.{Reply, FoundAll, Listed, InOrder}
use lens_chat_service.Response.{Error, invalid}
use lens_chat_service.Store.{View, Ensures, Ensures-Reading, Reading, IsIndexed, done}
use lens_chat_service.Platform.{Platform}
use lens_chat_service.Channel.Service as ChannelService
use lens_chat_service.Channel.Service.Access.{IsOpenTo, IsRefused, Got, get-Gets}
use lens_chat_service.Message.Queries
use lens_chat_service.Message.Queries.{list_filter, newest_first, or_driver, in_channel}
use lens_chat_service.Message.Service.{is_bad_page, list}

-- The message is in the channel, and before `before` unless that is 0.
abbrev pub IsBefore : Channel → ℤ → Message → Type 0
IsBefore ch before m = (m.channel_id ≡ ch.id) × ((before ≡ pos 0) ⊎ (m.sequence <ℤ before))

listed-IsBefore :
    (ch : Channel) (before : ℤ) (m : Message)
    → pos 0 ≤ℤ before
    → list_filter ch.id before m ≡ true
    → IsBefore ch before m
unfolding list_filter in_channel
listed-IsBefore ch (pos zero) m h k = (ground arith, inl refl)
listed-IsBefore ch (pos (suc n)) m h k = (ground arith, inr (ground arith))
listed-IsBefore ch (negsuc n) m h k = absurd (omega arith)

list_filter_of_before :
    (ch : Channel) (before : ℤ) (m : Message)
    → IsBefore ch before m
    → list_filter ch.id before m ≡ true
unfolding list_filter in_channel
list_filter_of_before ch before m (e, inl h) = ground arith
list_filter_of_before ch before m (e, inr h) = ground arith

at_least_one : (l : ℤ) → ltb_ℤ l (pos 1) ≡ false → (n : ℕ) × (l ≡ pos (suc n))
at_least_one (pos zero) h = cc h
at_least_one (pos (suc n)) h = (n, refl)
at_least_one (negsuc n) h = absurd (ground arith)

module _ (platform : Platform) (actor id : Bytes) (v : View) (limit before : ℤ) where
  -- The newest messages of the channel before `before`, at most `limit` of them.
  pub record IsPage (ch : Channel) (ms : List Message) : Type 0 where
    pub access : IsOpenTo platform actor id v ch
    pub sound : (m : Message) → IsIn m ms → IsIn m v.messages × IsBefore ch before m
    pub ordered : InOrder newest_first ms
    pub few : pos (length ms) ≤ℤ limit
    pub complete :
        (m : Message)
        → IsIn m v.messages
        → IsBefore ch before m
        → IsIn m ms
          ⊎ ((pos (length ms) ≡ limit) × ((n : Message) → IsIn n ms → m.sequence ≤ℤ n.sequence))

  abbrev pub Pages : Result Error (List Message) → Type 0
  Pages (ok ms) = (ch : Channel) × IsPage ch ms
  Pages (err e) =
      IsRefused platform actor id v e
      ⊎ ((e ≡ invalid) × (is_bad_page (pos 100) limit before ≡ true))

  IsPage-of_Listed :
      (ch : Channel) (n : ℕ) (ms : List Message)
      → IsOpenTo platform actor id v ch
      → limit ≡ pos n
      → pos 0 ≤ℤ before
      → Listed (list_filter ch.id before) newest_first n v.messages ms
      → IsPage ch ms
  unfolding newest_first
  IsPage-of_Listed ch n ms o e h l = record {
    access = o;
    sound = λ m i. ((l.sound m i).0, listed-IsBefore ch before m h (l.sound m i).1);
    ordered = l.ordered;
    few = rw e (omega (arith, l.few));
    complete = λ m i b. elim (l.complete m i (list_filter_of_before ch before m b)) [
      | inl k ↦ inl k
      | inr (size, last) ↦ inr (rw e (ap pos size), λ x j. ground (arith, last x j))
    ];
  }

  found_lem :
      (ch : Channel) (r : Reply (List Message))
      → IsOpenTo platform actor id v ch
      → is_bad_page (pos 100) limit before ≡ false
      → FoundAll (list_filter ch.id before) newest_first limit v.messages r
      → Reading Pages v (or_driver r) v
  unfolding is_bad_page
  found_lem ch (ok ms) o h f =
      let (n, e) = at_least_one limit (ground arith) in
      (
        refl,
        (
          ch,
          IsPage-of_Listed ch (suc n) ms o e (ground arith) (
              subst (λ l. FoundAll (list_filter ch.id before) newest_first l v.messages (ok ms)) e
                f),
        ),
      )
  found_lem ch (err e) o h f = (refl, inl tt)

  query_lem :
      (ch : Channel)
      → IsOpenTo platform actor id v ch
      → is_bad_page (pos 100) limit before ≡ false
      → Ensures (Queries.list ch.id limit before) (Reading Pages v) v
  unfolding Queries.list
  query_lem ch o h = λ r ds d _.
      subst (λ l. Ensures (done (or_driver r)) (Reading Pages v) (record v { messages = l }))
        (sym d.0) (found_lem ch r o h d.1)

  -- A page has the newest messages of a channel that is open to the caller, those before `before` if
  -- it is not 0, newest first, at most `limit` of them, and all of them if they are fewer. Nothing is
  -- written. Where there is no page, the channel is refused, the range is bad, or the driver failed.
  pub list-Pages : IsIndexed v → Ensures (list platform actor id limit before) (Reading Pages v) v
  unfolding list
  list-Pages unique = elim (Bool-cases (is_bad_page (pos 100) limit before)) [
    | inl h ↦ rw h (refl, inr (refl, h))
    | inr h ↦ rw h (
        Ensures-Reading (Got platform actor id v) (λ ch. Queries.list ch.id limit before)
          (Reading Pages v) v (λ ch o. query_lem ch o h) (λ e k. (refl, inl k))
          (ChannelService.get platform actor id) (get-Gets platform actor id v unique))
  ]
