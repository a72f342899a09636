-- ===== src/Channel/Service/Pairs.antt =====
-- A pair of users has one channel, whoever asks for it.
use lens_chat_service.Prelude.{
  ◌≡◌, ◌∙◌, ap, ◌⊎◌, inl, inr, true, false, Result, ok, err, arith, IsIn,
}
use lens_chat_service.GoText.{Bytes, str_eq_iff, str_lt_asym, eq_of_not_str_lt}
use lens_chat_service.Schema.{ObjectId, Time, Channel}
use lens_chat_service.Mongo.{eq_of_clash}
use lens_chat_service.Response.{Error, invalid, not_found, forbidden, conflict, driver, other}
use lens_chat_service.Store.{View, Ensures, Ensures-mono, IsIndexed, IsDriverFailure, channel_clash}
use lens_chat_service.Platform.{Platform}
use lens_chat_service.Channel.Repo.{has_key, get_or_create}
use lens_chat_service.Channel.Repo.GetOrCreate.{GetsOrCreates, get_or_create-GetsOrCreates}
use lens_chat_service.Channel.Service.{is_bad_peer, sorted_pair, create}

pub sorted_pair_comm : (a b : Bytes) → sorted_pair a b ≡ sorted_pair b a
unfolding sorted_pair
sorted_pair_comm a b = ground (arith, str_lt_asym a b, str_lt_asym b a, eq_of_not_str_lt a b)

clash_of_key :
    (key : Bytes) (c d : Channel)
    → has_key key c ≡ true
    → has_key key d ≡ true
    → channel_clash c d ≡ true
unfolding channel_clash
clash_of_key key c d h k = ground (
  arith,
  str_eq_iff c.direct_key key,
  str_eq_iff d.direct_key key,
  str_eq_iff c.direct_key d.direct_key,
)

-- Nothing was written, and the channel is answered unless the driver failed.
abbrev pub Answers : Channel → View → Result Error Channel → View → Type 0
Answers ch v r w = IsDriverFailure r ⊎ ((r ≡ ok ch) × (w ≡ v))

module _ (id : ObjectId) (now : Time) (pair : Bytes × Bytes) (key : Bytes) (v : View) (ch : Channel)
    (unique : IsIndexed v) (stored : IsIn ch v.channels) (keyed : has_key key ch ≡ true) where
  Answers-of_GetsOrCreates :
      (r : Result Error Channel) (w : View) → GetsOrCreates id now pair key v r w → Answers ch v r w
  Answers-of_GetsOrCreates (ok c) w (inl (same, i, h)) = inr (
    ap ok (
        eq_of_clash channel_clash v.channels c ch unique.channels i stored
          (clash_of_key key c ch h keyed) (clash_of_key key ch c keyed h)),
    same,
  )
  Answers-of_GetsOrCreates (ok c) w (inr (absent, _, _)) = cc (absent ch stored)
  Answers-of_GetsOrCreates (err (driver e)) w h = inl tt
  Answers-of_GetsOrCreates (err invalid) w h = absurd h
  Answers-of_GetsOrCreates (err not_found) w h = absurd h
  Answers-of_GetsOrCreates (err forbidden) w h = absurd h
  Answers-of_GetsOrCreates (err conflict) w h = absurd h
  Answers-of_GetsOrCreates (err (other m)) w h = absurd h

-- A channel that was made for `b` and `a`, in either order, is the one that `a` gets when asking
-- for `b`, if the request is valid: nothing is written, and only the driver can fail.
pub create-existing :
    (platform : Platform) (id : ObjectId) (now : Time) (a b : Bytes) (v : View) (ch : Channel)
    → IsIndexed v
    → is_bad_peer a b ≡ false
    → IsIn ch v.channels
    → (ch.direct_key ≡ platform.pair_digest (sorted_pair b a))
    → Ensures (create platform id now a b) (Answers ch v) v
unfolding create
create-existing platform id now a b v ch unique good stored key =
    let k = platform.pair_digest (sorted_pair a b) in
    let e : ch.direct_key ≡ k = key ∙ ap platform.pair_digest (sorted_pair_comm b a) in
    rw good (
      Ensures-mono (get_or_create id now (sorted_pair a b) k) v
        (Answers-of_GetsOrCreates id now (sorted_pair a b) k v ch unique stored
          ((str_eq_iff ch.direct_key k).1 e))
        (get_or_create-GetsOrCreates id now (sorted_pair a b) k v))
