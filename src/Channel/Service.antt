-- ===== src/Channel/Service.antt =====
-- internal/channel/channel.service.go
pub mod Access
pub mod Pairs
pub mod Interleaved
pub mod Calls
pub mod Failures
use lens_chat_service.Prelude.{
  ltb, Bool, true, false, not, ◌&&◌, ◌||◌, Option, none, some, List, [], Result, ok, err,
  if◌then◌else◌, length,
}
use lens_chat_service.GoText.{Bytes, text, str_eq, str_lt, trim_space, is_blank}
use lens_chat_service.Schema.{ObjectId, Time, Channel}
use lens_chat_service.Response.{Error, invalid, not_found}
use lens_chat_service.Store.{Action, return, fail, ◌>>=◌}
use lens_chat_service.Platform.{Platform}
use lens_chat_service.Channel.Repo

-- The test at the head of `Create`.
unfoldable pub is_bad_peer : Bytes → Bytes → Bool
is_bad_peer actor peer =
    str_eq actor (text "")
    || (is_blank peer
        || (not (str_eq peer (trim_space peer)) || (ltb 255 (length peer) || str_eq actor peer)))

-- `sort.Strings` on two strings.
unfoldable pub sorted_pair : Bytes → Bytes → Bytes × Bytes
sorted_pair a b = if str_lt b a then (b, a) else (a, b)

-- The caller takes part in a channel that is active.
unfoldable pub may_use : Bytes → Channel → Bool
may_use actor ch = not (
    not ch.active
    || (not (str_eq ch.participant_ids.0 actor) && not (str_eq ch.participant_ids.1 actor)))

unfoldable pub usable : Bytes → Channel → Action Channel
usable actor ch = if may_use actor ch then return ch else fail not_found

unfoldable pub get_id : Bytes → Option ObjectId → Action Channel
unfolding usable
get_id actor none = fail invalid
get_id actor (some oid) = do ch ← Repo.get oid; usable actor ch

module _ (platform : Platform) where
  unfoldable pub create : ObjectId → Time → Bytes → Bytes → Action Channel
  unfolding sorted_pair
  create id now actor peer =
      if is_bad_peer actor peer
      then fail invalid
      else Repo.get_or_create id now (sorted_pair actor peer)
          (platform.pair_digest (sorted_pair actor peer))

  unfoldable pub get : Bytes → Bytes → Action Channel
  unfolding get_id
  get actor id = get_id actor (platform.from_hex id)

unfoldable pub list : Bytes → Action (List Channel)
list actor = Repo.list actor 100
