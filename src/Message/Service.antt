-- ===== src/Message/Service.antt =====
-- internal/message/message.service.go
pub mod Authority
pub mod Edits
pub mod Failures
pub mod Interleaved
pub mod Calls
pub mod Requests
pub mod Origin
pub mod Cursors
pub mod AiReplies
pub mod AiPages
pub mod Pages
use lens_chat_service.Prelude.{
  ℕ, ℤ, pos, negsuc, ltb, ltb_ℤ, Bool, true, false, not, ◌&&◌, ◌||◌, Option, none, some, List,
  reverse, Result, ok, err, ◌==◌, if◌then◌else◌, length,
}
use lens_chat_service.GoText.{Bytes, text, str_eq, trim_space, is_blank, valid_utf8}
use lens_chat_service.Schema.{ObjectId, Message, Channel}
use lens_chat_service.Response.{Error, invalid, conflict, forbidden}
use lens_chat_service.Store.{Action, return, fail, ◌>>=◌}
use lens_chat_service.Platform.{Platform, CreateMessageRequest, CreateAiReplyRequest}
use lens_chat_service.Channel.Service as ChannelService
use lens_chat_service.Message.Events.{Fresh}
use lens_chat_service.Message.Queries
use lens_chat_service.Message.Create
use lens_chat_service.Message.Create.{Saved}
use lens_chat_service.Message.Mutate
use lens_chat_service.Message.Mutate.{is_none}
use lens_chat_service.Message.ReadCursor

unfoldable pub is_bad_request : CreateMessageRequest → Bool
is_bad_request req =
    is_blank req.client_message_id
    || (ltb 100 (length req.client_message_id)
        || (not (valid_utf8 req.content)
            || (is_blank req.content
                || (ltb 10000 (length req.content)
                    || (not (str_eq req.kind (text "text"))
                        && (not (str_eq req.kind (text "image"))
                            && not (str_eq req.kind (text "file"))))))))

unfoldable pub is_bad_reply : Bytes → CreateAiReplyRequest → Bool
is_bad_reply photographer req =
    is_blank photographer
    || (is_blank req.client_message_id
        || (ltb 100 (length req.client_message_id)
            || (is_blank req.content
                || (ltb 10000 (length req.content)
                    || (not (valid_utf8 req.content)
                        || (ltb_ℤ req.expected_last_sequence (pos 1)
                            || is_blank req.source_message_id))))))

unfoldable pub is_bad_content : Bytes → Bool
is_bad_content content =
    is_blank content || (ltb 10000 (length content) || not (valid_utf8 content))

unfoldable pub is_bad_page : ℤ → ℤ → ℤ → Bool
is_bad_page most limit before = ltb_ℤ limit (pos 1) || (ltb_ℤ most limit || ltb_ℤ before (pos 0))

-- The message that a client sends; the repository fills in what is left at zero.
unfoldable pub user_message : ObjectId → Bytes → CreateMessageRequest → Bytes → ObjectId → Message
user_message ch actor req digest reply = record {
  id = 0;
  channel_id = ch;
  sender_id = actor;
  sender_kind = text "user";
  client_message_id = req.client_message_id;
  request_hash = digest;
  kind = req.kind;
  content = req.content;
  sequence = pos 0;
  reply_to_message_id = reply;
  revision = 0;
  recalled_at = none;
  created_at = 0;
  updated_at = 0;
}

unfoldable pub ai_message : ObjectId → Bytes → CreateAiReplyRequest → Bytes → ObjectId → Message
ai_message ch photographer req digest source = record {
  id = 0;
  channel_id = ch;
  sender_id = photographer;
  sender_kind = text "ai";
  client_message_id = req.client_message_id;
  request_hash = digest;
  kind = text "text";
  content = trim_space req.content;
  sequence = pos 0;
  reply_to_message_id = source;
  revision = 0;
  recalled_at = none;
  created_at = 0;
  updated_at = 0;
}

-- A reply refers to a message of the same channel.
unfoldable pub same_channel : Channel → ObjectId → Message → Action ObjectId
same_channel ch id reply = if reply.channel_id == ch.id then return id else fail invalid

unfoldable pub parsed_reply : Channel → Option ObjectId → Action ObjectId
unfolding same_channel
parsed_reply ch none = fail invalid
parsed_reply ch (some id) = do reply ← Queries.get id; same_channel ch id reply

-- The tests on the message that an AI reply answers.
unfoldable pub is_bad_source : Channel → Bytes → Message → Bool
is_bad_source ch photographer source =
    not (source.channel_id == ch.id)
    || (str_eq source.sender_id photographer
        || (str_eq source.sender_kind (text "ai") || not (is_none source.recalled_at)))

unfoldable pub or_invalid : Option ObjectId → Action ObjectId
or_invalid none = fail invalid
or_invalid (some id) = return id

unfoldable pub owned : Bytes → Message → Action Message
owned actor msg = if str_eq msg.sender_id actor then return msg else fail forbidden

module _ (platform : Platform) where
  unfoldable pub reply_of : Channel → CreateMessageRequest → Action ObjectId
  unfolding parsed_reply
  reply_of ch req =
      if str_eq req.reply_to_message_id (text "")
      then return 0
      else parsed_reply ch (platform.from_hex req.reply_to_message_id)

  unfoldable pub create_in : Fresh → Bytes → CreateMessageRequest → Channel → Action Saved
  create_in fresh actor req ch = if is_bad_request req then fail invalid else do
    reply ← reply_of ch req
    Create.create platform.hex fresh
        (user_message ch.id actor req (platform.request_digest req) reply)

  unfoldable pub create : Fresh → Bytes → Bytes → CreateMessageRequest → Action Saved
  unfolding create_in
  create fresh actor id req = do
    ch ← ChannelService.get platform actor id
    create_in fresh actor req ch

  unfoldable pub reply_to_source :
      Fresh → Bytes → CreateAiReplyRequest → Channel → Message → Action Saved
  reply_to_source fresh photographer req ch source =
      if is_bad_source ch photographer source
      then fail conflict
      else Create.create platform.hex fresh
          (ai_message ch.id photographer req (platform.ai_digest req) source.id)

  unfoldable pub create_ai_reply : Fresh → Bytes → Bytes → CreateAiReplyRequest → Action Saved
  unfolding reply_to_source or_invalid
  create_ai_reply fresh id photographer req =
      if is_bad_reply photographer req then fail invalid else do
        ch ← ChannelService.get platform photographer id
        source_id ← or_invalid (platform.from_hex req.source_message_id)
        source ← Queries.get source_id
        reply_to_source fresh photographer req ch source

  -- The loop that swaps the ends turns the page round.
  unfoldable pub list_for_ai : Bytes → Bytes → ℤ → ℤ → Action (List Message)
  list_for_ai id photographer limit before =
      if is_bad_page (pos 30) limit before then fail invalid else do
        ch ← ChannelService.get platform photographer id
        messages ← Queries.list ch.id limit before
        return (reverse messages)

  unfoldable pub list : Bytes → Bytes → ℤ → ℤ → Action (List Message)
  list actor id limit before =
      if is_bad_page (pos 100) limit before
      then fail invalid
      else do ch ← ChannelService.get platform actor id; Queries.list ch.id limit before

  unfoldable pub authorized : Bytes → Bytes → Action Message
  unfolding owned or_invalid
  authorized actor id = do
    oid ← or_invalid (platform.from_hex id)
    msg ← Queries.get oid
    ch ← ChannelService.get platform actor (platform.hex msg.channel_id)
    owned actor msg

  unfoldable pub edit_read : Fresh → Bytes → Message → Action Message
  edit_read fresh content msg =
      if is_none msg.recalled_at then Mutate.edit platform.hex fresh msg content else fail conflict

  unfoldable pub edit : Fresh → Bytes → Bytes → Bytes → Action Message
  unfolding edit_read
  edit fresh actor id content =
      if is_bad_content content
      then fail invalid
      else do msg ← authorized actor id; edit_read fresh content msg

  unfoldable pub recall_read : Fresh → Message → Action Message
  recall_read fresh msg =
      if is_none msg.recalled_at then Mutate.recall platform.hex fresh msg else return msg

  unfoldable pub recall : Fresh → Bytes → Bytes → Action Message
  unfolding recall_read
  recall fresh actor id = do msg ← authorized actor id; recall_read fresh msg

  unfoldable pub read_in : Fresh → Bytes → ℤ → Channel → Action ℤ
  read_in fresh actor seq ch =
      if ltb_ℤ seq (pos 0) || ltb_ℤ ch.last_message_seq seq
      then fail invalid
      else ReadCursor.read platform.hex fresh ch.id actor seq

  unfoldable pub read : Fresh → Bytes → Bytes → ℤ → Action ℤ
  unfolding read_in
  read fresh actor id seq = do ch ← ChannelService.get platform actor id; read_in fresh actor seq ch
