-- ===== src/Outbox/Repo/Heads.antt =====
-- internal/outbox/repository.go: `PendingChannelHeads`.
use lens_chat_service.Prelude.{
  ℤ, ltb, leb, ◌≤◌, Bool, true, ◌&&◌, ◌||◌, ◌≡◌, ◌⊎◌, arith, subst, sym, refl, inl, inr, ◌==◌, List,
  ◌∙◌, Bool-cases,
}
use lens_chat_service.GoText.{
  str_eq, str_eq_iff, str_lt, str_lt_trans, str_lt_asym, eq_of_not_str_lt,
}
use lens_chat_service.Schema.{OutboxEvent}
use lens_chat_service.Mongo.{Sort, aggregate_heads}
use lens_chat_service.Store.{Action, done, call, outbox}
use lens_chat_service.Outbox.Repo.{or_driver, pending_event, same_partition}

-- `{"event.aggregate_version": 1, "created_at": 1, "_id": 1}`
abbrev pub earlier_version : OutboxEvent → OutboxEvent → Bool
earlier_version e f =
    ltb e.event.aggregate_version f.event.aggregate_version
    || (e.event.aggregate_version == f.event.aggregate_version
        && (ltb e.created_at f.created_at || (e.created_at == f.created_at && leb e.id f.id)))

-- The same after `{"partition_key": 1}`.
abbrev pub in_channel_order : OutboxEvent → OutboxEvent → Bool
in_channel_order e f =
    str_lt e.partition_key f.partition_key
    || (str_eq e.partition_key f.partition_key && earlier_version e f)

pub channel_order_total :
    (e f : OutboxEvent) → (in_channel_order e f ≡ true) ⊎ (in_channel_order f e ≡ true)
channel_order_total e f = ground (
  arith,
  eq_of_not_str_lt e.partition_key f.partition_key,
  str_eq_iff e.partition_key f.partition_key,
  str_eq_iff f.partition_key e.partition_key,
)

earlier_version_trans :
    (d e f : OutboxEvent)
    → earlier_version d e ≡ true
    → earlier_version e f ≡ true
    → earlier_version d f ≡ true
earlier_version_trans d e f h k = ground arith

order_parts :
    (e f : OutboxEvent)
    → in_channel_order e f ≡ true
    → (str_lt e.partition_key f.partition_key ≡ true)
      ⊎ ((e.partition_key ≡ f.partition_key) × (earlier_version e f ≡ true))
order_parts e f h = elim (Bool-cases (str_lt e.partition_key f.partition_key)) [
  | inl k ↦ inl k
  | inr k ↦ inr (ground (arith, str_eq_iff e.partition_key f.partition_key), ground arith)
]

-- Within a channel the order goes by the version first.
pub order_version :
    (e f : OutboxEvent)
    → e.partition_key ≡ f.partition_key
    → in_channel_order e f ≡ true
    → e.event.aggregate_version ≤ f.event.aggregate_version
order_version e f same h = elim (order_parts e f h) [
  | inl k ↦ cc (
    subst (λ p. str_lt p f.partition_key ≡ true) same k,
    str_lt_asym f.partition_key f.partition_key
        (subst (λ p. str_lt p f.partition_key ≡ true) same k),
  )
  | inr (_, k) ↦ ground (arith, k)
]

order_before :
    (e f : OutboxEvent)
    → str_lt e.partition_key f.partition_key ≡ true
    → in_channel_order e f ≡ true
order_before e f h = rw h refl

order_within :
    (e f : OutboxEvent)
    → e.partition_key ≡ f.partition_key
    → earlier_version e f ≡ true
    → in_channel_order e f ≡ true
order_within e f h k = let same = (str_eq_iff e.partition_key f.partition_key).1 h in ground arith

pub channel_order_trans :
    (d e f : OutboxEvent)
    → in_channel_order d e ≡ true
    → in_channel_order e f ≡ true
    → in_channel_order d f ≡ true
channel_order_trans d e f h k = elim (order_parts d e h) [
  | inl a ↦ elim (order_parts e f k) [
    | inl b ↦ order_before d f (str_lt_trans d.partition_key e.partition_key f.partition_key a b)
    | inr (b, _) ↦ order_before d f (subst (λ p. str_lt d.partition_key p ≡ true) b a)
  ]
  | inr (a, x) ↦ elim (order_parts e f k) [
    | inl b ↦ order_before d f (subst (λ p. str_lt p f.partition_key ≡ true) (sym a) b)
    | inr (b, y) ↦ order_within d f (a ∙ b) (earlier_version_trans d e f x y)
  ]
]

unfoldable pub by_channel : Sort OutboxEvent
by_channel = record {
  le = in_channel_order;
  total = channel_order_total;
  trans = channel_order_trans;
}

-- `{"created_at": 1, "_id": 1}`
abbrev pub older : OutboxEvent → OutboxEvent → Bool
older e f = ltb e.created_at f.created_at || (e.created_at == f.created_at && leb e.id f.id)

pub older_total : (e f : OutboxEvent) → (older e f ≡ true) ⊎ (older f e ≡ true)
older_total e f = ground arith

pub older_trans : (d e f : OutboxEvent) → older d e ≡ true → older e f ≡ true → older d f ≡ true
older_trans d e f h k = ground arith

unfoldable pub oldest_first : Sort OutboxEvent
oldest_first = record { le = older; total = older_total; trans = older_trans }

unfoldable pub pending_channel_heads : ℤ → Action (List OutboxEvent)
pending_channel_heads limit =
    call (outbox (aggregate_heads pending_event by_channel same_partition oldest_first limit))
      λ r. done (or_driver r)
