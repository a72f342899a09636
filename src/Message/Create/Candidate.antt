-- ===== src/Message/Create/Candidate.antt =====
-- The message that a round of the loop inserts, and why its insertion cannot clash.
use lens_chat_service.Prelude.{
  ◌≡◌, refl, ap, subst, ◌⊎◌, inl, inr, true, Bool-cases, ok, arith, ◌∙◌, IsIn, if◌then◌else◌, ℤ,
  pos, ◌≤ℤ◌, ◌<ℤ◌, ltb_ℤ, eqb_ℤ_iff, inc64, inc64_parts, max_int64,
}
use lens_chat_service.GoText.{Bytes, str_eq_iff}
use lens_chat_service.Schema.{ObjectId, Message, Channel}
use lens_chat_service.Mongo.{Found, NoneMatch}
use lens_chat_service.Store.{View, same_request, message_clash}
use lens_chat_service.Message.Events.{Fresh}
use lens_chat_service.Message.Queries.{in_channel, newest_first}
use lens_chat_service.Message.Create.{accepts}
use lens_chat_service.Message.Create.Spec.{IsReady, stamped}

module _ (hex : ObjectId → Bytes) (fresh : Fresh) (msg : Message) (v : View)
    (ready : IsReady fresh msg v) where
  -- The sequence is that of a message of the channel, or of the channel's summary.
  abbrev pub IsReached : ℤ → Type 0
  IsReached s =
      ((x : Message) × IsIn x v.messages × (in_channel msg.channel_id x ≡ true) × (s ≡ x.sequence))
      ⊎ ((c : Channel) → IsIn c v.channels → accepts msg c ≡ true → s ≡ c.last_message_seq)

  -- A sequence above all that the channel has, and still in range for one more.
  pub record IsTop (s : ℤ) : Type 0 where
    pub top :
        (x : Message) → IsIn x v.messages → in_channel msg.channel_id x ≡ true → x.sequence ≤ℤ s
    pub not_negative : pos 0 ≤ℤ s
    pub room : s <ℤ max_int64
    pub over : (c : Channel) → IsIn c v.channels → accepts msg c ≡ true → c.last_message_seq ≤ℤ s
    pub reached : IsReached s

  -- `m` is the candidate that was inserted.
  pub record IsCandidate (m : Message) : Type 0 where
    pub shape : m ≡ stamped fresh msg m.sequence
    pub newest :
        (x : Message)
        → IsIn x v.messages
        → in_channel msg.channel_id x ≡ true
        → x.sequence <ℤ m.sequence
    pub over :
        (c : Channel) → IsIn c v.channels → accepts msg c ≡ true → c.last_message_seq <ℤ m.sequence
    pub positive : pos 0 <ℤ m.sequence
    pub before : ℤ
    pub reached : IsReached before
    pub next : m.sequence ≡ inc64 before

  pub accepts-shape : (m : Message) → m ≡ stamped fresh msg m.sequence → accepts m ≡ accepts msg
  unfolding accepts
  accepts-shape m e = ap accepts e

  pub candidate : (s : ℤ) → IsTop s → IsCandidate (stamped fresh msg (inc64 s))
  candidate s h = record {
    shape = refl;
    newest = λ x i c. omega (arith, h.top x i c, inc64_parts s h.room);
    over = λ c i a. omega (arith, h.over c i a, inc64_parts s h.room);
    positive = omega (arith, h.not_negative, inc64_parts s h.room);
    before = s;
    reached = h.reached;
    next = refl;
  }

  clash_cases :
      (x m : Message)
      → message_clash x m ≡ true
      → (x.id ≡ m.id)
        ⊎ (((in_channel m.channel_id x ≡ true) × (x.sequence ≡ m.sequence))
            ⊎ (same_request m x ≡ true))
  unfolding message_clash in_channel
  clash_cases x m h = ground (
    arith,
    eqb_ℤ_iff x.sequence m.sequence,
    str_eq_iff x.sender_id m.sender_id,
    str_eq_iff m.sender_id x.sender_id,
    str_eq_iff x.client_message_id m.client_message_id,
    str_eq_iff m.client_message_id x.client_message_id,
  )

  request_of_shape :
      (m x : Message)
      → m ≡ stamped fresh msg m.sequence
      → same_request m x ≡ true
      → same_request msg x ≡ true
  unfolding same_request
  request_of_shape m x e h = subst (λ (n : Message). same_request n x ≡ true) e h

  pub no_clash : (m x : Message) → IsCandidate m → IsIn x v.messages → message_clash x m ≡ true → ⊥
  no_clash m x cand i h = elim (clash_cases x m h) [
    | inl e ↦ ready.new_id x i (e ∙ ap (λ (n : Message). n.id) cand.shape)
    | inr (inl (c, e)) ↦
        let here =
          subst (λ k. in_channel k x ≡ true) (ap (λ (n : Message). n.channel_id) cand.shape) c in
        let lt = subst (λ q. q <ℤ m.sequence) e (cand.newest x i here) in omega arith
    | inr (inr e) ↦ cc (ready.unseen x i, request_of_shape m x cand.shape e)
  ]

  -- `IsTop` of the sequence that the loop takes.
  pub IsTop-of_latest :
      (ch : Channel) (latest : Message)
      → IsIn ch v.channels
      → accepts msg ch ≡ true
      → Found (in_channel msg.channel_id) newest_first v.messages (ok latest)
      → ((c : Channel) → IsIn c v.channels → accepts msg c ≡ true → c ≡ ch)
      → IsTop (
          if ltb_ℤ ch.last_message_seq latest.sequence
          then latest.sequence
          else ch.last_message_seq)
  unfolding newest_first
  IsTop-of_latest ch latest i a (l, here, max) only = record {
    top = λ x j c. ground (arith, max x j c);
    not_negative = ground (arith, ready.summaries ch i);
    room = ground (arith, ready.summaries_below ch i, ready.below latest l);
    over = λ c j b. rw (only c j b) (ground arith);
    reached = elim (Bool-cases (ltb_ℤ ch.last_message_seq latest.sequence)) [
      | inl h ↦ rw h (inl (latest, l, here, refl))
      | inr h ↦ rw h (inr (λ c j b. rw (only c j b) refl))
    ];
  }

  pub IsTop-of_summary :
      (ch : Channel)
      → IsIn ch v.channels
      → accepts msg ch ≡ true
      → NoneMatch (in_channel msg.channel_id) v.messages
      → ((c : Channel) → IsIn c v.channels → accepts msg c ≡ true → c ≡ ch)
      → IsTop ch.last_message_seq
  IsTop-of_summary ch i a empty only = record {
    top = λ x j c. cc (empty x j);
    not_negative = ready.summaries ch i;
    room = ready.summaries_below ch i;
    over = λ c j b. rw (only c j b) (omega arith);
    reached = inr (λ c j b. rw (only c j b) refl);
  }
