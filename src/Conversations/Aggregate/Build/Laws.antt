-- ===== src/Conversations/Aggregate/Build/Laws.antt =====
-- The shape of what src/conversations/aggregate-builder.ts builds.
use chatgpt_web_gateway.Base.{
  ℕ, zero, suc, ◌+◌, ◌≡◌, refl, sym, ap, ◌∙◌, subst, Bool, true, Option, none, some, List, [], ◌∷◌,
  ◌++◌, arith, inl, inr, Bool-cases, length, any, All, All-append, All-mono, length-append,
}
use chatgpt_web_gateway.Base.Results.{Result, returned, bind-eq-returned}
use chatgpt_web_gateway.Text.{Text, text_eq}
use chatgpt_web_gateway.Text.Laws.{text_eq_iff}
use chatgpt_web_gateway.Context.{
  clean, CanonicalContentPart, text_part, attachment_part, CanonicalToolCall, CanonicalMessage,
  text_message, multimodal_message, tool_call_message, tool_result_message,
}
use chatgpt_web_gateway.Context.Fingerprint.{Digest}
use chatgpt_web_gateway.Conversations.Aggregate.{
  PersistenceAttachmentBinding, MessageRecord, ToolCallRecord, AttachmentRecord,
  ConversationAggregate, calls_of, attachments_of,
}
use chatgpt_web_gateway.Conversations.Aggregate.Build.{
  MissingBinding, Created, Built, AggregateInput, create_calls, create_tool_calls,
  attachments_for_parts, create_attachments, create_message, create_rest, build_from, build_records,
  no_records, reusable_prefix, final_canonical_messages, build_final_conversation_aggregate,
  content_for_canonical_message, binding_of,
}

-- The messages are of one conversation and numbered from n on.
abbrev pub IsNumbered : (conversation_id : Text) (n : ℕ) → List MessageRecord → Type 0
IsNumbered cid n [] = Unit
IsNumbered cid n (m ∷ ms) = (m.conversation_id ≡ cid) × (m.sequence ≡ n) × IsNumbered cid (n + 1) ms

-- One of the messages has the id.
abbrev pub has_message : List MessageRecord → Text → Bool
has_message ms id = any (λ m. text_eq m.id id) ms

-- Each tool call and each attachment is of one of the messages.
pub record IsOwned (ms : List MessageRecord) (calls : List ToolCallRecord)
    (attachments : List AttachmentRecord) : Type 0 where
  pub calls_owned : All (λ c. has_message ms c.message_id ≡ true) calls
  pub attachments_owned : All (λ a. has_message ms a.message_id ≡ true) attachments

IsOwned-cons :
    (m : MessageRecord) (ms : List MessageRecord) (calls more_calls : List ToolCallRecord)
    (items more_items : List AttachmentRecord)
    → All (λ c. c.message_id ≡ m.id) calls
    → All (λ a. a.message_id ≡ m.id) items
    → IsOwned ms more_calls more_items
    → IsOwned (m ∷ ms) (calls ++ more_calls) (items ++ more_items)
IsOwned-cons m ms calls more_calls items more_items hc ha o = record {
  calls_owned =
      All-append _ calls more_calls
        (All-mono _ _ calls (λ c e. ground (arith, (text_eq_iff m.id c.message_id).1 (sym e))) hc)
        (All-mono _ _ more_calls (λ c e. ground arith) o.calls_owned);
  attachments_owned =
      All-append _ items more_items
        (All-mono _ _ items (λ c e. ground (arith, (text_eq_iff m.id c.message_id).1 (sym e))) ha)
        (All-mono _ _ more_items (λ c e. ground arith) o.attachments_owned);
}

calls_of_message :
    (id : Text) (calls : List ToolCallRecord) → All (λ c. c.message_id ≡ id) (calls_of id calls)
unfolding calls_of
calls_of_message id [] = tt
calls_of_message id (c ∷ cs) = elim (Bool-cases (text_eq c.message_id id)) [
  | inl e ↦ rw e ((text_eq_iff c.message_id id).0 e, calls_of_message id cs)
  | inr n ↦ rw n (calls_of_message id cs)
]

attachments_of_message :
    (id : Text) (items : List AttachmentRecord)
    → All (λ a. a.message_id ≡ id) (attachments_of id items)
unfolding attachments_of
attachments_of_message id [] = tt
attachments_of_message id (c ∷ cs) = elim (Bool-cases (text_eq c.message_id id)) [
  | inl e ↦ rw e ((text_eq_iff c.message_id id).0 e, attachments_of_message id cs)
  | inr n ↦ rw n (attachments_of_message id cs)
]

pub returned_same :
    {A : Type 0} (x y : A) → ◌≡◌ {A = Result MissingBinding A} (returned x) (returned y) → x ≡ y
returned_same x y h = cc

module _ (uuid : ℕ → Text) (cid : Text) (at : ℕ) where
  create_calls_message :
      (id : Text) (n : ℕ) (calls : List CanonicalToolCall)
      → All (λ c. c.message_id ≡ id) (create_calls uuid cid at id n calls)
  unfolding create_calls
  create_calls_message id n [] = tt
  create_calls_message id n (c ∷ cs) = (refl, create_calls_message id (n + 1) cs)

  create_tool_calls_message :
      (id : Text) (n : ℕ) (m : CanonicalMessage)
      → All (λ c. c.message_id ≡ id) (create_tool_calls uuid cid at id n m)
  unfolding create_tool_calls
  create_tool_calls_message id n (tool_call_message t calls) = create_calls_message id n calls
  create_tool_calls_message id n (tool_result_message i t) = tt
  create_tool_calls_message id n (text_message s t) = tt
  create_tool_calls_message id n (multimodal_message s c) = tt

  parts_message :
      (bindings : List (Text × PersistenceAttachmentBinding)) (id : Text) (n : ℕ)
      (parts : List CanonicalContentPart) (items : List AttachmentRecord)
      → attachments_for_parts uuid cid at bindings id n parts ≡ returned items
      → All (λ a. a.message_id ≡ id) items
  unfolding attachments_for_parts
  parts_message bindings id n [] items h = subst (All _) (returned_same [] items h) tt
  parts_message bindings id n (text_part t ∷ parts) items h =
      parts_message bindings id n parts items h
  parts_message bindings id n (attachment_part r k s f mt ∷ parts) items h =
      let (b, hb, h1) = bind-eq-returned (binding_of bindings r) _ items h in
      let (rest, hr, h2) =
        bind-eq-returned (attachments_for_parts uuid cid at bindings id (n + 1) parts) _ items h1 in
      subst (All (λ a. a.message_id ≡ id)) (returned_same _ items h2)
        (refl, parts_message bindings id (n + 1) parts rest hr)

  create_attachments_message :
      (bindings : List (Text × PersistenceAttachmentBinding)) (id : Text) (n : ℕ)
      (m : CanonicalMessage) (items : List AttachmentRecord)
      → create_attachments uuid cid at bindings id n m ≡ returned items
      → All (λ a. a.message_id ≡ id) items
  unfolding create_attachments
  create_attachments_message bindings id n (multimodal_message s c) items h =
      parts_message bindings id n c items h
  create_attachments_message bindings id n (tool_call_message t c) items h =
      subst (All _) (returned_same [] items h) tt
  create_attachments_message bindings id n (tool_result_message i t) items h =
      subst (All _) (returned_same [] items h) tt
  create_attachments_message bindings id n (text_message s t) items h =
      subst (All _) (returned_same [] items h) tt

  -- What createMessage returns.
  record IsCreated (sequence : ℕ) (c : Created) : Type 0 where
    of_conversation : c.message.conversation_id ≡ cid
    at_sequence : c.message.sequence ≡ sequence
    own_calls : All (λ k. k.message_id ≡ c.message.id) c.tool_calls
    own_attachments : All (λ k. k.message_id ≡ c.message.id) c.attachments

  create_message-IsCreated :
      (bindings : List (Text × PersistenceAttachmentBinding)) (n sequence : ℕ)
      (m : CanonicalMessage) (c : Created)
      → create_message uuid cid at bindings n sequence m ≡ returned c
      → IsCreated sequence c
  unfolding create_message
  create_message-IsCreated bindings n sequence m c h =
      let (content, hc, h1) = bind-eq-returned (content_for_canonical_message bindings m) _ c h in
      let (items, ha, h2) =
        bind-eq-returned (create_attachments uuid cid at bindings (uuid n) (n + 1) m) _ c h1 in
      subst (IsCreated sequence) (returned_same _ c h2) (record {
        of_conversation = refl;
        at_sequence = refl;
        own_calls = create_tool_calls_message (uuid n) (n + 1) m;
        own_attachments = create_attachments_message bindings (uuid n) (n + 1) m items ha;
      })

-- What holds of the records of messages that are numbered from sequence on.
record IsBuilt (cid : Text) (sequence : ℕ) (ms : List CanonicalMessage) (b : Built) : Type 0 where
  as_many : length b.messages ≡ length ms
  numbered : IsNumbered cid sequence b.messages
  owned : IsOwned b.messages b.tool_calls b.attachments

no_records-IsBuilt : (cid : Text) (n : ℕ) → IsBuilt cid n [] no_records
unfolding no_records
no_records-IsBuilt cid n = record {
  as_many = refl;
  numbered = tt;
  owned = record { calls_owned = tt; attachments_owned = tt };
}

module _ (uuid : ℕ → Text) (cid : Text) (at : ℕ)
    (bindings : List (Text × PersistenceAttachmentBinding)) where
  create_rest-IsBuilt :
      (n sequence : ℕ) (ms : List CanonicalMessage) (b : Built)
      → create_rest uuid cid at bindings n sequence ms ≡ returned b
      → IsBuilt cid sequence ms b
  unfolding create_rest
  create_rest-IsBuilt n sequence [] b h =
      subst (IsBuilt cid sequence []) (returned_same _ b h) (no_records-IsBuilt cid sequence)
  create_rest-IsBuilt n sequence (m ∷ ms) b h =
      let (c, hc, h1) = bind-eq-returned (create_message uuid cid at bindings n sequence m) _ b h in
      let (rest, hr, h2) =
        bind-eq-returned (create_rest uuid cid at bindings c.drawn (sequence + 1) ms) _ b h1 in
      let made = create_message-IsCreated uuid cid at bindings n sequence m c hc in
      let later = create_rest-IsBuilt c.drawn (sequence + 1) ms rest hr in
      subst (IsBuilt cid sequence (m ∷ ms)) (returned_same _ b h2) (record {
        as_many = ap suc later.as_many;
        numbered = (made.of_conversation, made.at_sequence, later.numbered);
        owned =
            IsOwned-cons c.message rest.messages c.tool_calls rest.tool_calls c.attachments
              rest.attachments made.own_calls made.own_attachments later.owned;
      })

  build_from-IsBuilt :
      (stored : ConversationAggregate) (k sequence : ℕ) (es : List MessageRecord)
      (ms : List CanonicalMessage) (b : Built)
      → build_from uuid cid at bindings stored k sequence es ms ≡ returned b
      → IsBuilt cid sequence ms b
  unfolding build_from
  build_from-IsBuilt stored zero sequence es ms b h = create_rest-IsBuilt 0 sequence ms b h
  build_from-IsBuilt stored (suc k) sequence es [] b h =
      subst (IsBuilt cid sequence []) (returned_same _ b h) (no_records-IsBuilt cid sequence)
  build_from-IsBuilt stored (suc k) sequence [] (m ∷ ms) b h =
      create_rest-IsBuilt 0 sequence (m ∷ ms) b h
  build_from-IsBuilt stored (suc k) sequence (e ∷ es) (m ∷ ms) b h =
      let (rest, hr, h2) =
        bind-eq-returned (build_from uuid cid at bindings stored k (sequence + 1) es ms) _ b h in
      let later = build_from-IsBuilt stored k (sequence + 1) es ms rest hr in
      let kept = record e { conversation_id = cid; sequence = sequence } in
      subst (IsBuilt cid sequence (m ∷ ms)) (returned_same _ b h2) (record {
        as_many = ap suc later.as_many;
        numbered = (refl, refl, later.numbered);
        owned =
            IsOwned-cons kept rest.messages (calls_of e.id stored.tool_calls) rest.tool_calls
              (attachments_of e.id stored.attachments) rest.attachments
              (calls_of_message e.id stored.tool_calls)
              (attachments_of_message e.id stored.attachments) later.owned;
      })

  build_records-IsBuilt :
      (k : ℕ) (stored : Option ConversationAggregate) (ms : List CanonicalMessage) (b : Built)
      → build_records uuid cid at bindings k stored ms ≡ returned b
      → IsBuilt cid 0 ms b
  unfolding build_records
  build_records-IsBuilt k none ms b h = create_rest-IsBuilt 0 0 ms b h
  build_records-IsBuilt k (some stored) ms b h =
      build_from-IsBuilt stored k 0 stored.messages ms b h

-- A conversation that is saved after a turn holds one message for each canonical message of the
-- request and one for the answer, of that conversation and numbered from 0; each of its tool calls
-- and attachments is of one of these messages; and the checkpoint is clean and counts them all.
pub build-IsSynced :
    (d : Digest) (uuid : ℕ → Text) (input : AggregateInput) (a : ConversationAggregate)
    → build_final_conversation_aggregate d uuid input ≡ returned a
    → (length a.messages ≡ length input.authoritative_messages + 1)
      × IsNumbered input.conversation.id 0 a.messages
      × IsOwned a.messages a.tool_calls a.attachments
      × (a.conversation.status ≡ clean)
      × (a.conversation.synced_message_count ≡ length a.messages)
unfolding build_final_conversation_aggregate final_canonical_messages
build-IsSynced d uuid input a h =
    let final = final_canonical_messages input in
    let (b, hb, h1) =
      bind-eq-returned
        (build_records uuid input.conversation.id input.completed_at input.attachment_bindings
          (reusable_prefix d input) input.stored final)
        _ a h in
    let good =
      build_records-IsBuilt uuid input.conversation.id input.completed_at input.attachment_bindings
        (reusable_prefix d input) input.stored final b hb in
    subst
      (λ z.
        (length z.messages ≡ length input.authoritative_messages + 1)
        × IsNumbered input.conversation.id 0 z.messages
        × IsOwned z.messages z.tool_calls z.attachments
        × (z.conversation.status ≡ clean)
        × (z.conversation.synced_message_count ≡ length z.messages))
      (returned_same _ a h1)
      (
        good.as_many ∙ length-append input.authoritative_messages _,
        good.numbered,
        good.owned,
        refl,
        refl,
      )
