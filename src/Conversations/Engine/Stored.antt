-- ===== src/Conversations/Engine/Stored.antt =====
-- src/conversations/conversation-engine.ts: a stored conversation in canonical form.
use chatgpt_web_gateway.Base.{
  Bool, true, false, not, ◌||◌, Option, none, some, List, [], ◌∷◌, ◌++◌, map, ◌==◌, if◌then◌else◌,
  length, any,
}
use chatgpt_web_gateway.Base.Results.{Result, returned, thrown, ◌>>=◌, ◌>>◌}
use chatgpt_web_gateway.Text.{Text, text}
use chatgpt_web_gateway.Text.Maps.{TextMap, get, set}
use chatgpt_web_gateway.Context.{
  AttachmentKind, CanonicalContentPart, attachment_part, CanonicalMessage, text_message,
  multimodal_message, tool_call_message, tool_result_message, CanonicalStoredConversation, Role,
  user_role, assistant_role, tool_role,
}
use chatgpt_web_gateway.Context.Canonicalize.{canonicalize_instructions}
use chatgpt_web_gateway.Conversations.Aggregate.{
  NormalizedContentPart, text_content, attachment_content, AttachmentSourceRecord, MessageRecord,
  AttachmentRecord, ConversationAggregate, calls_of, attachments_of, canonical_call,
}
use chatgpt_web_gateway.Conversations.RequestMessages.{
  text_of, is_attachment, flush_text, is_tool_role, speaker_of,
}

-- src/attachments/resolver.ts: of a file, its id and its hash
pub record ResolvedAttachment : Type 0 where
  pub local_attachment_id : Text
  pub kind : AttachmentKind
  pub file_id : Text
  pub sha256 : Text
  pub filename : Text
  pub mime_type : Option Text
  pub source : AttachmentSourceRecord

-- The errors of a stored conversation, by their messages.
pub data StoredError : Type 0 where
  count_mismatch result_invalid call_message_invalid reference_missing metadata_missing :
      StoredError

-- src/attachments/resolver.ts: storedAttachmentReference
unfoldable pub stored_attachment_reference : Text → Text
stored_attachment_reference id = text "stored:" ++ id

-- if (condition) throw new Error(…)
unfoldable pub stored_throw_if : Bool → StoredError → Result StoredError (Unit {0})
stored_throw_if true error = thrown error
stored_throw_if false error = returned tt

-- The entries of the map, for two lists of one length
unfoldable pub zip_retained :
    TextMap ResolvedAttachment
    → List AttachmentRecord
    → List ResolvedAttachment
    → TextMap ResolvedAttachment
unfolding set
zip_retained retained [] resolved = retained
zip_retained retained (a ∷ more) [] = retained
zip_retained retained (a ∷ more) (r ∷ rs) = zip_retained (set a.id r retained) more rs

unfoldable pub retained_by_attachment_record :
    ConversationAggregate
    → List ResolvedAttachment
    → Result StoredError (TextMap ResolvedAttachment)
unfolding zip_retained stored_throw_if
retained_by_attachment_record aggregate resolved =
    stored_throw_if (not (length aggregate.attachments == length resolved)) count_mismatch
    >> returned (zip_retained [] aggregate.attachments resolved)

-- new Map(records.map((attachment) => [attachment.localAttachmentId, attachment]))
unfoldable pub by_local_id :
    TextMap AttachmentRecord → List AttachmentRecord → TextMap AttachmentRecord
unfolding set
by_local_id records [] = records
by_local_id records (a ∷ more) = by_local_id (set a.local_attachment_id a records) more

unfoldable pub found_or : {A : Type 0} → Option A → StoredError → Result StoredError A
found_or none error = thrown error
found_or (some a) error = returned a

unfoldable pub stored_part : AttachmentRecord → ResolvedAttachment → CanonicalContentPart
unfolding stored_attachment_reference
stored_part attachment resolved =
    attachment_part (stored_attachment_reference attachment.id) attachment.kind resolved.sha256
      resolved.filename resolved.mime_type

module _ (records : TextMap AttachmentRecord) (retained : TextMap ResolvedAttachment) where
  -- The loop over the parts, with the texts that are not flushed
  unfoldable pub stored_content_from :
      (pending_text : List Text)
      → List NormalizedContentPart
      → Result StoredError (List CanonicalContentPart)
  unfolding flush_text found_or get stored_part
  stored_content_from pending_text [] = returned (flush_text pending_text)
  stored_content_from pending_text (text_content t ∷ parts) =
      stored_content_from (pending_text ++ (t ∷ [])) parts
  stored_content_from pending_text (attachment_content id ∷ parts) =
      found_or (get records id) reference_missing >>= λ attachment.
      found_or (get retained attachment.id) metadata_missing >>= λ resolved.
      stored_content_from [] parts >>= λ content.
      returned (flush_text pending_text ++ (stored_part attachment resolved ∷ content))

unfoldable pub no_id : Option Text → Bool
no_id none = true
no_id (some []) = true
no_id (some (c ∷ cs)) = false

unfoldable pub id_of : Option Text → Text
id_of none = []
id_of (some id) = id

unfoldable pub is_user_role : Role → Bool
is_user_role user_role = true
is_user_role assistant_role = false
is_user_role tool_role = false

module _ (aggregate : ConversationAggregate) (retained : TextMap ResolvedAttachment) where
  unfoldable pub canonical_stored_message : MessageRecord → Result StoredError CanonicalMessage
  unfolding stored_throw_if no_id id_of is_attachment text_of calls_of canonical_call attachments_of
      by_local_id stored_content_from is_tool_role is_user_role speaker_of
  canonical_stored_message stored =
      let not_text = any is_attachment stored.content in
      let calls = calls_of stored.id aggregate.tool_calls in
      let result : Result StoredError CanonicalMessage =
        stored_throw_if (no_id stored.tool_call_id || not_text) result_invalid
        >> returned (tool_result_message (id_of stored.tool_call_id) (text_of stored.content)) in
      let called : Result StoredError CanonicalMessage =
        stored_throw_if (is_user_role stored.role || not_text) call_message_invalid
        >> returned (tool_call_message (text_of stored.content) (map canonical_call calls)) in
      let parts : Result StoredError CanonicalMessage =
        stored_content_from (by_local_id [] (attachments_of stored.id aggregate.attachments))
          retained [] stored.content
        >>= λ content. returned (multimodal_message (speaker_of stored.role) content) in
      if is_tool_role stored.role
      then result
      else if not (length calls == 0)
      then called
      else if not not_text
      then returned (text_message (speaker_of stored.role) (text_of stored.content))
      else parts

  unfoldable pub canonical_stored_messages :
      List MessageRecord → Result StoredError (List CanonicalMessage)
  unfolding canonical_stored_message
  canonical_stored_messages [] = returned []
  canonical_stored_messages (r ∷ rs) =
      canonical_stored_message r >>= λ m. canonical_stored_messages rs >>= λ ms. returned (m ∷ ms)

unfoldable pub canonical_stored_conversation :
    ConversationAggregate → List ResolvedAttachment → Result StoredError CanonicalStoredConversation
unfolding retained_by_attachment_record canonical_stored_messages canonicalize_instructions
canonical_stored_conversation aggregate resolved =
    retained_by_attachment_record aggregate resolved >>= λ retained.
    canonical_stored_messages aggregate retained aggregate.messages >>= λ messages.
    returned (record {
      instructions = canonicalize_instructions aggregate.conversation.instructions;
      messages = messages;
      tool_fingerprint = aggregate.conversation.tool_fingerprint;
      conversation_url = aggregate.conversation.chatgpt_conversation_url;
      status = aggregate.conversation.status;
      synced_message_count = aggregate.conversation.synced_message_count;
    })
