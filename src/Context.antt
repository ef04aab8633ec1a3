-- ===== src/Context.antt =====
-- src/context/types.ts: the canonical form of a request and of a stored conversation, and the plan
-- that brings the web conversation up to date.
pub mod Fingerprint
pub mod Multimodal
pub mod Planner
pub mod Uploads
pub mod Sync
pub mod Spelled
pub mod Canonicalize
use chatgpt_web_gateway.Base.{ℕ, Option, List}
use chatgpt_web_gateway.Text.{Text}

pub data ConversationRequestMode : Type 0 where
  incremental full : ConversationRequestMode

pub data AttachmentKind : Type 0 where
  image file : AttachmentKind

-- The role of a message with text or content parts.
pub data Speaker : Type 0 where
  user assistant : Speaker

pub data CanonicalContentPart : Type 0 where
  text_part : Text → CanonicalContentPart
  attachment_part :
      (reference : Text) (kind : AttachmentKind) (sha256 filename : Text) (mime_type : Option Text)
      → CanonicalContentPart

pub record CanonicalToolCall : Type 0 where
  pub external_call_id : Text
  pub name : Text
  pub arguments : Text

pub data CanonicalMessage : Type 0 where
  text_message : Speaker → Text → CanonicalMessage
  multimodal_message : Speaker → List CanonicalContentPart → CanonicalMessage
  tool_call_message : Text → List CanonicalToolCall → CanonicalMessage
  tool_result_message : (tool_call_id text : Text) → CanonicalMessage

pub record CanonicalInstructions : Type 0 where
  pub system : List Text
  pub developer : List Text

pub record CanonicalConversationRequest : Type 0 where
  pub instructions : CanonicalInstructions
  pub messages : List CanonicalMessage
  pub mode : ConversationRequestMode
  pub tool_fingerprint : Option Text

pub data SyncStatus : Type 0 where
  clean in_flight : SyncStatus

pub record CanonicalStoredConversation : Type 0 where
  pub instructions : CanonicalInstructions
  pub messages : List CanonicalMessage
  pub tool_fingerprint : Option Text
  pub conversation_url : Option Text
  pub status : SyncStatus
  pub synced_message_count : ℕ

pub data RebuildReason : Type 0 where
  checkpoint_uncertain checkpoint_mismatch instructions_changed tools_changed : RebuildReason
  history_diverged multiple_unsynced_turns conversation_url_missing : RebuildReason

pub data ContextSyncPlan : Type 0 where
  fresh_plan : (history pending : List CanonicalMessage) → ContextSyncPlan
  append_plan : (pending : List CanonicalMessage) → ContextSyncPlan
  restore_plan : (pending : List CanonicalMessage) → ContextSyncPlan
  rebuild_plan : RebuildReason → (history pending : List CanonicalMessage) → ContextSyncPlan

pub data Role : Type 0 where
  user_role assistant_role tool_role : Role

-- message.role
abbrev pub role_of : CanonicalMessage → Role
role_of (text_message user t) = user_role
role_of (text_message assistant t) = assistant_role
role_of (multimodal_message user ps) = user_role
role_of (multimodal_message assistant ps) = assistant_role
role_of (tool_call_message t calls) = assistant_role
role_of (tool_result_message i t) = tool_role
