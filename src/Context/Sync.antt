-- ===== src/Context/Sync.antt =====
-- src/context/sync.ts: the planner of the earlier conversation executor.
pub mod Laws
pub mod Tests
use chatgpt_web_gateway.Base.{
  Bool, true, false, not, ◌&&◌, ◌||◌, Option, none, some, List, [], ◌∷◌, ◌==◌, ltb, if◌then◌else◌,
  length, drop,
}
use chatgpt_web_gateway.Text.{Text, text_eq}

pub data InstructionRole : Type 0 where
  system_role developer_role : InstructionRole

pub record ContextInstruction : Type 0 where
  pub role : InstructionRole
  pub content : Text

pub data ContextContentPart : Type 0 where
  text_part attachment_part : Text → ContextContentPart

pub record ContextToolCall : Type 0 where
  pub id : Text
  pub name : Text
  pub arguments : Text

pub data ContextRole : Type 0 where
  user_role assistant_role tool_role : ContextRole

pub record ContextMessage : Type 0 where
  pub role : ContextRole
  pub content : List ContextContentPart
  pub tool_call_id : Option Text
  pub tool_calls : Option (List ContextToolCall)

pub data ContextSyncMode : Type 0 where
  fresh_mode append_mode restore_mode rebuild_mode : ContextSyncMode

pub record PersistedContextSnapshot : Type 0 where
  pub instructions : List ContextInstruction
  pub messages : List ContextMessage
  pub conversation_url : Option Text

pub record SyncPlan : Type 0 where
  pub mode : ContextSyncMode
  pub append_messages : List ContextMessage

pub record PlanContextSyncOptions : Type 0 where
  pub instructions : List ContextInstruction
  pub messages : List ContextMessage
  pub persisted : Option PersistedContextSnapshot
  pub has_warm_page : Bool

pub content_part_equal : ContextContentPart → ContextContentPart → Bool
content_part_equal (text_part s) (text_part t) = text_eq s t
content_part_equal (attachment_part s) (attachment_part t) = text_eq s t
content_part_equal (text_part s) (attachment_part t) = false
content_part_equal (attachment_part s) (text_part t) = false

pub tool_call_equal : ContextToolCall → ContextToolCall → Bool
tool_call_equal l r =
    text_eq l.id r.id && (text_eq l.name r.name && text_eq l.arguments r.arguments)

-- left.every((x, index) => equal(x, right[index]))
pub every_equal : {A : Type 0} → (A → A → Bool) → List A → List A → Bool
every_equal equal [] right = true
every_equal equal (x ∷ xs) [] = false
every_equal equal (x ∷ xs) (y ∷ ys) = equal x y && every_equal equal xs ys

pub same_role : ContextRole → ContextRole → Bool
same_role user_role user_role = true
same_role assistant_role assistant_role = true
same_role tool_role tool_role = true
same_role user_role assistant_role = false
same_role user_role tool_role = false
same_role assistant_role user_role = false
same_role assistant_role tool_role = false
same_role tool_role user_role = false
same_role tool_role assistant_role = false

pub same_id : Option Text → Option Text → Bool
same_id none none = true
same_id none (some t) = false
same_id (some s) none = false
same_id (some s) (some t) = text_eq s t

-- toolCalls ?? []
pub calls_of : Option (List ContextToolCall) → List ContextToolCall
calls_of none = []
calls_of (some calls) = calls

pub all_equal : {A : Type 0} → (A → A → Bool) → List A → List A → Bool
unfolding every_equal
all_equal equal left right = length left == length right && every_equal equal left right

pub message_equal : ContextMessage → ContextMessage → Bool
unfolding same_role same_id all_equal content_part_equal tool_call_equal calls_of
message_equal l r =
    same_role l.role r.role
    && (same_id l.tool_call_id r.tool_call_id
        && (all_equal content_part_equal l.content r.content
            && all_equal tool_call_equal (calls_of l.tool_calls) (calls_of r.tool_calls)))

pub same_instruction_role : InstructionRole → InstructionRole → Bool
same_instruction_role system_role system_role = true
same_instruction_role developer_role developer_role = true
same_instruction_role system_role developer_role = false
same_instruction_role developer_role system_role = false

pub instruction_equal : ContextInstruction → ContextInstruction → Bool
unfolding same_instruction_role
instruction_equal l r = same_instruction_role l.role r.role && text_eq l.content r.content

pub instructions_equal : List ContextInstruction → List ContextInstruction → Bool
unfolding all_equal instruction_equal
instructions_equal left right = all_equal instruction_equal left right

pub has_persisted_prefix : (current persisted : List ContextMessage) → Bool
unfolding every_equal message_equal
has_persisted_prefix current persisted =
    if ltb (length current) (length persisted)
    then false
    else every_equal message_equal persisted current

abbrev rebuilt : SyncPlan
rebuilt = record { mode = rebuild_mode; append_messages = [] }

-- The end of planContextSync; an empty URL counts as none.
pub plan_with_url : (has_warm_page : Bool) → Option Text → List ContextMessage → SyncPlan
plan_with_url warm none messages = rebuilt
plan_with_url warm (some []) messages = rebuilt
plan_with_url true (some (c ∷ cs)) messages = record {
  mode = append_mode;
  append_messages = messages;
}
plan_with_url false (some (c ∷ cs)) messages = record {
  mode = restore_mode;
  append_messages = messages;
}

-- The new messages must be one message of the user.
pub plan_new_messages : (has_warm_page : Bool) → Option Text → List ContextMessage → SyncPlan
unfolding plan_with_url same_role
plan_new_messages warm url [] = rebuilt
plan_new_messages warm url (m ∷ n ∷ more) = rebuilt
plan_new_messages warm url (m ∷ []) =
    if same_role m.role user_role then plan_with_url warm url (m ∷ []) else rebuilt

pub plan_persisted : PlanContextSyncOptions → PersistedContextSnapshot → SyncPlan
unfolding instructions_equal has_persisted_prefix plan_new_messages
plan_persisted o p =
    if not (instructions_equal o.instructions p.instructions)
    then rebuilt
    else if not (has_persisted_prefix o.messages p.messages)
    then rebuilt
    else plan_new_messages o.has_warm_page p.conversation_url (drop (length p.messages) o.messages)

pub plan_from : PlanContextSyncOptions → Option PersistedContextSnapshot → SyncPlan
unfolding plan_persisted
plan_from o none = record { mode = fresh_mode; append_messages = [] }
plan_from o (some p) = plan_persisted o p

pub plan_context_sync : PlanContextSyncOptions → SyncPlan
unfolding plan_from
plan_context_sync o = plan_from o o.persisted

-- Names what a plan computes through, for tests.
unfoldable pub sync_runs : Unit {0}
unfolding content_part_equal tool_call_equal every_equal same_role same_id calls_of all_equal
    message_equal same_instruction_role instruction_equal instructions_equal has_persisted_prefix
    plan_with_url plan_new_messages plan_persisted plan_from plan_context_sync
sync_runs = tt
