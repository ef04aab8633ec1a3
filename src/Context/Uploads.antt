-- ===== src/Context/Uploads.antt =====
-- src/context/multimodal.ts: which attachments a plan uploads, and what a prompt writes of a message.
pub mod Laws
pub mod Tests
use chatgpt_web_gateway.Base.{
  ◌≡◌, refl, sym, ap, ◌∙◌, subst, ◌↔◌, Bool, true, false, not, ◌&&◌, ◌||◌, Option, none, some, List,
  [], ◌∷◌, ◌++◌, arith, any, length, leb, if◌then◌else◌, map, flatten, inl, inr, Bool-cases,
  append_assoc, append-nil,
}
use chatgpt_web_gateway.Text.{Text, text, text_eq, trim}
use chatgpt_web_gateway.Text.Sets.{has}
use chatgpt_web_gateway.Context.{
  AttachmentKind, image, file, Speaker, user, assistant, CanonicalContentPart, text_part,
  attachment_part, CanonicalToolCall, CanonicalMessage, text_message, multimodal_message,
  tool_call_message, tool_result_message, ContextSyncPlan, fresh_plan, append_plan, restore_plan,
  rebuild_plan,
}
use chatgpt_web_gateway.Context.Fingerprint.{
  Json, Items, Fields, str, arr, obj, nil, cons, end, field,
}
use chatgpt_web_gateway.Context.Multimodal.{items_of, kind_name, speaker_name}

is_meaningful_part : CanonicalContentPart → Bool
unfolding trim
is_meaningful_part (text_part t) = not (leb (length (trim t)) 0)
is_meaningful_part (attachment_part r k s f m) = true

pub has_meaningful_canonical_user_content : CanonicalMessage → Bool
unfolding is_meaningful_part
has_meaningful_canonical_user_content (text_message user t) = not (leb (length (trim t)) 0)
has_meaningful_canonical_user_content (multimodal_message user content) =
    any is_meaningful_part content
has_meaningful_canonical_user_content (text_message assistant t) = false
has_meaningful_canonical_user_content (multimodal_message assistant content) = false
has_meaningful_canonical_user_content (tool_call_message t calls) = false
has_meaningful_canonical_user_content (tool_result_message i t) = false

pub references_of : List CanonicalContentPart → List Text
references_of [] = []
references_of (text_part t ∷ parts) = references_of parts
references_of (attachment_part reference k s f m ∷ parts) = reference ∷ references_of parts

pub attachment_references : CanonicalMessage → List Text
unfolding references_of
attachment_references (multimodal_message speaker content) = references_of content
attachment_references (text_message speaker t) = []
attachment_references (tool_call_message t calls) = []
attachment_references (tool_result_message i t) = []

-- The inner loop: seen holds the references met so far, as a set, and in order.
pub take_unseen : (seen : List Text) → List Text → List Text
take_unseen seen [] = seen
take_unseen seen (reference ∷ more) =
    let kept = take_unseen seen more in
    let added = take_unseen (seen ++ (reference ∷ [])) more in
    if has seen reference then kept else added

pub collect_references : (seen : List Text) → List CanonicalMessage → List Text
unfolding take_unseen attachment_references
collect_references seen [] = seen
collect_references seen (message ∷ messages) =
    collect_references (take_unseen seen (attachment_references message)) messages

pub uploaded_messages : ContextSyncPlan → List CanonicalMessage
uploaded_messages (fresh_plan history pending) = history ++ pending
uploaded_messages (rebuild_plan reason history pending) = history ++ pending
uploaded_messages (append_plan pending) = pending
uploaded_messages (restore_plan pending) = pending

pub select_upload_attachment_references : ContextSyncPlan → List Text
unfolding uploaded_messages collect_references
select_upload_attachment_references plan = collect_references [] (uploaded_messages plan)

-- The key of a Map, with its value
pub get : List (Text × Text) → Text → Option Text
get [] key = none
get ((k, value) ∷ more) key = if text_eq k key then some value else get more key

or_else : Option Text → Text → Text
or_else none t = t
or_else (some t) u = t

serialize_part : (upload_filename_by_reference : List (Text × Text)) → CanonicalContentPart → Json
unfolding kind_name get or_else
serialize_part names (text_part t) =
    obj (field (text "type") (str (text "text")) (field (text "text") (str t) end))
serialize_part names (attachment_part reference kind sha256 filename mime_type) = obj (
    field (text "type") (str (text "attachment")) (
      field (text "kind") (str (kind_name kind)) (
        field (text "filename") (str filename)
          (field (text "upload_filename") (str (or_else (get names reference) filename)) end))))

serialize_canonical_content :
    (upload_filename_by_reference : List (Text × Text)) → List CanonicalContentPart → Json
unfolding serialize_part items_of
serialize_canonical_content names content = arr (items_of (serialize_part names) content)

request_value : CanonicalToolCall → Json
request_value call = obj (
    field (text "request_id") (str call.external_call_id)
      (field (text "name") (str call.name) (field (text "arguments") (str call.arguments) end)))

name_field : Option Text → Fields → Fields
name_field none fs = fs
name_field (some name) fs = field (text "name") (str name) fs

text_field : Text → Fields → Fields
text_field [] fs = fs
text_field (c ∷ cs) fs = field (text "text") (str (c ∷ cs)) fs

pub serialize_canonical_message :
    (upload_filename_by_reference tool_name_by_call_id : List (Text × Text))
    → CanonicalMessage
    → Json
unfolding name_field get text_field request_value items_of speaker_name serialize_canonical_content
serialize_canonical_message files names (tool_result_message tool_call_id t) = obj (
    field (text "role") (str (text "external_function_result")) (
      field (text "request_id") (str tool_call_id)
        (name_field (get names tool_call_id) (field (text "result") (str t) end))))
serialize_canonical_message files names (tool_call_message t calls) = obj (
    field (text "role") (str (text "assistant")) (
      text_field t
        (field (text "external_function_requests") (arr (items_of request_value calls)) end)))
serialize_canonical_message files names (text_message speaker t) =
    obj (field (text "role") (str (speaker_name speaker)) (field (text "text") (str t) end))
serialize_canonical_message files names (multimodal_message speaker content) = obj (
    field (text "role") (str (speaker_name speaker))
      (field (text "content") (serialize_canonical_content files content) end))

pub serialize_canonical_current_user :
    (upload_filename_by_reference : List (Text × Text)) → CanonicalMessage → Json
unfolding serialize_canonical_message serialize_canonical_content
serialize_canonical_current_user files (text_message user t) = obj (field (text "text") (str t) end)
serialize_canonical_current_user files (multimodal_message user content) =
    obj (field (text "content") (serialize_canonical_content files content) end)
serialize_canonical_current_user files (text_message assistant t) =
    serialize_canonical_message files [] (text_message assistant t)
serialize_canonical_current_user files (multimodal_message assistant content) =
    serialize_canonical_message files [] (multimodal_message assistant content)
serialize_canonical_current_user files (tool_call_message t calls) =
    serialize_canonical_message files [] (tool_call_message t calls)
serialize_canonical_current_user files (tool_result_message i t) =
    serialize_canonical_message files [] (tool_result_message i t)

-- Names what a serialised message computes through, for tests.
unfoldable pub upload_runs : Unit {0}
unfolding has_meaningful_canonical_user_content references_of attachment_references take_unseen
    collect_references uploaded_messages select_upload_attachment_references get or_else
    serialize_part serialize_canonical_content request_value name_field text_field
    serialize_canonical_message serialize_canonical_current_user kind_name speaker_name items_of
upload_runs = tt
