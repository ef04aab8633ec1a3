-- ===== src/Context/Multimodal.antt =====
-- src/context/multimodal.ts
use chatgpt_web_gateway.Base.{Option, none, some, List, [], ◌∷◌}
use chatgpt_web_gateway.Text.{Text, text}
use chatgpt_web_gateway.Context.{
  AttachmentKind, image, file, Speaker, user, assistant, CanonicalContentPart, text_part,
  attachment_part, CanonicalToolCall, CanonicalMessage, text_message, multimodal_message,
  tool_call_message, tool_result_message,
}
use chatgpt_web_gateway.Context.Fingerprint.{
  Json, Items, Fields, str, arr, obj, nil, cons, end, field, Digest, fingerprint_canonical,
}

unfoldable pub speaker_name : Speaker → Text
speaker_name user = text "user"
speaker_name assistant = text "assistant"

unfoldable pub kind_name : AttachmentKind → Text
kind_name image = text "image"
kind_name file = text "file"

-- ...(value === undefined ? {} : { key: value })
unfoldable pub optional_field : Text → Option Text → Fields → Fields
optional_field k none fs = fs
optional_field k (some v) fs = field k (str v) fs

-- What the fingerprint reads of a part: of an attachment all but its reference.
part_value : CanonicalContentPart → Json
unfolding kind_name optional_field
part_value (text_part t) =
    obj (field (text "type") (str (text "text")) (field (text "text") (str t) end))
part_value (attachment_part reference kind sha256 filename mime_type) = obj (
    field (text "type") (str (text "attachment")) (
      field (text "kind") (str (kind_name kind)) (
        field (text "sha256") (str sha256) (
          field (text "filename") (str filename)
            (optional_field (text "mimeType") mime_type end)))))

call_value : CanonicalToolCall → Json
call_value call = obj (
    field (text "externalCallId") (str call.external_call_id)
      (field (text "name") (str call.name) (field (text "arguments") (str call.arguments) end)))

unfoldable pub items_of : {A : Type 0} → (A → Json) → List A → Items
items_of f [] = nil
items_of f (x ∷ xs) = cons (f x) (items_of f xs)

unfoldable pub message_value : CanonicalMessage → Json
unfolding speaker_name part_value call_value items_of
message_value (tool_result_message tool_call_id t) = obj (
    field (text "role") (str (text "tool"))
      (field (text "toolCallId") (str tool_call_id) (field (text "text") (str t) end)))
message_value (tool_call_message t calls) = obj (
    field (text "role") (str (text "assistant")) (
      field (text "text") (str t) (field (text "toolCalls") (arr (items_of call_value calls)) end)))
message_value (text_message speaker t) =
    obj (field (text "role") (str (speaker_name speaker)) (field (text "text") (str t) end))
message_value (multimodal_message speaker content) = obj (
    field (text "role") (str (speaker_name speaker))
      (field (text "content") (arr (items_of part_value content)) end))

unfoldable pub fingerprint_canonical_message : (d : Digest) → CanonicalMessage → d.Hash
unfolding message_value fingerprint_canonical
fingerprint_canonical_message d message = fingerprint_canonical d (message_value message)
