-- ===== src/Context/Uploads/Tests.antt =====
-- A plan with an attachment that comes twice.
use chatgpt_web_gateway.Base.{◌≡◌, refl, ◌||◌, none, [], ◌∷◌}
use chatgpt_web_gateway.Text.{Text, text, text_eq}
use chatgpt_web_gateway.Text.Sets.{has}
use chatgpt_web_gateway.Context.{
  image, file, user, CanonicalContentPart, text_part, attachment_part, multimodal_message,
  tool_result_message, ContextSyncPlan, rebuild_plan, history_diverged,
}
use chatgpt_web_gateway.Context.Fingerprint.{str, obj, end, field}
use chatgpt_web_gateway.Context.Uploads.{
  select_upload_attachment_references, serialize_canonical_message, upload_runs,
}
use chatgpt_web_gateway.Context.Uploads.Laws.{
  HasNoRepeat, mentions, history_of, pending_of, uploads_once,
}

abbrev picture : CanonicalContentPart
picture = attachment_part (text "a1") image (text "00") (text "cat.png") none

abbrev notes : CanonicalContentPart
notes = attachment_part (text "a2") file (text "01") (text "notes.txt") none

abbrev rebuilt : ContextSyncPlan
rebuilt =
    rebuild_plan history_diverged
      (multimodal_message user (picture ∷ text_part (text "look") ∷ []) ∷ [])
      (multimodal_message user (notes ∷ picture ∷ []) ∷ [])

uploaded : select_upload_attachment_references rebuilt ≡ text "a1" ∷ text "a2" ∷ []
unfolding upload_runs text_eq
uploaded = refl

result_written :
    serialize_canonical_message []
      ((text "c1", text "add") ∷ [])
      (tool_result_message (text "c1") (text "4"))
    ≡ obj (
        field (text "role") (str (text "external_function_result")) (
          field
            (text "request_id")
            (str (text "c1"))
            (field (text "name") (str (text "add")) (field (text "result") (str (text "4")) end))))
unfolding upload_runs text_eq
result_written = refl

uploads_once_example :
    HasNoRepeat (select_upload_attachment_references rebuilt)
    × ((reference : Text)
        → has (select_upload_attachment_references rebuilt) reference
          ≡ (mentions (history_of rebuilt) reference || mentions (pending_of rebuilt) reference))
uploads_once_example = uploads_once rebuilt
