-- ===== src/Chatgpt.antt =====
-- src/chatgpt/conversation-url.ts. The URL class is a parameter, which gives nothing where it throws.
pub mod Composer
use chatgpt_web_gateway.Base.{Bool, not, ◌||◌, Option, none, some, if◌then◌else◌}
use chatgpt_web_gateway.Text.{Text, text, text_eq, starts_with}

-- The parts of a URL that are read
pub record Url : Type 0 where
  pub protocol : Text
  pub hostname : Text
  pub pathname : Text
  pub href : Text

pub record SafeChatGptConversationUrl : Type 0 where
  pub safe_href : Text
  pub safe_pathname : Text

check_url : Url → Option SafeChatGptConversationUrl
unfolding text_eq starts_with
check_url url =
    if not (text_eq url.protocol (text "https:"))
      || (not (text_eq url.hostname (text "chatgpt.com"))
          || (text_eq url.pathname (text "/") || starts_with (text "/c/WEB:") url.pathname))
    then none
    else some (record { safe_href = url.href; safe_pathname = url.pathname })

pub parse_safe_chat_gpt_conversation_url :
    (parse_url : Text → Option Url) → Text → Option SafeChatGptConversationUrl
unfolding check_url
parse_safe_chat_gpt_conversation_url parse_url value =
    elim (parse_url value) as (λ x. Option SafeChatGptConversationUrl) [
      | none ↦ none
      | some url ↦ check_url url
    ]
