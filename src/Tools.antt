-- ===== src/Tools.antt =====
-- src/tools: the private protocol in which an answer asks for function calls.
pub mod Detection
pub mod Parser
pub mod Canonicalize
pub mod Prompt
use chatgpt_web_gateway.Text.{Text, text}

pub data ToolProtocolErrorCode : Type 0 where
  chatgpt_tool_required chatgpt_tool_protocol_invalid chatgpt_tool_unknown chatgpt_tool_forbidden :
      ToolProtocolErrorCode

pub tool_protocol_start : Text
tool_protocol_start = text "<<<EXTERNAL_FUNCTION_REQUESTS_V1>>>"

pub tool_protocol_end : Text
tool_protocol_end = text "<<<END_EXTERNAL_FUNCTION_REQUESTS_V1>>>"
