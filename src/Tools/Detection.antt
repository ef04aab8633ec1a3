-- ===== src/Tools/Detection.antt =====
-- src/tools/detection-buffer.ts. A call returns the buffer it leaves, also when it throws.
pub mod Overlap
pub mod Stream
pub mod Answers
pub mod Tests
use chatgpt_web_gateway.Base.{
  ℕ, zero, suc, ◌+◌, ◌-◌, min, Bool, true, false, not, List, [], ◌∷◌, ◌++◌, ◌==◌, ◌||◌,
  if◌then◌else◌, length, take, take_last,
}
use chatgpt_web_gateway.Base.Results.{Result, returned, thrown}
use chatgpt_web_gateway.Text.{Text, starts_with, ends_with, includes, trim_start}
use chatgpt_web_gateway.Tools.{
  ToolProtocolErrorCode, chatgpt_tool_protocol_invalid, tool_protocol_start,
}

pub data ToolStreamClassification : Type 0 where
  pending text_output tool : ToolStreamClassification

-- The loop over length of longestSentinelPrefixSuffix
pub longest_from : ℕ → Text → ℕ
unfolding ends_with
longest_from zero value = 0
longest_from (suc n) value =
    let shorter = longest_from n value in
    if ends_with (take (suc n) tool_protocol_start) value then suc n else shorter

pub longest_sentinel_prefix_suffix : Text → ℕ
unfolding longest_from
longest_sentinel_prefix_suffix value =
    longest_from (min (length value) (length tool_protocol_start - 1)) value

pub record ToolDetectionBuffer : Type 0 where
  pub enabled : Bool
  pub state : ToolStreamClassification
  pub buffer : Text

abbrev pub Answer : Type 0
Answer = ToolDetectionBuffer × Result ToolProtocolErrorCode (List Text)

pub create_tool_detection_buffer : Bool → ToolDetectionBuffer
create_tool_detection_buffer enabled = record {
  enabled = enabled;
  state = if enabled then pending else text_output;
  buffer = [];
}

-- emit.length === 0 ? [] : [emit]
pub emission : Text → List Text
emission [] = []
emission (c ∷ cs) = (c ∷ cs) ∷ []

-- The end of push: the marker is searched for, and what may be its start is held back.
pub push_text : ToolDetectionBuffer → Answer
unfolding includes longest_sentinel_prefix_suffix emission
push_text b =
    let held = longest_sentinel_prefix_suffix b.buffer in
    if includes tool_protocol_start b.buffer then (b, thrown chatgpt_tool_protocol_invalid) else (
      record b { buffer = take_last held b.buffer },
      returned (emission (take (length b.buffer - held) b.buffer)),
    )

pub push_pending : ToolDetectionBuffer → Answer
unfolding starts_with trim_start push_text
push_pending b =
    let candidate = trim_start b.buffer in
    if starts_with tool_protocol_start candidate
    then (record b { state = tool }, returned [])
    else if length candidate == 0 || starts_with candidate tool_protocol_start
    then (b, returned [])
    else push_text (record b { state = text_output })

pub push_enabled : ToolStreamClassification → ToolDetectionBuffer → Answer
unfolding push_pending push_text
push_enabled tool b = (b, returned [])
push_enabled pending b = push_pending b
push_enabled text_output b = push_text b

pub push : Text → ToolDetectionBuffer → Answer
unfolding push_enabled
push delta b =
    if length delta == 0
    then (b, returned [])
    else if not b.enabled
    then (b, returned (delta ∷ []))
    else push_enabled b.state (record b { buffer = b.buffer ++ delta })

pub finish_text : ToolDetectionBuffer → Answer
unfolding includes emission
finish_text b =
    if includes tool_protocol_start b.buffer
    then (b, thrown chatgpt_tool_protocol_invalid)
    else (record b { buffer = [] }, returned (emission b.buffer))

pub finish_pending : ToolDetectionBuffer → Answer
unfolding starts_with trim_start finish_text
finish_pending b =
    let candidate = trim_start b.buffer in
    if length candidate == 0
    then finish_text (record b { state = text_output })
    else if starts_with tool_protocol_start candidate
    then (record b { state = tool }, returned [])
    else if starts_with candidate tool_protocol_start
    then (b, thrown chatgpt_tool_protocol_invalid)
    else finish_text (record b { state = text_output })

pub finish_enabled : ToolStreamClassification → ToolDetectionBuffer → Answer
unfolding finish_pending finish_text
finish_enabled tool b = (b, returned [])
finish_enabled pending b = finish_pending b
finish_enabled text_output b = finish_text b

pub finish : ToolDetectionBuffer → Answer
unfolding finish_enabled
finish b = if not b.enabled then (b, returned []) else finish_enabled b.state b

-- Names what a run of the buffer computes through, for tests.
unfoldable pub detection_runs : Unit {0}
unfolding tool_protocol_start longest_from longest_sentinel_prefix_suffix
    create_tool_detection_buffer emission push_text push_pending push_enabled push finish_text
    finish_pending finish_enabled finish
detection_runs = tt
