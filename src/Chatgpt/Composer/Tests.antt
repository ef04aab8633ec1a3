-- ===== src/Chatgpt/Composer/Tests.antt =====
-- Prompts entered by src/chatgpt/composer-input.ts.
use chatgpt_web_gateway.Base.{◌≡◌, refl, [], ◌∷◌, ◌++◌}
use chatgpt_web_gateway.Text.{Text, text}
use chatgpt_web_gateway.Text.Points.{points}
use chatgpt_web_gateway.Chatgpt.Composer.{
  insert_text, paste, shift_enter, split_utf8_chunks, insert_large_multiline, enter_composer_prompt,
  composer_runs,
}
use chatgpt_web_gateway.Chatgpt.Composer.Laws.{typed, line_feeds, line_feeds-typed}

abbrev two_lines : Text
two_lines = text "ab" ++ (13 ∷ 10 ∷ text "c")

short : enter_composer_prompt two_lines ≡ paste two_lines ∷ []
unfolding composer_runs points
short = refl

large :
    insert_large_multiline two_lines
    ≡ insert_text (text "ab") ∷ shift_enter ∷ insert_text (text "c") ∷ []
unfolding composer_runs points
large = refl

-- U+00E9 takes two bytes, and a surrogate pair four.
chunked :
    split_utf8_chunks (0x61 ∷ 0xe9 ∷ 0xd83d ∷ 0xde00 ∷ []) 4
    ≡ (0x61 ∷ 0xe9 ∷ []) ∷ (0xd83d ∷ 0xde00 ∷ []) ∷ []
unfolding composer_runs points
chunked = refl

line_feeds-typed_example :
    line_feeds (typed (enter_composer_prompt two_lines)) ≡ line_feeds two_lines
line_feeds-typed_example = line_feeds-typed two_lines
