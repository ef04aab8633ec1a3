-- ===== src/Chatgpt/Composer.antt =====
-- src/chatgpt/composer-input.ts: how a prompt is entered into the composer of the page. The calls of the
-- page are the inputs, in order.
pub mod Laws
pub mod Tests
use chatgpt_web_gateway.Base.{
  ℕ, ◌+◌, Bool, true, false, not, ◌&&◌, ◌||◌, List, [], ◌∷◌, ◌++◌, map, ltb, leb, ◌==◌,
  if◌then◌else◌, any, length,
}
use chatgpt_web_gateway.Text.{Text}
use chatgpt_web_gateway.Text.Points.{points}

pub data Input : Type 0 where
  insert_text : Text → Input
  paste : Text → Input
  shift_enter : Input

pub large_multiline_paste_threshold_bytes : ℕ
large_multiline_paste_threshold_bytes = 16384

pub max_insert_chunk_bytes : ℕ
max_insert_chunk_bytes = 4096

-- Buffer.byteLength of a code point: a lone surrogate is written as U+FFFD.
pub point_bytes : Text → ℕ
point_bytes [] = 0
point_bytes (u ∷ []) = if ltb u 0x80 then 1 else if ltb u 0x800 then 2 else 3
point_bytes (h ∷ l ∷ rest) = 4

pub sum_bytes : List Text → ℕ
unfolding point_bytes
sum_bytes [] = 0
sum_bytes (p ∷ ps) = point_bytes p + sum_bytes ps

pub byte_length : Text → ℕ
unfolding sum_bytes points
byte_length t = sum_bytes (points t)

-- The loop over the code points
pub chunks_from : (max_bytes : ℕ) (current : Text) (current_bytes : ℕ) → List Text → List Text
unfolding point_bytes
chunks_from max_bytes current current_bytes [] = if length current == 0 then [] else current ∷ []
chunks_from max_bytes current current_bytes (p ∷ ps) =
    let cut = chunks_from max_bytes p (point_bytes p) ps in
    let grown = chunks_from max_bytes (current ++ p) (current_bytes + point_bytes p) ps in
    if not (length current == 0) && ltb max_bytes (current_bytes + point_bytes p)
    then current ∷ cut
    else grown

pub split_utf8_chunks : Text → (max_bytes : ℕ) → List Text
unfolding chunks_from points
split_utf8_chunks t max_bytes = chunks_from max_bytes [] 0 (points t)

-- The lines of a text: there is always a first.
pub record Lines : Type 0 where
  pub first : Text
  pub more : List Text

pub is_break : ℕ → Bool
is_break c = c == 13 || c == 10

pub line_break : Lines → Lines
line_break ls = record { first = []; more = ls.first ∷ ls.more }

pub in_first : ℕ → Lines → Lines
in_first c ls = record { first = c ∷ ls.first; more = ls.more }

-- prompt.split(/\r\n|\n|\r/)
pub split_lines : Text → Lines
unfolding is_break line_break in_first
split_lines [] = record { first = []; more = [] }
split_lines (c ∷ []) =
    let empty : Lines = record { first = []; more = [] } in
    if is_break c then line_break empty else in_first c empty
split_lines (c ∷ d ∷ rest) =
    let pair = line_break (split_lines rest) in
    let single = split_lines (d ∷ rest) in
    if c == 13 && d == 10 then pair else if is_break c then line_break single else in_first c single

pub line_inputs : Text → List Input
unfolding split_utf8_chunks max_insert_chunk_bytes
line_inputs line = map insert_text (split_utf8_chunks line max_insert_chunk_bytes)

pub more_inputs : List Text → List Input
unfolding line_inputs
more_inputs [] = []
more_inputs (line ∷ lines) = shift_enter ∷ (line_inputs line ++ more_inputs lines)

pub insert_large_multiline : Text → List Input
unfolding split_lines line_inputs more_inputs
insert_large_multiline prompt =
    let lines = split_lines prompt in line_inputs lines.first ++ more_inputs lines.more

pub enter_composer_prompt : Text → List Input
unfolding is_break byte_length large_multiline_paste_threshold_bytes insert_large_multiline
enter_composer_prompt prompt =
    if not (any is_break prompt)
    then insert_text prompt ∷ []
    else if leb (byte_length prompt) large_multiline_paste_threshold_bytes
    then paste prompt ∷ []
    else insert_large_multiline prompt

-- Names what the inputs compute through, for tests.
unfoldable pub composer_runs : Unit {0}
unfolding large_multiline_paste_threshold_bytes max_insert_chunk_bytes point_bytes sum_bytes
    byte_length chunks_from split_utf8_chunks is_break line_break in_first split_lines line_inputs
    more_inputs insert_large_multiline enter_composer_prompt
composer_runs = tt
