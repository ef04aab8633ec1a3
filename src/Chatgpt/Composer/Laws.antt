-- ===== src/Chatgpt/Composer/Laws.antt =====
-- What the composer holds after src/chatgpt/composer-input.ts has entered a prompt.
use chatgpt_web_gateway.Base.{
  ℕ, ◌+◌, ◌≡◌, refl, sym, ap, ◌∙◌, false, not, ◌&&◌, List, [], ◌∷◌, ◌++◌, map, ltb, leb, ◌==◌,
  if◌then◌else◌, any, length, arith, inl, inr, Bool-cases, append_assoc, append-nil,
}
use chatgpt_web_gateway.Text.{Text}
use chatgpt_web_gateway.Text.Points.{points, join, join-points}
use chatgpt_web_gateway.Chatgpt.Composer.{
  Input, insert_text, paste, shift_enter, large_multiline_paste_threshold_bytes,
  max_insert_chunk_bytes, point_bytes, byte_length, chunks_from, split_utf8_chunks, Lines, is_break,
  line_break, in_first, split_lines, line_inputs, more_inputs, insert_large_multiline,
  enter_composer_prompt,
}

-- The text that inputs leave: Shift+Enter starts a line.
pub typed : List Input → Text
typed [] = []
typed (insert_text t ∷ inputs) = t ++ typed inputs
typed (paste t ∷ inputs) = t ++ typed inputs
typed (shift_enter ∷ inputs) = 10 ∷ typed inputs

-- A text with each of its line endings as a line feed
pub line_feeds : Text → Text
unfolding is_break
line_feeds [] = []
line_feeds (c ∷ []) = (if is_break c then 10 else c) ∷ []
line_feeds (c ∷ d ∷ rest) =
    let pair = 10 ∷ line_feeds rest in
    let single = (if is_break c then 10 else c) ∷ line_feeds (d ∷ rest) in
    if c == 13 && d == 10 then pair else single

join-chunks_from :
    (max_bytes : ℕ) (current : Text) (current_bytes : ℕ) (ps : List Text)
    → join (chunks_from max_bytes current current_bytes ps) ≡ current ++ join ps
unfolding chunks_from
join-chunks_from max_bytes [] current_bytes [] = refl
join-chunks_from max_bytes (c ∷ cs) current_bytes [] = ground arith
join-chunks_from max_bytes current current_bytes (p ∷ ps) =
    let cut = join-chunks_from max_bytes p (point_bytes p) ps in
    let grown = join-chunks_from max_bytes (current ++ p) (current_bytes + point_bytes p) ps in
    elim (Bool-cases (not (length current == 0) && ltb max_bytes (current_bytes + point_bytes p))) [
      | inl h ↦ rw (h, cut) refl
      | inr n ↦ rw n (grown ∙ append_assoc current p (join ps))
    ]

typed-append : (xs ys : List Input) → typed (xs ++ ys) ≡ typed xs ++ typed ys
unfolding typed
typed-append [] ys = refl
typed-append (insert_text t ∷ xs) ys =
    rw (typed-append xs ys) (sym (append_assoc t (typed xs) (typed ys)))
typed-append (paste t ∷ xs) ys =
    rw (typed-append xs ys) (sym (append_assoc t (typed xs) (typed ys)))
typed-append (shift_enter ∷ xs) ys = ap (λ t. 10 ∷ t) (typed-append xs ys)

typed_chunks : (chunks : List Text) → typed (map insert_text chunks) ≡ join chunks
unfolding typed
typed_chunks [] = refl
typed_chunks (c ∷ cs) = ap (λ t. c ++ t) (typed_chunks cs)

typed-line_inputs : (line : Text) → typed (line_inputs line) ≡ line
unfolding line_inputs split_utf8_chunks
typed-line_inputs line =
    typed_chunks (chunks_from max_insert_chunk_bytes [] 0 (points line))
    ∙ join-chunks_from max_insert_chunk_bytes [] 0 (points line)
    ∙ join-points line

after_first : List Text → Text
after_first [] = []
after_first (line ∷ lines) = 10 ∷ (line ++ after_first lines)

unlines : Lines → Text
unlines ls = ls.first ++ after_first ls.more

typed-more_inputs : (lines : List Text) → typed (more_inputs lines) ≡ after_first lines
unfolding more_inputs typed after_first
typed-more_inputs [] = refl
typed-more_inputs (line ∷ lines) =
    ap (λ t. 10 ∷ t)
      (typed-append (line_inputs line) (more_inputs lines)
        ∙ ap (λ t. t ++ typed (more_inputs lines)) (typed-line_inputs line)
        ∙ ap (λ t. line ++ t) (typed-more_inputs lines))

unlines-split_lines : (t : Text) → unlines (split_lines t) ≡ line_feeds t
unfolding unlines split_lines line_feeds after_first line_break in_first
unlines-split_lines [] = refl
unlines-split_lines (c ∷ []) = ground arith
unlines-split_lines (c ∷ d ∷ rest) =
    let pair = unlines-split_lines rest in
    let single = unlines-split_lines (d ∷ rest) in
    elim (Bool-cases (c == 13 && d == 10)) [
      | inl h ↦ rw h (ap (λ t. 10 ∷ t) pair)
      | inr n ↦ elim (Bool-cases (is_break c)) [
        | inl b ↦ rw (n, b) (ap (λ t. 10 ∷ t) single)
        | inr o ↦ rw (n, o) (ap (λ t. c ∷ t) single)
      ]
    ]

-- A text without a carriage return is as it is with line feeds, and line feeds leave none.
plain : (t : Text) → any (λ c. c == 13) t ≡ false → line_feeds t ≡ t
unfolding line_feeds is_break
plain [] h = refl
plain (c ∷ []) h = ground arith
plain (c ∷ d ∷ rest) h = let more = plain (d ∷ rest) (ground arith) in ground (arith, more)

line_feeds_plain : (t : Text) → any (λ c. c == 13) (line_feeds t) ≡ false
unfolding line_feeds is_break
line_feeds_plain [] = refl
line_feeds_plain (c ∷ []) = ground arith
line_feeds_plain (c ∷ d ∷ rest) =
    let pair = line_feeds_plain rest in
    let single = line_feeds_plain (d ∷ rest) in ground (arith, pair, single)

-- A prompt that is entered is read back from the composer, up to the way its lines end.
pub line_feeds-typed :
    (prompt : Text) → line_feeds (typed (enter_composer_prompt prompt)) ≡ line_feeds prompt
unfolding enter_composer_prompt insert_large_multiline typed unlines
line_feeds-typed prompt = elim (Bool-cases (any is_break prompt)) [
  | inr n ↦ rw n (ap line_feeds (append-nil prompt))
  | inl b ↦ elim (Bool-cases (leb (byte_length prompt) large_multiline_paste_threshold_bytes)) [
    | inl s ↦ rw (b, s) (ap line_feeds (append-nil prompt))
    | inr l ↦
        rw (b, l)
          (let lines = split_lines prompt in
            let whole : typed (line_inputs lines.first ++ more_inputs lines.more)
                ≡ line_feeds prompt =
              typed-append (line_inputs lines.first) (more_inputs lines.more)
              ∙ ap (λ t. t ++ typed (more_inputs lines.more)) (typed-line_inputs lines.first)
              ∙ ap (λ t. lines.first ++ t) (typed-more_inputs lines.more)
              ∙ unlines-split_lines prompt in
            ap line_feeds whole ∙ plain (line_feeds prompt) (line_feeds_plain prompt))
  ]
]
