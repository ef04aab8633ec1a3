-- ===== src/Conversations/RequestContext/Transcript.antt =====
-- What a transcript that src/conversations/request-context.ts accepts is like.
use chatgpt_web_gateway.Base.{
  ◌≡◌, refl, sym, ap, ◌∙◌, Bool, true, false, ◌&&◌, ◌||◌, List, [], ◌∷◌, ◌++◌, map, arith,
  append-nil,
}
use chatgpt_web_gateway.Base.Results.{Result, returned, ◌>>=◌, ◌>>◌, bind-eq-returned}
use chatgpt_web_gateway.Text.{Text, text_eq}
use chatgpt_web_gateway.Text.Sets.{has}
use chatgpt_web_gateway.Context.{
  CanonicalToolCall, CanonicalMessage, text_message, multimodal_message, tool_call_message,
  tool_result_message,
}
use chatgpt_web_gateway.Context.Planner.{is_tool, is_user, known_calls, completed_calls}
use chatgpt_web_gateway.Conversations.Normalized.{
  RequestPhase, RequestError, invalid_conversation_request, throw_if,
}
use chatgpt_web_gateway.Conversations.RequestTranscript.{
  add_calls, known_after, completed_after, transcript_from,
}

has-append : (xs ys : List Text) (i : Text) → has (xs ++ ys) i ≡ (has xs i || has ys i)
has-append [] ys i = refl
has-append (x ∷ xs) ys i = ground (arith, has-append xs ys i)

or_assoc : (a b c : Bool) → ((a || b) || c) ≡ (a || (b || c))
or_assoc true b c = refl
or_assoc false b c = refl

swap_or : (a b c : Bool) → ((a || b) || c) ≡ (b || (a || c))
swap_or true true c = refl
swap_or true false c = refl
swap_or false b c = refl

throw_if-returned : (b : Bool) (e : RequestError) → throw_if b e ≡ returned tt → b ≡ false
unfolding throw_if
throw_if-returned true e h = cc
throw_if-returned false e h = refl

pub throw_if_then :
    {A : Type 0} (b : Bool) (e : RequestError) (r : Result RequestError A) (a : A)
    → (throw_if b e >> r) ≡ returned a
    → (b ≡ false) × (r ≡ returned a)
unfolding throw_if
throw_if_then true e r a h = cc
throw_if_then false e r a h = (refl, h)

-- The ids that are known after some calls are those known before, and the calls'.
has-add_calls :
    (phase : RequestPhase) (known : List Text) (calls : List CanonicalToolCall) (known' : List Text)
    → add_calls phase known calls ≡ returned known'
    → (i : Text)
    → has known' i
      ≡ (has known i || has (map (λ (call : CanonicalToolCall). call.external_call_id) calls) i)
unfolding add_calls
has-add_calls phase known [] known' h i = ground arith
has-add_calls phase known (call ∷ calls) known' h i =
    let (_, rest) =
      throw_if_then (has known call.external_call_id) (invalid_conversation_request phase)
        (add_calls phase (call.external_call_id ∷ known) calls) known' h in
    has-add_calls phase (call.external_call_id ∷ known) calls known' rest i
    ∙ swap_or (text_eq i call.external_call_id) (has known i)
        (has (map (λ (call : CanonicalToolCall). call.external_call_id) calls) i)

-- What one message does.
pub record Taken (phase : RequestPhase) (only : Bool) (previous_tool : Bool)
    (known completed : List Text) (m : CanonicalMessage) (ms : List CanonicalMessage) : Type 0 where
  pub known' : List Text
  pub completed' : List Text
  pub knows : known_after phase known m ≡ returned known'
  pub completes : completed_after phase only known' completed m ≡ returned completed'
  pub follows : (is_user m && previous_tool) ≡ false
  pub rest : transcript_from phase only (is_tool m) known' completed' ms ≡ returned tt

pub transcript_from-Taken :
    (phase : RequestPhase) (only previous_tool : Bool) (known completed : List Text)
    (m : CanonicalMessage) (ms : List CanonicalMessage)
    → transcript_from phase only previous_tool known completed (m ∷ ms) ≡ returned tt
    → Taken phase only previous_tool known completed m ms
unfolding transcript_from
transcript_from-Taken phase only previous_tool known completed m ms h =
    let (k, ek, h1) =
      bind-eq-returned (known_after phase known m)
        (λ known'. completed_after phase only known' completed m >>= λ completed'.
          throw_if (is_user m && previous_tool) (invalid_conversation_request phase)
          >> transcript_from phase only (is_tool m) known' completed' ms)
        tt h in
    let (c, ec, h2) =
      bind-eq-returned (completed_after phase only k completed m)
        (λ completed'.
          throw_if (is_user m && previous_tool) (invalid_conversation_request phase)
          >> transcript_from phase only (is_tool m) k completed' ms)
        tt h1 in
    let (f, r) =
      throw_if_then (is_user m && previous_tool) (invalid_conversation_request phase)
        (transcript_from phase only (is_tool m) k c ms) tt h2 in
    record { known' = k; completed' = c; knows = ek; completes = ec; follows = f; rest = r }

has-known_after :
    (phase : RequestPhase) (known : List Text) (m : CanonicalMessage) (known' : List Text)
    → known_after phase known m ≡ returned known'
    → (i : Text) → has known' i ≡ (has known i || has (known_calls (m ∷ [])) i)
unfolding known_after known_calls
has-known_after phase known (text_message s t) known' h i = ground arith
has-known_after phase known (multimodal_message s ps) known' h i = ground arith
has-known_after phase known (tool_result_message j t) known' h i = ground arith
has-known_after phase known (tool_call_message t calls) known' h i =
    has-add_calls phase known calls known' h i
    ∙ ap (λ x. has known i || has x i)
        (sym (append-nil (map (λ (call : CanonicalToolCall). call.external_call_id) calls)))

has-completed_after :
    (phase : RequestPhase) (only : Bool) (known completed : List Text) (m : CanonicalMessage)
    (completed' : List Text)
    → completed_after phase only known completed m ≡ returned completed'
    → (i : Text) → has completed' i ≡ (has completed i || has (completed_calls (m ∷ [])) i)
unfolding completed_after completed_calls throw_if
has-completed_after phase only known completed (text_message s t) c' h i = ground arith
has-completed_after phase only known completed (multimodal_message s ps) c' h i = ground arith
has-completed_after phase only known completed (tool_call_message t calls) c' h i = ground arith
has-completed_after phase only known completed (tool_result_message j t) c' h i = ground arith

known_calls_cons :
    (m : CanonicalMessage) (ms : List CanonicalMessage)
    → known_calls (m ∷ ms) ≡ known_calls (m ∷ []) ++ known_calls ms
unfolding known_calls
known_calls_cons (text_message s t) ms = refl
known_calls_cons (multimodal_message s ps) ms = refl
known_calls_cons (tool_result_message j t) ms = refl
known_calls_cons (tool_call_message t calls) ms =
    ap (λ x. x ++ known_calls ms)
      (sym (append-nil (map (λ (call : CanonicalToolCall). call.external_call_id) calls)))

completed_calls_cons :
    (m : CanonicalMessage) (ms : List CanonicalMessage)
    → completed_calls (m ∷ ms) ≡ completed_calls (m ∷ []) ++ completed_calls ms
unfolding completed_calls
completed_calls_cons (text_message s t) ms = refl
completed_calls_cons (multimodal_message s ps) ms = refl
completed_calls_cons (tool_result_message j t) ms = refl
completed_calls_cons (tool_call_message t calls) ms = refl

-- The state of the loop after a first part of the messages.
pub record Reached (phase : RequestPhase) (only : Bool) (known completed : List Text)
    (xs ys : List CanonicalMessage) : Type 0 where
  pub previous_tool : Bool
  pub known' : List Text
  pub completed' : List Text
  pub knows : (i : Text) → has known' i ≡ (has known i || has (known_calls xs) i)
  pub completes : (i : Text) → has completed' i ≡ (has completed i || has (completed_calls xs) i)
  pub rest : transcript_from phase only previous_tool known' completed' ys ≡ returned tt

pub transcript_from-Reached :
    (phase : RequestPhase) (only previous_tool : Bool) (known completed : List Text)
    (xs ys : List CanonicalMessage)
    → transcript_from phase only previous_tool known completed (xs ++ ys) ≡ returned tt
    → Reached phase only known completed xs ys
unfolding known_calls completed_calls
transcript_from-Reached phase only previous_tool known completed [] ys h = record {
  previous_tool = previous_tool;
  known' = known;
  completed' = completed;
  knows = λ i. ground arith;
  completes = λ i. ground arith;
  rest = h;
}
transcript_from-Reached phase only previous_tool known completed (m ∷ xs) ys h =
    let t = transcript_from-Taken phase only previous_tool known completed m (xs ++ ys) h in
    let r = transcript_from-Reached phase only (is_tool m) t.known' t.completed' xs ys t.rest in
    record {
      previous_tool = r.previous_tool;
      known' = r.known';
      completed' = r.completed';
      knows = λ i.
          joined i (known_calls (m ∷ [])) (known_calls xs) _ _ _ _ (known_calls_cons m xs)
            (r.knows i) (has-known_after phase known m t.known' t.knows i);
      completes = λ i.
          joined i (completed_calls (m ∷ [])) (completed_calls xs) _ _ _ _
            (completed_calls_cons m xs) (r.completes i)
            (has-completed_after phase only t.known' completed m t.completed' t.completes i);
      rest = r.rest;
    }
  where
    joined :
        (i : Text) (one more all before between after : List Text)
        → all ≡ one ++ more
        → has after i ≡ (has between i || has more i)
        → has between i ≡ (has before i || has one i)
        → has after i ≡ (has before i || has all i)
    joined i one more all before between after e r s =
        r
        ∙ ap (λ b. b || has more i) s
        ∙ or_assoc (has before i) (has one i) (has more i)
        ∙ ap (λ b. has before i || b) (sym (has-append one more i))
        ∙ ap (λ x. has before i || has x i) (sym e)
