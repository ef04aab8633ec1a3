-- ===== src/Conversations/RequestContext/Accepted.antt =====
-- What a request that src/conversations/request-context.ts accepts is like.
use mathlib.Core.List.{Mem, Nodup}
use chatgpt_web_gateway.Base.{
  ◌++◌, ◌≡◌, refl, sym, ap, ◌∙◌, subst, Bool, true, false, not, ◌&&◌, ◌||◌, Option, none, some,
  List, [], ◌∷◌, arith,
}
use chatgpt_web_gateway.Base.Results.{Result, returned, thrown, ◌>>=◌, ◌>>◌, bind-eq-returned}
use chatgpt_web_gateway.Text.{Text}
use chatgpt_web_gateway.Text.Maps.{TextMap}
use chatgpt_web_gateway.Context.{
  CanonicalMessage, tool_result_message, CanonicalConversationRequest, ConversationRequestMode,
  full,
}
use chatgpt_web_gateway.Context.Fingerprint.{Json, Digest}
use chatgpt_web_gateway.Context.Planner.{
  is_tool, is_user, last_message, known_calls, completed_calls,
}
use chatgpt_web_gateway.Context.Uploads.{has_meaningful_canonical_user_content}
use chatgpt_web_gateway.Conversations.Normalized.{
  NormalizedRequest, ResolvedAttachmentSemantic, RequestPhase, phase7, RequestError,
  invalid_conversation_request, throw_if, is_phase7,
}
use chatgpt_web_gateway.Conversations.RequestTranscript.{
  transcript_from, tool_only, validate_phase7_transcript, is_missing,
}
use chatgpt_web_gateway.Conversations.RequestContext.Results.{completed_calls-Nodup, result-Mem}
use chatgpt_web_gateway.Conversations.RequestContext.{
  validate_last, request_mode, request_fingerprint, request_messages, accept_messages,
  canonical_request, check_request, canonical_conversation_request,
  to_canonical_phase7_conversation_request, to_canonical_phase7_streaming_conversation_request,
}

-- A chain of checks that returns has passed the first.
then_returned :
    {A : Type 0} (m : Result RequestError (Unit {0})) (r : Result RequestError A) (a : A)
    → (m >> r) ≡ returned a
    → (m ≡ returned tt) × (r ≡ returned a)
then_returned (returned u) r a h = (refl, h)
then_returned (thrown e) r a h = cc

-- The checks on the messages of an accepted request.
pub record IsAccepted (request : NormalizedRequest) (r : CanonicalConversationRequest)
    : Type 0 where
  pub transcript :
      transcript_from phase7 (tool_only r.messages) false [] [] r.messages ≡ returned tt
  pub keyed : (tool_only r.messages && is_missing request.conversation_key) ≡ false
  pub last : CanonicalMessage
  pub ends : last_message r.messages ≡ some last
  pub last_role : (is_user last || is_tool last) ≡ true
  pub meaningful : (is_user last && not (has_meaningful_canonical_user_content last)) ≡ false
  pub has_mode : r.mode ≡ request_mode r.messages

validate_last-some :
    (phase : RequestPhase) (o : Option CanonicalMessage)
    → validate_last phase o ≡ returned tt
    → (last : CanonicalMessage) × (o ≡ some last)
      × ((is_user last || is_tool last) ≡ true)
      × ((is_user last && not (has_meaningful_canonical_user_content last)) ≡ false)
unfolding validate_last throw_if
validate_last-some phase none h = cc
validate_last-some phase (some last) h =
    let (first, second) =
      then_returned
        (throw_if (not (is_user last) && not (is_tool last)) (invalid_conversation_request phase))
        (throw_if (is_user last && not (has_meaningful_canonical_user_content last))
          (invalid_conversation_request phase))
        tt h in
    (last, refl, ground arith, ground arith)

module _ (parse : Text → Option Json) (compile : Json → Option (Json → Bool)) (d : Digest)
    (hex : d.Hash → Text) where
  accept_messages-IsAccepted :
      (request : NormalizedRequest) (messages : List CanonicalMessage)
      (r : CanonicalConversationRequest)
      → accept_messages parse compile d hex request phase7 messages ≡ returned r
      → IsAccepted request r
  unfolding accept_messages validate_phase7_transcript is_phase7 throw_if canonical_request
  accept_messages-IsAccepted request messages r h =
      let finish = λ (fingerprint : Option Text). canonical_request request messages fingerprint in
      let print = request_fingerprint parse compile d hex phase7 request in
      let (v, h1) =
        then_returned (validate_phase7_transcript request messages phase7)
          (validate_last phase7 (last_message messages)
            >> (print >>= λ fingerprint. returned (finish fingerprint)))
          r h in
      let (l, h2) =
        then_returned (validate_last phase7 (last_message messages))
          (print >>= λ fingerprint. returned (finish fingerprint)) r h1 in
      let (fingerprint, f, made) =
        bind-eq-returned print (λ fingerprint. returned (finish fingerprint)) r h2 in
      let (t, k) =
        then_returned (transcript_from phase7 (tool_only messages) false [] [] messages)
          (throw_if (tool_only messages && is_missing request.conversation_key)
            (invalid_conversation_request phase7))
          tt v in
      let (last, ends, role, meaning) = validate_last-some phase7 (last_message messages) l in
      let same : messages ≡ r.messages = ap messages_of made in
      record {
        transcript =
            subst (λ ms. transcript_from phase7 (tool_only ms) false [] [] ms ≡ returned tt) same t;
        keyed =
            subst (λ ms. (tool_only ms && is_missing request.conversation_key) ≡ false) same
              (ground arith);
        last = last;
        ends = subst (λ ms. last_message ms ≡ some last) same ends;
        last_role = role;
        meaningful = meaning;
        has_mode = sym (ap mode_of made) ∙ ap request_mode same;
      }
    where
      messages_of : Result RequestError CanonicalConversationRequest → List CanonicalMessage
      messages_of (returned x) = x.messages
      messages_of (thrown e) = []

      mode_of : Result RequestError CanonicalConversationRequest → ConversationRequestMode
      mode_of (returned x) = x.mode
      mode_of (thrown e) = full

  pub canonical-IsAccepted :
      (request : NormalizedRequest) (resolved : Option (TextMap ResolvedAttachmentSemantic))
      (r : CanonicalConversationRequest)
      → canonical_conversation_request parse compile d hex request phase7 resolved ≡ returned r
      → IsAccepted request r
  unfolding canonical_conversation_request
  canonical-IsAccepted request resolved r h =
      let (_, h5) =
        then_returned (check_request parse compile d hex request phase7 resolved)
          (request_messages parse compile d hex resolved phase7 request.messages >>= λ messages.
            accept_messages parse compile d hex request phase7 messages)
          r h in
      let (messages, _, accepted) =
        bind-eq-returned (request_messages parse compile d hex resolved phase7 request.messages)
          (λ messages. accept_messages parse compile d hex request phase7 messages) r h5 in
      accept_messages-IsAccepted request messages r accepted

  pub phase7-IsAccepted :
      (request : NormalizedRequest) (resolved : Option (TextMap ResolvedAttachmentSemantic))
      (r : CanonicalConversationRequest)
      → to_canonical_phase7_conversation_request parse compile d hex request resolved ≡ returned r
      → IsAccepted request r
  unfolding to_canonical_phase7_conversation_request
  phase7-IsAccepted request resolved r h = canonical-IsAccepted request resolved r h

  pub phase7_streaming-IsAccepted :
      (request : NormalizedRequest) (resolved : Option (TextMap ResolvedAttachmentSemantic))
      (r : CanonicalConversationRequest)
      → to_canonical_phase7_streaming_conversation_request parse compile d hex request resolved
        ≡ returned r
      → IsAccepted request r
  unfolding to_canonical_phase7_streaming_conversation_request
  phase7_streaming-IsAccepted request resolved r h =
      let (_, h1) =
        then_returned (throw_if (not request.stream) (invalid_conversation_request phase7))
          (canonical_conversation_request parse compile d hex request phase7 resolved) r h in
      canonical-IsAccepted request resolved r h1

-- In a request that phase 7 accepts, and that is not tool results only, no call has two results, every
-- result answers a call of an earlier message, and the last message is a tool result or a message of
-- the user with content.
pub phase7-Answered :
    (parse : Text → Option Json) (compile : Json → Option (Json → Bool)) (d : Digest)
    (hex : d.Hash → Text) (request : NormalizedRequest)
    (resolved : Option (TextMap ResolvedAttachmentSemantic)) (r : CanonicalConversationRequest)
    → to_canonical_phase7_conversation_request parse compile d hex request resolved ≡ returned r
    → tool_only r.messages ≡ false
    → Nodup (completed_calls r.messages)
      × ((xs ys : List CanonicalMessage) (id t : Text)
          → r.messages ≡ xs ++ (tool_result_message id t ∷ ys)
          → Mem id (known_calls xs))
      × ((last : CanonicalMessage) × (last_message r.messages ≡ some last)
          × ((is_tool last || has_meaningful_canonical_user_content last) ≡ true))
phase7-Answered parse compile d hex request resolved r h some_other =
    let a = phase7-IsAccepted parse compile d hex request resolved r h in
    let full =
      subst (λ o. transcript_from phase7 o false [] [] r.messages ≡ returned tt) some_other
        a.transcript in
    let (distinct, _) = completed_calls-Nodup phase7 false false [] [] r.messages full in
    let role = a.last_role in
    let meaning = a.meaningful in
    (
      distinct,
      (λ xs ys id t e.
          let (called, _) =
            result-Mem phase7 xs ys id t
              (subst (λ ms. transcript_from phase7 false false [] [] ms ≡ returned tt) e full) in
          called),
      (a.last, a.ends, ground arith),
    )
