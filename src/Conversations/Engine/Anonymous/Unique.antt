-- ===== src/Conversations/Engine/Anonymous/Unique.antt =====
-- A request without a key goes on with a conversation only if no other could be meant
-- (src/conversations/conversation-engine.ts).
use chatgpt_web_gateway.Base.{
  ℕ, ◌≡◌, refl, ap, subst, Bool, true, false, not, ◌||◌, none, some, List, [], ◌∷◌, ◌++◌, arith,
  inl, inr, Bool-cases, All, ◌==◌, if◌then◌else◌, length,
}
use chatgpt_web_gateway.Base.Results.{Result, returned, thrown, bind-eq-returned}
use chatgpt_web_gateway.Context.{CanonicalConversationRequest}
use chatgpt_web_gateway.Conversations.Aggregate.{ConversationAggregate}
use chatgpt_web_gateway.Conversations.Normalized.{NormalizedRequest, RequestError}
use chatgpt_web_gateway.Conversations.Engine.Context.{request_history_length}
use chatgpt_web_gateway.Conversations.Engine.Program.{Engine, Event}
use chatgpt_web_gateway.Conversations.Engine.Anonymous.{
  is_full, candidate_continues, match_from, canonical_anonymous, continuation_of,
  anonymous_continuation,
}

module _ (e : Engine) (trace : List Event) (request : NormalizedRequest) where
  -- The one candidate that the planner continues
  pub record IsOnly (canonical : CanonicalConversationRequest)
      (candidates : List ConversationAggregate) (c : ConversationAggregate) : Type 0 where
    pub before : List ConversationAggregate
    pub after : List ConversationAggregate
    pub cut : candidates ≡ before ++ (c ∷ after)
    pub continues : candidate_continues e trace request canonical c ≡ returned true
    pub none_before :
        All (λ x. candidate_continues e trace request canonical x ≡ returned false) before
    pub none_after :
        All (λ x. candidate_continues e trace request canonical x ≡ returned false) after

  match_from-some :
      (canonical : CanonicalConversationRequest) (found c : ConversationAggregate)
      (candidates : List ConversationAggregate)
      → match_from e trace request canonical (some found) candidates ≡ returned (some c)
      → (found ≡ c)
        × All (λ x. candidate_continues e trace request canonical x ≡ returned false) candidates
  unfolding match_from
  match_from-some canonical found c [] h = (ground arith, tt)
  match_from-some canonical found c (x ∷ more) h =
      let passed = match_from e trace request canonical (some found) more in
      let (b, t, k) =
        bind-eq-returned (candidate_continues e trace request canonical x)
          (λ continues. if continues then returned none else passed) (some c) h in
      passed_over (λ k'. match_from-some canonical found c more k') b t k
    where
      passed_over :
          (match_from e trace request canonical (some found) more ≡ returned (some c)
            → (found ≡ c)
              × All (λ y. candidate_continues e trace request canonical y ≡ returned false) more)
          → (b : Bool) → candidate_continues e trace request canonical x ≡ returned b
          → (if b then returned none else match_from e trace request canonical (some found) more)
            ≡ returned (some c)
          → (found ≡ c)
            × All (λ y. candidate_continues e trace request canonical y ≡ returned false) (x ∷ more)
      passed_over later true t k = cc
      passed_over later false t k = let (same, rest) = later k in (same, (t, rest))

  match_from-IsOnly :
      (canonical : CanonicalConversationRequest) (c : ConversationAggregate)
      (candidates : List ConversationAggregate)
      → match_from e trace request canonical none candidates ≡ returned (some c)
      → IsOnly canonical candidates c
  unfolding match_from
  match_from-IsOnly canonical c [] h = cc
  match_from-IsOnly canonical c (x ∷ more) h =
      let taken = match_from e trace request canonical (some x) more in
      let passed = match_from e trace request canonical none more in
      let (b, t, k) =
        bind-eq-returned (candidate_continues e trace request canonical x)
          (λ continues. if continues then taken else passed) (some c) h in
      met (λ k'. match_from-IsOnly canonical c more k') b t k
    where
      met :
          (match_from e trace request canonical none more ≡ returned (some c)
            → IsOnly canonical more c)
          → (b : Bool) → candidate_continues e trace request canonical x ≡ returned b
          → (if b
              then match_from e trace request canonical (some x) more
              else match_from e trace request canonical none more)
            ≡ returned (some c)
          → IsOnly canonical (x ∷ more) c
      met later true t k =
          let (same, rest) = match_from-some canonical x c more k in
          record {
            before = [];
            after = more;
            cut = ap (λ y. y ∷ more) same;
            continues =
                subst (λ y. candidate_continues e trace request canonical y ≡ returned true) same t;
            none_before = tt;
            none_after = rest;
          }
      met later false t k =
          let o = later k in
          record {
            before = x ∷ o.before;
            after = o.after;
            cut = ap (λ l. x ∷ l) o.cut;
            continues = o.continues;
            none_before = (t, o.none_before);
            none_after = o.none_after;
          }

  continuation_thrown :
      (load : ℕ → List ConversationAggregate) (x : RequestError) (c : ConversationAggregate)
      → continuation_of e trace request load (thrown x) ≡ returned (some c)
      → ⊥
  unfolding continuation_of
  continuation_thrown load x c k = cc

  continuation_matched :
      (load : ℕ → List ConversationAggregate) (canonical : CanonicalConversationRequest)
      (c : ConversationAggregate)
      → continuation_of e trace request load (returned canonical) ≡ returned (some c)
      → match_from e trace request canonical none (load (request_history_length canonical))
        ≡ returned (some c)
  unfolding continuation_of
  continuation_matched load canonical c k =
      elim (Bool-cases (not (is_full canonical.mode) || request_history_length canonical == 0)) [
        | inl a ↦ absurd (ground arith)
        | inr n ↦ ground arith
      ]

  -- A request without a key goes on with a stored conversation only if it is the one, of those
  -- that the store loads for the length of its history, that the planner would continue.
  pub anonymous_continuation-IsOnly :
      (load : ℕ → List ConversationAggregate) (c : ConversationAggregate)
      → anonymous_continuation e trace request load ≡ returned (some c)
      → (canonical : CanonicalConversationRequest) × (canonical_anonymous e trace request
          ≡ returned canonical)
        × IsOnly canonical (load (request_history_length canonical)) c
  unfolding anonymous_continuation
  anonymous_continuation-IsOnly load c h =
      elim (Bool-cases (not (length request.attachments == 0))) [
        | inl a ↦ absurd (ground arith)
        | inr n ↦ taken (canonical_anonymous e trace request) refl (ground arith)
      ]
    where
      taken :
          (r : Result RequestError CanonicalConversationRequest)
          → canonical_anonymous e trace request ≡ r
          → continuation_of e trace request load r ≡ returned (some c)
          → (canonical : CanonicalConversationRequest) × (canonical_anonymous e trace request
              ≡ returned canonical)
            × IsOnly canonical (load (request_history_length canonical)) c
      taken (thrown x) s k = absurd (continuation_thrown load x c k)
      taken (returned canonical) s k =
          (canonical, s, match_from-IsOnly canonical c _ (continuation_matched load canonical c k))
