-- ===== src/Conversations/Aggregate/Build/Kept.antt =====
-- Which stored messages src/conversations/aggregate-builder.ts keeps.
use chatgpt_web_gateway.Base.{ℕ, zero, suc, ◌≡◌, true, List, [], ◌∷◌}
use chatgpt_web_gateway.Text.{Text}
use chatgpt_web_gateway.Context.{CanonicalMessage}
use chatgpt_web_gateway.Context.Fingerprint.{Digest}
use chatgpt_web_gateway.Conversations.Aggregate.{MessageRecord, ConversationAggregate}
use chatgpt_web_gateway.Conversations.Aggregate.Build.{same_message, canonical_at, rest_of}

-- The first k stored messages are the same as the first k of the request.
unfoldable pub AreSame :
    (d : Digest) (stored : ConversationAggregate) (k : ℕ) (canonical : List CanonicalMessage)
    → List MessageRecord
    → List CanonicalMessage
    → Type 0
AreSame d stored zero canonical ms as' = Unit
AreSame d stored (suc k) canonical [] as' = ⊥
AreSame d stored (suc k) canonical (m ∷ ms) [] = ⊥
AreSame d stored (suc k) canonical (m ∷ ms) (a ∷ as') =
    (same_message d (canonical_at canonical m stored) a ≡ true)
    × AreSame d stored k (rest_of canonical) ms as'
