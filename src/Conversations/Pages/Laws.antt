-- ===== src/Conversations/Pages/Laws.antt =====
-- Which affinity src/conversations/conversation-pages.ts gives up for room.
use chatgpt_web_gateway.Base.{◌≤◌, ◌≡◌, ◌⊎◌, true, false, List, All}
use chatgpt_web_gateway.Conversations.Pages.{Keyed}

-- The candidate so far: it is idle, and no idle affinity of a list was used before it.
pub record IsLeast (xs : List Keyed) (e : Keyed) : Type 0 where
  pub is_idle : e.1.active ≡ false
  pub least : All (λ o. (o.1.active ≡ true) ⊎ (e.1.last_used_at ≤ o.1.last_used_at)) xs
