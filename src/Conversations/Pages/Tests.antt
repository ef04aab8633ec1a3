-- ===== src/Conversations/Pages/Tests.antt =====
-- A manager with two idle affinities.
use chatgpt_web_gateway.Base.{true, false, [], ◌∷◌}
use chatgpt_web_gateway.Text.{text}
use chatgpt_web_gateway.Conversations.Pages.{Keyed, Manager}

abbrev newer : Keyed
newer = (text "a", record { identity = 0; page = 1; active = false; last_used_at = 9 })

abbrev older : Keyed
older = (text "b", record { identity = 1; page = 2; active = false; last_used_at = 4 })

abbrev in_use : Keyed
in_use = (text "c", record { identity = 2; page = 3; active = true; last_used_at = 1 })

abbrev three_pages : Manager
three_pages = record { affinities = newer ∷ older ∷ in_use ∷ []; closed = false; next_identity = 3 }

abbrev two_pages : Manager
two_pages = record three_pages { affinities = newer ∷ in_use ∷ [] }
