-- ===== src/Conversations/PageRegistry/Tests.antt =====
-- Registries of a few conversations, with ids in the order of their lengths.
use chatgpt_web_gateway.Base.{
  ℕ, ◌≤◌, ◌≡◌, refl, ◌⊎◌, Bool, true, false, none, some, [], ◌∷◌, All, ltb, length, if◌then◌else◌,
}
use chatgpt_web_gateway.Text.{Text, text, text_eq}
use chatgpt_web_gateway.Conversations.PageRegistry.{
  Entry, Registry, Session, released, is_closed, get, is_same, delete_closed_bindings,
  release_binding, evict_least_recently_used_idle, schedule_earliest_expiry, acquire_end, complete,
  registry_runs, expire_begin,
}
use chatgpt_web_gateway.Conversations.PageRegistry.Keys.{IsMap, open_binding}
use chatgpt_web_gateway.Conversations.PageRegistry.Eviction.{evicts_least_recent}
use chatgpt_web_gateway.Conversations.PageRegistry.Timer.{IsCovered, completes, timer_covers}
use chatgpt_web_gateway.Conversations.PageRegistry.Others.{Others}
use chatgpt_web_gateway.Conversations.PageRegistry.Others

abbrev shorter : Text → Text → Bool
shorter s t = ltb (length s) (length t)

abbrev entry : Text → ℕ → Bool → ℕ → Entry
entry id page busy last =
    (id, record { identity = page; page = page; busy = busy; last_used_at = last })

-- Page 4 is closed.
abbrev four : Registry
four = record {
  bindings =
      entry (text "a") 1 false 50
      ∷ entry (text "b") 2 true 10
      ∷ entry (text "c") 3 false 20
      ∷ entry (text "d") 4 false 5
      ∷ [];
  timer = none;
  closed = false;
  next_identity = 9;
}

abbrev three : Registry
three = record four { bindings = entry (text "a") 1 false 50 ∷ entry (text "b") 2 true 10 ∷ [] }

evicted : evict_least_recently_used_idle shorter (4 ∷ []) four ≡ some (three, released 3)
unfolding registry_runs text_eq
evicted = refl

scheduled : (schedule_earliest_expiry shorter 100 60 (4 ∷ []) four).timer ≡ some 60
unfolding registry_runs text_eq
scheduled = refl

expires : (expire_begin shorter 30 60 (4 ∷ []) four).1 ≡ entry (text "c") 3 false 20 ∷ []
unfolding registry_runs text_eq
expires = refl

four-IsMap : IsMap four.bindings
unfolding registry_runs text_eq
four-IsMap = (refl, (refl, (refl, (refl, tt))))

evicts_least_recent_example :
    (e : Entry) × (get four.bindings e.0 ≡ some e.1)
    × (e.1.busy ≡ false)
    × (is_closed (4 ∷ []) e.1.page ≡ false)
    × (released 3 ≡ released e.1.page)
    × ((id : Text)
        → get three.bindings id
          ≡ (if text_eq e.0 id then none else open_binding (4 ∷ []) (get four.bindings id)))
    × All
        (λ o.
          (is_closed (4 ∷ []) o.1.page ≡ true)
          ⊎ ((o.1.busy ≡ true) ⊎ (e.1.last_used_at ≤ o.1.last_used_at)))
        four.bindings
evicts_least_recent_example =
    evicts_least_recent shorter (4 ∷ []) four three (released 3) four-IsMap evicted

-- The session of the conversation that is busy
abbrev b_session : Session
b_session = record { session_page = 2; holds = some (entry (text "b") 2 true 10); active = true }

b_is_bound : is_same (get four.bindings (text "b")) (entry (text "b") 2 true 10).1 ≡ true
unfolding registry_runs text_eq
b_is_bound = refl

timer_covers_example : IsCovered 100 60 (complete shorter 100 60 (4 ∷ []) b_session four).1
timer_covers_example =
    timer_covers shorter 100 60 (4 ∷ []) four (complete shorter 100 60 (4 ∷ []) b_session four).1
      refl (completes b_session (entry (text "b") 2 true 10) refl refl b_is_bound)

abbrev e_session : Session
e_session = (acquire_end shorter 100 60 (4 ∷ []) (some (text "e")) 7 four).0

-- Meanwhile another conversation is evicted.
abbrev meanwhile : Registry
meanwhile = release_binding (text "c") (entry (text "c") 3 false 20).1 (
    delete_closed_bindings (4 ∷ [])
      (acquire_end shorter 100 60 (4 ∷ []) (some (text "e")) 7 four).1)

-- And later another one completes.
abbrev afterwards : Registry
afterwards =
    (complete shorter 100 75 (4 ∷ []) b_session
      (complete shorter 100 70 (4 ∷ []) e_session meanwhile).1).1
