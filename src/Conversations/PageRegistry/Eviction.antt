-- ===== src/Conversations/PageRegistry/Eviction.antt =====
-- Which binding src/conversations/page-registry.ts gives up for room.
use chatgpt_web_gateway.Base.{
  ℕ, ◌≤◌, ◌≡◌, refl, sym, ap, ◌∙◌, subst, ◌⊎◌, Bool, true, false, none, some, List, [], ◌∷◌, arith,
  ==_refl, if◌then◌else◌, inl, inr, Bool-cases, All,
}
use chatgpt_web_gateway.Text.{Text, text_eq}
use chatgpt_web_gateway.Conversations.PageRegistry.Order.{All-sort, sort-least, IsOlder}
use chatgpt_web_gateway.Conversations.PageRegistry.Keys.{
  IsMap, get-live, get-remove, All-get, open_binding, get-live_entries,
}
use chatgpt_web_gateway.Conversations.PageRegistry.{
  Binding, Entry, Registry, LeaseCall, released, is_closed, get, is_same, live_entries,
  delete_closed_bindings, idle_entries, sort, release_binding, evict_candidate,
  evict_least_recently_used_idle,
}

-- Entries that a predicate holds of, of those that are not closed.
All-live :
    (P : Entry → Type 0) (dead : List ℕ) (xs : List Entry)
    → All P xs
    → All (λ e. P e × (is_closed dead e.1.page ≡ false)) (live_entries dead xs)
unfolding live_entries
All-live P dead [] a = tt
All-live P dead ((k, b) ∷ more) (p, a) = elim (Bool-cases (is_closed dead b.page)) [
  | inl c ↦ rw c (All-live P dead more a)
  | inr n ↦ rw n ((p, n), All-live P dead more a)
]

live_closed :
    (k : Text) (b : Binding) (dead : List ℕ) (more : List Entry)
    → is_closed dead b.page ≡ true
    → live_entries dead ((k, b) ∷ more) ≡ live_entries dead more
unfolding live_entries
live_closed k b dead more c = ground arith

live_open :
    (k : Text) (b : Binding) (dead : List ℕ) (more : List Entry)
    → is_closed dead b.page ≡ false
    → live_entries dead ((k, b) ∷ more) ≡ (k, b) ∷ live_entries dead more
unfolding live_entries
live_open k b dead more c = ground arith

All-of_live :
    (P : Entry → Type 0) (dead : List ℕ) (xs : List Entry)
    → All P (live_entries dead xs)
    → All (λ e. (is_closed dead e.1.page ≡ true) ⊎ P e) xs
unfolding live_entries
All-of_live P dead [] a = tt
All-of_live P dead ((k, b) ∷ more) a = elim (Bool-cases (is_closed dead b.page)) [
  | inl c ↦ (inl c, All-of_live P dead more (subst (All P) (live_closed k b dead more c) a))
  | inr n ↦
      let (p, rest) = subst (All P) (live_open k b dead more n) a in
      (inr p, All-of_live P dead more rest)
]

idle_busy :
    (k : Text) (b : Binding) (more : List Entry)
    → b.busy ≡ true
    → idle_entries ((k, b) ∷ more) ≡ idle_entries more
unfolding idle_entries
idle_busy k b more c = ground arith

idle_free :
    (k : Text) (b : Binding) (more : List Entry)
    → b.busy ≡ false
    → idle_entries ((k, b) ∷ more) ≡ (k, b) ∷ idle_entries more
unfolding idle_entries
idle_free k b more c = ground arith

idle_nothing : (P : Entry → Type 0) → All P (idle_entries [])
unfolding idle_entries
idle_nothing P = tt

All-idle :
    (P : Entry → Type 0) (xs : List Entry)
    → All P xs
    → All (λ e. P e × (e.1.busy ≡ false)) (idle_entries xs)
All-idle P [] a = idle_nothing _
All-idle P ((k, b) ∷ more) (p, a) = elim (Bool-cases b.busy) [
  | inl c ↦ subst (All _) (sym (idle_busy k b more c)) (All-idle P more a)
  | inr n ↦ subst (All _) (sym (idle_free k b more n)) ((p, n), All-idle P more a)
]

pub All-of_idle :
    (P : Entry → Type 0) (xs : List Entry)
    → All P (idle_entries xs)
    → All (λ e. (e.1.busy ≡ true) ⊎ P e) xs
unfolding idle_entries
All-of_idle P [] a = tt
All-of_idle P ((k, b) ∷ more) a = elim (Bool-cases b.busy) [
  | inl c ↦ (inl c, All-of_idle P more (subst (All P) (idle_busy k b more c) a))
  | inr n ↦
      let (p, rest) = subst (All P) (idle_free k b more n) a in (inr p, All-of_idle P more rest)
]

-- The entries that eviction and the timer choose from.
abbrev choices : (dead : List ℕ) → List Entry → List Entry
choices dead xs = idle_entries (live_entries dead xs)

All-of_choices :
    (P : Entry → Type 0) (dead : List ℕ) (xs : List Entry)
    → All P (choices dead xs)
    → All (λ e. (is_closed dead e.1.page ≡ true) ⊎ ((e.1.busy ≡ true) ⊎ P e)) xs
All-of_choices P dead xs a =
    All-of_live (λ e. (e.1.busy ≡ true) ⊎ P e) dead xs (All-of_idle P (live_entries dead xs) a)

choices-All :
    (P : Entry → Type 0) (dead : List ℕ) (xs : List Entry)
    → All P xs
    → All (λ e. (P e × (is_closed dead e.1.page ≡ false)) × (e.1.busy ≡ false)) (choices dead xs)
choices-All P dead xs a = All-idle _ (live_entries dead xs) (All-live P dead xs a)

-- Released, the binding is out of the Map, and the others are as they were.
release-get :
    (dead : List ℕ) (e : Entry) (r : Registry) (id : Text)
    → IsMap r.bindings
    → get r.bindings e.0 ≡ some e.1
    → is_closed dead e.1.page ≡ false
    → get (release_binding e.0 e.1 (delete_closed_bindings dead r)).bindings id
      ≡ (if text_eq e.0 id then none else open_binding dead (get r.bindings id))
unfolding release_binding delete_closed_bindings is_same
release-get dead e r id m g alive =
    let live = live_entries dead r.bindings in
    rw (get-live e.0 e.1 dead r.bindings alive g, ==_refl e.1.identity)
      (get-remove e.0 id live
        ∙ ap (λ z. if text_eq e.0 id then none else z) (get-live_entries dead id r.bindings m))

module _ (locale_before : Text → Text → Bool) where
  evict_candidate-some :
      (xs : List Entry) (r r' : Registry) (call : LeaseCall)
      → evict_candidate locale_before xs r ≡ some (r', call)
      → (e : Entry) × (rest : List Entry) × (xs ≡ e ∷ rest)
        × (call ≡ released e.1.page)
        × (r' ≡ release_binding e.0 e.1 r)
  unfolding evict_candidate
  evict_candidate-some [] r r' call h = cc
  evict_candidate-some ((id, b) ∷ rest) r r' call h =
      ((id, b), rest, refl, ground arith, ground arith)

  -- Where each conversation is bound once, eviction releases the page of a conversation that is
  -- bound, not busy, with its page open, and none of the others like it was used before it. Of
  -- the registry, exactly its binding is gone, and those whose pages are closed; every other
  -- conversation is bound as before.
  pub evicts_least_recent :
      (dead : List ℕ) (r r' : Registry) (call : LeaseCall)
      → IsMap r.bindings
      → evict_least_recently_used_idle locale_before dead r ≡ some (r', call)
      → (e : Entry) × (get r.bindings e.0 ≡ some e.1)
        × (e.1.busy ≡ false)
        × (is_closed dead e.1.page ≡ false)
        × (call ≡ released e.1.page)
        × ((id : Text)
            → get r'.bindings id
              ≡ (if text_eq e.0 id then none else open_binding dead (get r.bindings id)))
        × All
            (λ o.
              (is_closed dead o.1.page ≡ true)
              ⊎ ((o.1.busy ≡ true) ⊎ (e.1.last_used_at ≤ o.1.last_used_at)))
            r.bindings
  unfolding evict_least_recently_used_idle delete_closed_bindings
  evicts_least_recent dead r r' call m h =
      let Found : Entry → Type 0 = λ o. get r.bindings o.0 ≡ some o.1 in
      let cs = choices dead r.bindings in
      let (e, rest, sorted, called, left) =
        evict_candidate-some (sort locale_before cs) (delete_closed_bindings dead r) r' call h in
      let chosen =
        subst (All (λ o. (Found o × (is_closed dead o.1.page ≡ false)) × (o.1.busy ≡ false))) sorted
          (All-sort locale_before
            (λ o. (Found o × (is_closed dead o.1.page ≡ false)) × (o.1.busy ≡ false)) cs
            (choices-All Found dead r.bindings (All-get r.bindings m))) in
      (
        e,
        chosen.0.0.0,
        chosen.0.1,
        chosen.0.0.1,
        called,
        λ id.
            ap (λ z. get z.bindings id) left ∙ release-get dead e r id m chosen.0.0.0 chosen.0.0.1,
        All-of_choices (IsOlder locale_before e) dead r.bindings
            (sort-least locale_before cs rest e sorted),
      )
