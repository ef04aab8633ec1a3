-- ===== src/Conversations/PageRegistry/Bound.antt =====
-- A conversation stays bound to its page over what src/conversations/page-registry.ts does to bindings.
use chatgpt_web_gateway.Base.{
  ℕ, ◌≡◌, ◌∙◌, Bool, true, false, some, List, arith, if◌then◌else◌, inl, inr, Bool-cases,
}
use chatgpt_web_gateway.Text.{Text, text_eq}
use chatgpt_web_gateway.Conversations.PageRegistry.Keys.{get-set_other, get-remove, get-live}
use chatgpt_web_gateway.Conversations.PageRegistry.{
  Binding, Registry, is_closed, get, set, remove, is_same, delete_closed_bindings, release_binding,
  schedule_earliest_expiry,
}

-- The registry is open, and the conversation is bound so.
pub record IsBound (id : Text) (b : Binding) (r : Registry) : Type 0 where
  pub found : get r.bindings id ≡ some b
  pub still_open : r.closed ≡ false

pub set-IsBound :
    (id other : Text) (b c : Binding) (r : Registry) (next : ℕ)
    → text_eq other id ≡ false
    → IsBound id b r
    → IsBound id b (record r { bindings = set other c r.bindings; next_identity = next })
set-IsBound id other b c r next d i = record {
  found = get-set_other other id c r.bindings d ∙ i.found;
  still_open = i.still_open;
}

pub remove-IsBound :
    (id other : Text) (b : Binding) (r : Registry)
    → text_eq other id ≡ false
    → IsBound id b r
    → IsBound id b (record r { bindings = remove other r.bindings })
remove-IsBound id other b r d i = record {
  found = get-remove other id r.bindings ∙ ground (arith, i.found);
  still_open = i.still_open;
}

pub sweep-IsBound :
    (id : Text) (b : Binding) (dead : List ℕ) (r : Registry)
    → is_closed dead b.page ≡ false
    → IsBound id b r
    → IsBound id b (delete_closed_bindings dead r)
unfolding delete_closed_bindings
sweep-IsBound id b dead r alive i = record {
  found = get-live id b dead r.bindings alive i.found;
  still_open = i.still_open;
}

pub release-IsBound :
    (id other : Text) (b c : Binding) (r : Registry)
    → text_eq other id ≡ false
    → IsBound id b r
    → IsBound id b (release_binding other c r)
unfolding release_binding
release-IsBound id other b c r d i = elim (Bool-cases (is_same (get r.bindings other) c)) [
  | inl e ↦ rw e (remove-IsBound id other b r d i)
  | inr n ↦ rw n i
]

otherwise-IsBound :
    (id : Text) (b : Binding) (test : Bool) (r s : Registry)
    → test ≡ false
    → IsBound id b s
    → IsBound id b (if test then r else s)
otherwise-IsBound id b test r s e i = rw e i

pub either-IsBound :
    (id : Text) (b : Binding) (test : Bool) (r s : Registry)
    → IsBound id b r
    → IsBound id b s
    → IsBound id b (if test then r else s)
either-IsBound id b true r s i j = i
either-IsBound id b false r s i j = j

module _ (locale_before : Text → Text → Bool) (timeout : ℕ) where
  pub schedule-IsBound :
      (now : ℕ) (dead : List ℕ) (id : Text) (b : Binding) (r : Registry)
      → is_closed dead b.page ≡ false
      → IsBound id b r
      → IsBound id b (schedule_earliest_expiry locale_before timeout now dead r)
  unfolding schedule_earliest_expiry
  schedule-IsBound now dead id b r alive i =
      let swept = sweep-IsBound id b dead r alive i in
      otherwise-IsBound id b r.closed _ _ i.still_open
        (record { found = swept.found; still_open = swept.still_open })
