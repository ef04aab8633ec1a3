-- ===== src/Context/Planner/Turns.antt =====
-- How src/context/planner.ts cuts a request into history and pending turn.
use chatgpt_web_gateway.Base.{
  ℕ, zero, suc, ◌-◌, ◌≡◌, refl, ap, true, some, List, [], ◌∷◌, ◌++◌, arith, length, take, drop,
  take-append-drop, length-drop,
}
use chatgpt_web_gateway.Base.Results.{returned, bind-eq-returned, ◌>>=◌}
use chatgpt_web_gateway.Context.{CanonicalMessage, CanonicalConversationRequest}
use chatgpt_web_gateway.Context.Planner.{
  is_user, last_message, start_from, pending_start, pending_turn, request_history,
}

-- History and pending turn are the request, cut in two.
pub history-append-pending :
    (request : CanonicalConversationRequest) (history pending : List CanonicalMessage)
    → request_history request ≡ returned history
    → pending_turn request ≡ returned pending
    → history ++ pending ≡ request.messages
unfolding request_history pending_turn
history-append-pending request history pending h p =
    let (start, s, e) = bind-eq-returned (pending_start request) _ _ h in
    let (start', s', e') = bind-eq-returned (pending_start request) _ _ p in
    let same : start ≡ start' = ground arith in
    let front : history ≡ take start request.messages = ground arith in
    let back : pending ≡ drop start request.messages = ground arith in
    rw (front, back) (take-append-drop start request.messages)

-- The pending turn is an end of the request.
pub pending_turn-drop :
    (request : CanonicalConversationRequest) (pending : List CanonicalMessage)
    → pending_turn request ≡ returned pending
    → (start : ℕ) × (pending ≡ drop start request.messages)
unfolding pending_turn
pending_turn-drop request pending p =
    let (start, s, e) = bind-eq-returned (pending_start request) _ _ p in (start, ground arith)

-- A pending turn comes with a history.
pub request_history_of_pending :
    (request : CanonicalConversationRequest) (pending : List CanonicalMessage)
    → pending_turn request ≡ returned pending
    → (history : List CanonicalMessage) × (request_history request ≡ returned history)
unfolding request_history pending_turn
request_history_of_pending request pending p =
    let (start, s, e) = bind-eq-returned (pending_start request) _ _ p in
    (take start request.messages, ap (λ r. r >>= λ n. returned (take n request.messages)) s)

-- Two ends of a list that are of one length are one.
pub drop_eq_of_length {ℓ} :
    {A : Type ℓ} (m n : ℕ) (xs : List A)
    → length (drop m xs) ≡ length (drop n xs)
    → drop m xs ≡ drop n xs
drop_eq_of_length zero zero xs e = refl
drop_eq_of_length zero (suc n) [] e = refl
drop_eq_of_length {A} zero (suc n) (x ∷ xs) e = absurd (omega (arith, length-drop {A = A} n xs))
drop_eq_of_length (suc m) zero [] e = refl
drop_eq_of_length {A} (suc m) zero (x ∷ xs) e = absurd (omega (arith, length-drop {A = A} m xs))
drop_eq_of_length (suc m) (suc n) [] e = refl
drop_eq_of_length (suc m) (suc n) (x ∷ xs) e = drop_eq_of_length m n xs e

pub drop-length_pred :
    (messages : List CanonicalMessage) (last : CanonicalMessage)
    → last_message messages ≡ some last
    → drop (length messages - 1) messages ≡ last ∷ []
unfolding last_message
drop-length_pred [] last e = cc
drop-length_pred (m ∷ []) last e = ground arith
drop-length_pred (m ∷ n ∷ ms) last e =
    let shorter : length (m ∷ n ∷ ms) - 1 ≡ suc (length (n ∷ ms) - 1) = omega arith in
    rw shorter (drop-length_pred (n ∷ ms) last e)

-- A request that ends with a user message has this message as its pending turn.
pub pending_turn_of_user :
    (request : CanonicalConversationRequest) (last : CanonicalMessage)
    → last_message request.messages ≡ some last
    → is_user last ≡ true
    → pending_turn request ≡ returned (last ∷ [])
unfolding pending_turn pending_start start_from
pending_turn_of_user request last e u =
    rw (e, u, start_from) (ap returned (drop-length_pred request.messages last e))
