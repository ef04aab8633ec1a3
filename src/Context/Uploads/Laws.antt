-- ===== src/Context/Uploads/Laws.antt =====
-- The choice of attachments of src/context/multimodal.ts, and the role of a serialised message.
use chatgpt_web_gateway.Base.{
  ◌≡◌, refl, ◌∙◌, Bool, false, ◌||◌, List, [], ◌∷◌, ◌++◌, arith, any, inl, inr, Bool-cases,
}
use chatgpt_web_gateway.Text.{Text, text_eq}
use chatgpt_web_gateway.Text.Laws.{text_eq_iff}
use chatgpt_web_gateway.Text.Sets.{has}
use chatgpt_web_gateway.Context.{
  CanonicalMessage, ContextSyncPlan, fresh_plan, append_plan, restore_plan, rebuild_plan,
}
use chatgpt_web_gateway.Context.Uploads.{
  attachment_references, take_unseen, collect_references, uploaded_messages,
  select_upload_attachment_references,
}

abbrev pub HasNoRepeat : List Text → Type 0
HasNoRepeat [] = Unit
HasNoRepeat (x ∷ xs) = (has xs x ≡ false) × HasNoRepeat xs

has-append : (xs ys : List Text) (r : Text) → has (xs ++ ys) r ≡ (has xs r || has ys r)
has-append [] ys r = refl
has-append (x ∷ xs) ys r = ground (arith, has-append xs ys r)

text_eq_comm : (s t : Text) → text_eq s t ≡ text_eq t s
text_eq_comm s t = ground (arith, text_eq_iff s t, text_eq_iff t s)

HasNoRepeat-snoc :
    (xs : List Text) (x : Text) → HasNoRepeat xs → has xs x ≡ false → HasNoRepeat (xs ++ (x ∷ []))
HasNoRepeat-snoc [] x u h = (refl, tt)
HasNoRepeat-snoc (y ∷ ys) x (f, u) h = (
  ground (arith, has-append ys (x ∷ []) y, text_eq_comm x y),
  HasNoRepeat-snoc ys x u (ground arith),
)

take_unseen-HasNoRepeat :
    (seen refs : List Text) → HasNoRepeat seen → HasNoRepeat (take_unseen seen refs)
unfolding take_unseen
take_unseen-HasNoRepeat seen [] u = u
take_unseen-HasNoRepeat seen (r ∷ rs) u = elim (Bool-cases (has seen r)) [
  | inl h ↦ rw h (take_unseen-HasNoRepeat seen rs u)
  | inr n ↦ rw n (take_unseen-HasNoRepeat (seen ++ (r ∷ [])) rs (HasNoRepeat-snoc seen r u n))
]

-- The references met are those before and those of the list.
has-take_unseen :
    (seen refs : List Text) (r : Text) → has (take_unseen seen refs) r ≡ (has seen r || has refs r)
unfolding take_unseen
has-take_unseen seen [] r = ground arith
has-take_unseen seen (x ∷ xs) r = elim (Bool-cases (text_eq r x)) [
  | inl e ↦
      let same : r ≡ x = (text_eq_iff r x).0 e in
      ground (
        arith,
        same,
        has-take_unseen seen xs r,
        has-take_unseen (seen ++ (x ∷ [])) xs r,
        has-append seen (x ∷ []) r,
      )
  | inr n ↦ ground (
    arith,
    has-take_unseen seen xs r,
    has-take_unseen (seen ++ (x ∷ [])) xs r,
    has-append seen (x ∷ []) r,
  )
]

collect-HasNoRepeat :
    (seen : List Text) (messages : List CanonicalMessage)
    → HasNoRepeat seen
    → HasNoRepeat (collect_references seen messages)
unfolding collect_references
collect-HasNoRepeat seen [] u = u
collect-HasNoRepeat seen (m ∷ ms) u =
    collect-HasNoRepeat (take_unseen seen (attachment_references m)) ms
      (take_unseen-HasNoRepeat seen (attachment_references m) u)

has-collect :
    (seen : List Text) (messages : List CanonicalMessage) (r : Text)
    → has (collect_references seen messages) r
      ≡ (has seen r || any (λ m. has (attachment_references m) r) messages)
unfolding collect_references
has-collect seen [] r = ground arith
has-collect seen (m ∷ ms) r = ground (
  arith,
  has-collect (take_unseen seen (attachment_references m)) ms r,
  has-take_unseen seen (attachment_references m) r,
)

-- The turn that a plan sends
abbrev pub pending_of : ContextSyncPlan → List CanonicalMessage
pending_of (fresh_plan history pending) = pending
pending_of (rebuild_plan reason history pending) = pending
pending_of (append_plan pending) = pending
pending_of (restore_plan pending) = pending

-- The messages before it that a new web conversation has to be told
abbrev pub history_of : ContextSyncPlan → List CanonicalMessage
history_of (fresh_plan history pending) = history
history_of (rebuild_plan reason history pending) = history
history_of (append_plan pending) = []
history_of (restore_plan pending) = []

abbrev pub mentions : List CanonicalMessage → Text → Bool
mentions messages reference = any (λ m. has (attachment_references m) reference) messages

mentions-append :
    (xs ys : List CanonicalMessage) (r : Text)
    → mentions (xs ++ ys) r ≡ (mentions xs r || mentions ys r)
mentions-append [] ys r = refl
mentions-append (x ∷ xs) ys r = ground (arith, mentions-append xs ys r)

mentions-uploaded :
    (plan : ContextSyncPlan) (r : Text)
    → mentions (uploaded_messages plan) r
      ≡ (mentions (history_of plan) r || mentions (pending_of plan) r)
unfolding uploaded_messages
mentions-uploaded (fresh_plan history pending) r = mentions-append history pending r
mentions-uploaded (rebuild_plan reason history pending) r = mentions-append history pending r
mentions-uploaded (append_plan pending) r = refl
mentions-uploaded (restore_plan pending) r = refl

-- A plan uploads no attachment twice, and it uploads exactly the attachments that its pending
-- turn or its history mentions; the history counts for a fresh or a rebuilt conversation only,
-- which the web conversation has not seen.
pub uploads_once :
    (plan : ContextSyncPlan)
    → HasNoRepeat (select_upload_attachment_references plan)
      × ((reference : Text)
          → has (select_upload_attachment_references plan) reference
            ≡ (mentions (history_of plan) reference || mentions (pending_of plan) reference))
unfolding select_upload_attachment_references
uploads_once plan = (
  collect-HasNoRepeat [] (uploaded_messages plan) tt,
  λ r. has-collect [] (uploaded_messages plan) r ∙ mentions-uploaded plan r,
)
