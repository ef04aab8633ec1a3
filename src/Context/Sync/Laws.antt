-- ===== src/Context/Sync/Laws.antt =====
-- When src/context/sync.ts continues a stored conversation.
use chatgpt_web_gateway.Base.{
  ℕ, ◌≤◌, ◌≡◌, refl, sym, subst, ◌⊎◌, ◌↔◌, Bool, true, false, Option, none, some, List, [], ◌∷◌,
  arith, inl, inr, Bool-cases, length, drop, take,
}
use chatgpt_web_gateway.Text.{Text}
use chatgpt_web_gateway.Text.Laws.{text_eq_iff}
use chatgpt_web_gateway.Context.Sync.{
  InstructionRole, system_role, developer_role, ContextInstruction, ContextContentPart, text_part,
  attachment_part, ContextToolCall, ContextRole, user_role, assistant_role, tool_role,
  ContextMessage, append_mode, restore_mode, rebuild_mode, PersistedContextSnapshot, SyncPlan,
  PlanContextSyncOptions, content_part_equal, tool_call_equal, every_equal, same_role, same_id,
  calls_of, all_equal, message_equal, same_instruction_role, instruction_equal, instructions_equal,
  has_persisted_prefix, plan_with_url, plan_new_messages, plan_persisted, plan_from,
  plan_context_sync,
}

all_equal_iff :
    {A : Type 0} (equal : A → A → Bool)
    → ((x y : A) → (equal x y ≡ true) ↔ (x ≡ y))
    → (xs ys : List A) → (all_equal equal xs ys ≡ true) ↔ (xs ≡ ys)
unfolding all_equal every_equal
all_equal_iff equal iff [] [] = ground arith
all_equal_iff equal iff [] (y ∷ ys) = ground arith
all_equal_iff equal iff (x ∷ xs) [] = ground arith
all_equal_iff equal iff (x ∷ xs) (y ∷ ys) = ground (arith, iff x y, all_equal_iff equal iff xs ys)

same_instruction_role_iff : (l r : InstructionRole) → (same_instruction_role l r ≡ true) ↔ (l ≡ r)
unfolding same_instruction_role
same_instruction_role_iff system_role system_role = ground arith
same_instruction_role_iff developer_role developer_role = ground arith
same_instruction_role_iff system_role developer_role = ground arith
same_instruction_role_iff developer_role system_role = ground arith

instruction_equal_iff : (l r : ContextInstruction) → (instruction_equal l r ≡ true) ↔ (l ≡ r)
unfolding instruction_equal
instruction_equal_iff l r =
    ground (arith, same_instruction_role_iff l.role r.role, text_eq_iff l.content r.content)

content_part_equal_iff : (l r : ContextContentPart) → (content_part_equal l r ≡ true) ↔ (l ≡ r)
unfolding content_part_equal
content_part_equal_iff (text_part s) (text_part t) = ground (arith, text_eq_iff s t)
content_part_equal_iff (attachment_part s) (attachment_part t) = ground (arith, text_eq_iff s t)
content_part_equal_iff (text_part s) (attachment_part t) = ground arith
content_part_equal_iff (attachment_part s) (text_part t) = ground arith

tool_call_equal_iff : (l r : ContextToolCall) → (tool_call_equal l r ≡ true) ↔ (l ≡ r)
unfolding tool_call_equal
tool_call_equal_iff l r =
    ground
      (arith, text_eq_iff l.id r.id, text_eq_iff l.name r.name, text_eq_iff l.arguments r.arguments)

same_role_iff : (l r : ContextRole) → (same_role l r ≡ true) ↔ (l ≡ r)
unfolding same_role
same_role_iff user_role user_role = ground arith
same_role_iff user_role assistant_role = ground arith
same_role_iff user_role tool_role = ground arith
same_role_iff assistant_role user_role = ground arith
same_role_iff assistant_role assistant_role = ground arith
same_role_iff assistant_role tool_role = ground arith
same_role_iff tool_role user_role = ground arith
same_role_iff tool_role assistant_role = ground arith
same_role_iff tool_role tool_role = ground arith

same_id_iff : (l r : Option Text) → (same_id l r ≡ true) ↔ (l ≡ r)
unfolding same_id
same_id_iff none none = ground arith
same_id_iff none (some t) = ground arith
same_id_iff (some s) none = ground arith
same_id_iff (some s) (some t) = ground (arith, text_eq_iff s t)

-- A message with an absent list of tool calls made empty.
abbrev pub bare : ContextMessage → ContextMessage
bare m = record m { tool_calls = some (calls_of m.tool_calls) }

message_equal_iff : (l r : ContextMessage) → (message_equal l r ≡ true) ↔ (bare l ≡ bare r)
unfolding message_equal
message_equal_iff l r = ground (
  arith,
  same_role_iff l.role r.role,
  same_id_iff l.tool_call_id r.tool_call_id,
  all_equal_iff content_part_equal content_part_equal_iff l.content r.content,
  all_equal_iff tool_call_equal tool_call_equal_iff (calls_of l.tool_calls) (calls_of r.tool_calls),
)

abbrev pub bare_all : List ContextMessage → List ContextMessage
bare_all [] = []
bare_all (m ∷ ms) = bare m ∷ bare_all ms

has_persisted_prefix_iff :
    (current persisted : List ContextMessage)
    → (has_persisted_prefix current persisted ≡ true) ↔ (
        (length persisted ≤ length current)
        × (bare_all persisted ≡ bare_all (take (length persisted) current)))
unfolding has_persisted_prefix every_equal
has_persisted_prefix_iff current [] = ground arith
has_persisted_prefix_iff [] (p ∷ ps) = ground arith
has_persisted_prefix_iff (c ∷ cs) (p ∷ ps) =
    ground (arith, message_equal_iff p c, has_persisted_prefix_iff cs ps)

-- What lets a stored conversation go on with the request: the same instructions, the stored messages
-- first, then one message of the user, and a URL.
pub record Continues (o : PlanContextSyncOptions) (p : PersistedContextSnapshot)
    (m : ContextMessage) : Type 0 where
  pub same_instructions : o.instructions ≡ p.instructions
  pub long_enough : length p.messages ≤ length o.messages
  pub same_history : bare_all p.messages ≡ bare_all (take (length p.messages) o.messages)
  pub one_new : drop (length p.messages) o.messages ≡ m ∷ []
  pub by_user : m.role ≡ user_role
  pub has_url : (c : ℕ) × (cs : Text) × (p.conversation_url ≡ some (c ∷ cs))

abbrev pub rebuild_plan : SyncPlan
rebuild_plan = record { mode = rebuild_mode; append_messages = [] }

abbrev pub continued : (warm : Bool) → ContextMessage → SyncPlan
continued true m = record { mode = append_mode; append_messages = m ∷ [] }
continued false m = record { mode = restore_mode; append_messages = m ∷ [] }

-- The plan goes on with the stored conversation, or it cannot and rebuilds.
abbrev pub Decided : PlanContextSyncOptions → PersistedContextSnapshot → SyncPlan → Type 0
Decided o p plan =
    ((m : ContextMessage) × Continues o p m × (plan ≡ continued o.has_warm_page m))
    ⊎ ((plan ≡ rebuild_plan) × ((m : ContextMessage) → ¬ Continues o p m))

with_url :
    (warm : Bool) (url : Option Text) (m : ContextMessage)
    → ((c : ℕ) × (cs : Text) × (url ≡ some (c ∷ cs))
        × (plan_with_url warm url (m ∷ []) ≡ continued warm m))
      ⊎ ((plan_with_url warm url (m ∷ []) ≡ rebuild_plan)
          × ((c : ℕ) (cs : Text) → ¬ (url ≡ some (c ∷ cs))))
unfolding plan_with_url
with_url warm none m = inr (refl, λ c cs e. cc)
with_url warm (some []) m = inr (refl, λ c cs e. cc)
with_url true (some (c ∷ cs)) m = inl (c, cs, refl, refl)
with_url false (some (c ∷ cs)) m = inl (c, cs, refl, refl)

new_messages :
    (o : PlanContextSyncOptions) (p : PersistedContextSnapshot) (new : List ContextMessage)
    → drop (length p.messages) o.messages ≡ new
    → o.instructions ≡ p.instructions
    → length p.messages ≤ length o.messages
    → bare_all p.messages ≡ bare_all (take (length p.messages) o.messages)
    → Decided o p (plan_new_messages o.has_warm_page p.conversation_url new)
unfolding plan_new_messages
new_messages o p [] e i l s = inr (refl, λ m c. let one = c.one_new in cc)
new_messages o p (m ∷ n ∷ more) e i l s = inr (refl, λ k c. let one = c.one_new in cc)
new_messages o p (m ∷ []) e i l s = elim (Bool-cases (same_role m.role user_role)) [
  | inr other ↦ rw other (
      inr (
        refl,
        λ k c.
            let same : k ≡ m = let one = c.one_new in cc in
            let user = subst (λ x. x.role ≡ user_role) same c.by_user in
            absurd (ground (arith, (same_role_iff m.role user_role).1 user)),
      ))
  | inl user ↦ rw user (elim (with_url o.has_warm_page p.conversation_url m) [
    | inl (c, cs, url, plan) ↦ inl (
      m,
      record {
        same_instructions = i;
        long_enough = l;
        same_history = s;
        one_new = e;
        by_user = (same_role_iff m.role user_role).0 user;
        has_url = (c, cs, url);
      },
      plan,
    )
    | inr (plan, missing) ↦ inr (plan, λ k c. let (x, xs, url) = c.has_url in missing x xs url)
  ])
]

persisted-Decided :
    (o : PlanContextSyncOptions) (p : PersistedContextSnapshot) → Decided o p (plan_persisted o p)
unfolding plan_persisted instructions_equal
persisted-Decided o p =
    elim (Bool-cases (all_equal instruction_equal o.instructions p.instructions)) [
      | inr other ↦ rw other (
          inr (
            refl,
            λ m c. absurd (
                ground (
                  arith,
                  (all_equal_iff instruction_equal instruction_equal_iff o.instructions
                        p.instructions).1
                      c.same_instructions,
                )),
          ))
      | inl same ↦ rw same (elim (Bool-cases (has_persisted_prefix o.messages p.messages)) [
        | inr other ↦ rw other (
            inr (
              refl,
              λ m c. absurd (
                  ground (
                    arith,
                    (has_persisted_prefix_iff o.messages p.messages).1
                        (c.long_enough, c.same_history),
                  )),
            ))
        | inl first ↦
            let (l, s) = (has_persisted_prefix_iff o.messages p.messages).0 first in
            rw first (
              new_messages o p _ refl
                ((all_equal_iff instruction_equal instruction_equal_iff o.instructions
                    p.instructions).0
                  same)
                l s)
      ])
    ]

-- With a stored conversation, the plan sends one new message of the user on its page, or restores
-- the page first if it is not warm, exactly when the instructions are the same, the request is the
-- stored messages and that message, and the conversation has a URL that is not empty; else it
-- rebuilds. An absent list of tool calls counts as an empty one.
pub plan_context_sync-Decided :
    (o : PlanContextSyncOptions) (p : PersistedContextSnapshot)
    → o.persisted ≡ some p
    → Decided o p (plan_context_sync o)
unfolding plan_context_sync plan_from
plan_context_sync-Decided o p e =
    subst (λ st. Decided o p (plan_from o st)) (sym e) (persisted-Decided o p)
