-- ===== src/Context/Canonicalize.antt =====
-- src/context/canonicalize.ts: the instructions of a request, parted by role.
use chatgpt_web_gateway.Base.{◌≡◌, refl, List, [], ◌∷◌, ◌++◌}
use chatgpt_web_gateway.Text.{Text, text}
use chatgpt_web_gateway.Context.{CanonicalInstructions}

pub data InstructionRole : Type 0 where
  system_role developer_role : InstructionRole

pub record CanonicalInstructionInput : Type 0 where
  pub role : InstructionRole
  pub content : Text

-- The loop, with the texts pushed so far
unfoldable pub push_instructions :
    (system developer : List Text) → List CanonicalInstructionInput → CanonicalInstructions
push_instructions system developer [] = record { system = system; developer = developer }
push_instructions system developer (i ∷ more) = elim i.role as (λ x. CanonicalInstructions) [
  | system_role ↦ push_instructions (system ++ (i.content ∷ [])) developer more
  | developer_role ↦ push_instructions system (developer ++ (i.content ∷ [])) more
]

unfoldable pub canonicalize_instructions : List CanonicalInstructionInput → CanonicalInstructions
unfolding push_instructions
canonicalize_instructions instructions = push_instructions [] [] instructions

mixed :
    canonicalize_instructions (
      record { role = developer_role; content = text "b" }
      ∷ record { role = system_role; content = text "a" }
      ∷ record { role = developer_role; content = text "c" }
      ∷ [])
    ≡ record { system = text "a" ∷ []; developer = text "b" ∷ text "c" ∷ [] }
unfolding canonicalize_instructions push_instructions
mixed = refl
