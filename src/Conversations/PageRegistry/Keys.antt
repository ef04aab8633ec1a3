-- ===== src/Conversations/PageRegistry/Keys.antt =====
-- The Map of bindings of src/conversations/page-registry.ts, as a list of its entries.
use chatgpt_web_gateway.Base.{
  ℕ, ◌≡◌, refl, sym, ap, ◌∙◌, false, Option, none, some, List, [], ◌∷◌, arith, if◌then◌else◌, inl,
  inr, Bool-cases, All, All-mono,
}
use chatgpt_web_gateway.Text.{Text, text_eq}
use chatgpt_web_gateway.Text.Laws.{text_eq_iff, text_eq_refl}
use chatgpt_web_gateway.Conversations.PageRegistry.{
  Binding, Entry, is_closed, get, remove, set, live_entries,
}

-- A Map has each key once.
abbrev pub IsMap : List Entry → Type 0
IsMap [] = Unit
IsMap ((k, b) ∷ more) = (get more k ≡ none) × IsMap more

pub get-set : (id : Text) (b : Binding) (xs : List Entry) → get (set id b xs) id ≡ some b
unfolding get set
get-set id b [] = ground (arith, text_eq_refl id)
get-set id b ((k, c) ∷ more) = ground (arith, get-set id b more)

pub get-set_other :
    (other id : Text) (b : Binding) (xs : List Entry)
    → text_eq other id ≡ false
    → get (set other b xs) id ≡ get xs id
unfolding get set
get-set_other other id b [] d = ground arith
get-set_other other id b ((k, c) ∷ more) d = elim (Bool-cases (text_eq k other)) [
  | inl e ↦
      let same : k ≡ other = (text_eq_iff k other).0 e in
      let apart : text_eq k id ≡ false = ap (λ z. text_eq z id) same ∙ d in ground arith
  | inr n ↦ ground (arith, get-set_other other id b more d)
]

pub get-remove :
    (gone id : Text) (xs : List Entry)
    → get (remove gone xs) id ≡ (if text_eq gone id then none else get xs id)
unfolding get remove
get-remove gone id [] = ground arith
get-remove gone id ((k, b) ∷ more) = elim (Bool-cases (text_eq k gone)) [
  | inl e ↦
      let same : k ≡ gone = (text_eq_iff k gone).0 e in
      let alike : text_eq k id ≡ text_eq gone id = ap (λ z. text_eq z id) same in
      ground (arith, get-remove gone id more)
  | inr n ↦ elim (Bool-cases (text_eq k id)) [
    | inl i ↦
        let same : k ≡ id = (text_eq_iff k id).0 i in
        let apart : text_eq gone id ≡ false = elim (Bool-cases (text_eq gone id)) [
          | inl g ↦
              absurd
                (ground (arith, (text_eq_iff k gone).1 (same ∙ sym ((text_eq_iff gone id).0 g))))
          | inr g ↦ g
        ] in
        ground arith
    | inr d ↦ ground (arith, get-remove gone id more)
  ]
]

get-cons :
    (k : Text) (b : Binding) (more : List Entry) (e : Entry)
    → get more k ≡ none
    → get more e.0 ≡ some e.1
    → get ((k, b) ∷ more) e.0 ≡ some e.1
unfolding get
get-cons k b more e free g = elim (Bool-cases (text_eq k e.0)) [
  | inl i ↦
      let same : k ≡ e.0 = (text_eq_iff k e.0).0 i in
      let absent : get more e.0 ≡ none = ap (get more) (sym same) ∙ free in absurd (ground arith)
  | inr n ↦ ground arith
]

get-own : (k : Text) (b : Binding) (more : List Entry) → get ((k, b) ∷ more) k ≡ some b
unfolding get
get-own k b more = rw (text_eq_refl k) refl

-- The entries of a Map are under their keys.
pub All-get : (xs : List Entry) → IsMap xs → All (λ e. get xs e.0 ≡ some e.1) xs
All-get [] m = tt
All-get ((k, b) ∷ more) (free, m) =
    (get-own k b more, All-mono _ _ more (λ e g. get-cons k b more e free g) (All-get more m))

-- A binding whose page is open
pub open_binding : (dead : List ℕ) → Option Binding → Option Binding
unfolding is_closed
open_binding dead none = none
open_binding dead (some b) = if is_closed dead b.page then none else some b

pub get-live_entries :
    (dead : List ℕ) (id : Text) (xs : List Entry)
    → IsMap xs
    → get (live_entries dead xs) id ≡ open_binding dead (get xs id)
unfolding get live_entries open_binding
get-live_entries dead id [] m = refl
get-live_entries dead id ((k, b) ∷ more) (free, m) = elim (Bool-cases (text_eq k id)) [
  | inl e ↦
      let same : k ≡ id = (text_eq_iff k id).0 e in
      let absent : get more id ≡ none = ap (get more) (sym same) ∙ free in
      let below : get (live_entries dead more) id ≡ none =
        get-live_entries dead id more m ∙ ap (open_binding dead) absent in
      ground arith
  | inr n ↦ ground (arith, get-live_entries dead id more m)
]

-- A conversation whose page is open stays bound when closed pages are dropped.
pub get-live :
    (id : Text) (b : Binding) (dead : List ℕ) (xs : List Entry)
    → is_closed dead b.page ≡ false
    → get xs id ≡ some b
    → get (live_entries dead xs) id ≡ some b
unfolding get live_entries
get-live id b dead [] alive g = cc
get-live id b dead ((k, c) ∷ more) alive g = elim (Bool-cases (text_eq k id)) [
  | inl e ↦
      let same : c ≡ b = ground arith in
      let open_page : is_closed dead c.page ≡ false = ground arith in ground arith
  | inr n ↦ ground (arith, get-live id b dead more alive (ground arith))
]
