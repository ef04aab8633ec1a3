-- ===== src/Tools/Canonicalize/Laws.antt =====
-- Which tools and tool choices src/tools/canonicalize.ts accepts.
use mathlib.Core.Logic.Or
use mathlib.Core.List.{Mem, mem-cons, Nodup, Nodup-cons, Nodup-nil, not-mem-nil}
use chatgpt_web_gateway.Base.{
  ◌≡◌, ◌≢◌, ◌↔◌, refl, sym, ap, subst, Bool, true, false, List, [], ◌∷◌, arith, Bool-cases, inl,
  inr, length, ◌==◌, All, All-mono, map, ◌||◌,
}
use chatgpt_web_gateway.Base.Results.{returned, bind-eq-returned}
use chatgpt_web_gateway.Text.{Text, text_eq, trim}
use chatgpt_web_gateway.Text.Laws.{text_eq_iff}
use chatgpt_web_gateway.Text.Sets.{has, not_mem_of_has, has_not_mem}
use chatgpt_web_gateway.Context.Fingerprint.{compare_code_points}
use chatgpt_web_gateway.Tools.Parser.{
  NormalizedTool, NormalizedToolChoice, auto_choice, none_choice, required_choice, function_choice,
}
use chatgpt_web_gateway.Tools.Canonicalize.{
  CanonicalFunctionTool, canonical_tool, canonical_from, is_before, insert_tool, sort_tools,
  canonicalize_tools, has_tool, check_choice, validate_tool_choice,
}

abbrev pub names_of : List NormalizedTool → List Text
names_of [] = []
names_of (tool ∷ tools) = tool.name ∷ names_of tools

-- The names are not blank, and no two are alike.
pub record AreNamed (tools : List NormalizedTool) : Type 0 where
  pub distinct : Nodup (names_of tools)
  pub not_blank : All (λ name. trim name ≢ []) (names_of tools)

-- The choice asks for nothing that the tools do not offer.
abbrev pub IsOffered : List NormalizedTool → NormalizedToolChoice → Type 0
IsOffered tools auto_choice = Unit
IsOffered tools none_choice = Unit
IsOffered tools required_choice = tools ≢ []
IsOffered tools (function_choice name) = Mem name (names_of tools)

blank_iff : (t : Text) → ((length t == 0) ≡ false) ↔ (t ≢ [])
blank_iff [] = ((λ e. absurd (cc)), λ n. absurd (n refl))
blank_iff (c ∷ cs) = ((λ e n. cc (ap (λ (t : Text). length t == 0) n, e)), λ n. ground arith)

tools_nonempty : (tools : List NormalizedTool) → ((length tools == 0) ≡ false) ↔ (tools ≢ [])
tools_nonempty [] = ((λ e. absurd (cc)), λ n. absurd (n refl))
tools_nonempty (t ∷ ts) =
    ((λ e n. cc (ap (λ (us : List NormalizedTool). length us == 0) n, e)), λ n. ground arith)

abbrev Sound : List Text → List NormalizedTool → Type 0
Sound names tools =
    Nodup (names_of tools) × All (λ name. (trim name ≢ []) × (¬ Mem name names)) (names_of tools)

All-new :
    (x : Text) (names ts : List Text)
    → All (λ name. (trim name ≢ []) × (¬ Mem name (x ∷ names))) ts
    → (¬ Mem x ts) × All (λ name. (trim name ≢ []) × (¬ Mem name names)) ts
All-new x names [] h = ((λ m. not-mem-nil m), tt)
All-new x names (t ∷ ts) ((b, n), h) =
    let (new, rest) = All-new x names ts h in
    (
      (λ m. Or.elim (λ x y. absurd x) (mem-cons.0 m) (λ e. n (mem-cons.1 (Or.inl (sym e)))) new),
      ((b, λ m. n (mem-cons.1 (Or.inr m))), rest),
    )

All-old :
    (x : Text) (names ts : List Text)
    → ¬ Mem x ts
    → All (λ name. (trim name ≢ []) × (¬ Mem name names)) ts
    → All (λ name. (trim name ≢ []) × (¬ Mem name (x ∷ names))) ts
All-old x names [] n h = tt
All-old x names (t ∷ ts) n ((b, o), h) = (
  (b, λ m. Or.elim (λ x y. absurd x) (mem-cons.0 m) (λ e. n (mem-cons.1 (Or.inl (sym e)))) o),
  All-old x names ts (λ m. n (mem-cons.1 (Or.inr m))) h,
)

canonical_from-Sound :
    (names : List Text) (tools : List NormalizedTool) (canonical : List CanonicalFunctionTool)
    → canonical_from names tools ≡ returned canonical
    → Sound names tools
unfolding canonical_from
canonical_from-Sound names [] canonical e = (Nodup-nil, tt)
canonical_from-Sound names (t ∷ ts) canonical e =
    let full : (length (trim t.name) == 0) ≡ false = ground arith in
    let new : has names t.name ≡ false = ground arith in
    let (more, m, _) =
      bind-eq-returned (canonical_from (t.name ∷ names) ts)
        (λ canonical. returned (canonical_tool t ∷ canonical)) canonical (ground arith) in
    let (d, h) = canonical_from-Sound (t.name ∷ names) ts more m in
    let (other, rest) = All-new t.name names (names_of ts) h in
    (
      Nodup-cons.1 (other, d),
      (((blank_iff (trim t.name)).0 full, not_mem_of_has names t.name new), rest),
    )

Sound-canonical_from :
    (names : List Text) (tools : List NormalizedTool)
    → Sound names tools
    → canonical_from names tools ≡ returned (map canonical_tool tools)
unfolding canonical_from
Sound-canonical_from names [] s = refl
Sound-canonical_from names (t ∷ ts) (d, ((b, n), h)) =
    let (other, rest) = Nodup-cons.0 d in
    rw
      (
        (blank_iff (trim t.name)).1 b,
        has_not_mem names t.name n,
        Sound-canonical_from (t.name ∷ names) ts (rest, All-old t.name names (names_of ts) other h),
      )
      refl

swap : (a b c : Bool) → (b || (a || c)) ≡ (a || (b || c))
swap true true c = refl
swap true false c = refl
swap false true c = refl
swap false false c = refl

-- Sorting moves the tools, and no more.
any-insert_tool :
    (name : Text) (t : CanonicalFunctionTool) (ts : List CanonicalFunctionTool)
    → has_tool (insert_tool t ts) name ≡ (text_eq t.name name || has_tool ts name)
unfolding insert_tool has_tool
any-insert_tool name t [] = refl
any-insert_tool name t (u ∷ us) =
    elim (Bool-cases (is_before (compare_code_points u.name t.name))) [
      | inl e ↦
          rw (e, any-insert_tool name t us)
            (swap (text_eq t.name name) (text_eq u.name name) (has_tool us name))
      | inr n ↦ rw n refl
    ]

any-sort_tools :
    (name : Text) (ts : List CanonicalFunctionTool)
    → has_tool (sort_tools ts) name ≡ has_tool ts name
unfolding sort_tools has_tool
any-sort_tools name [] = refl
any-sort_tools name (t ∷ ts) =
    ground (arith, any-insert_tool name t (sort_tools ts), any-sort_tools name ts)

length-insert_tool :
    (t : CanonicalFunctionTool) (ts : List CanonicalFunctionTool)
    → (length (insert_tool t ts) == 0) ≡ false
unfolding insert_tool
length-insert_tool t [] = refl
length-insert_tool t (u ∷ us) = ground arith

sorted_empty :
    (tools : List NormalizedTool)
    → (length (sort_tools (map canonical_tool tools)) == 0) ≡ (length tools == 0)
unfolding sort_tools
sorted_empty [] = refl
sorted_empty (t ∷ ts) =
    ground (arith, length-insert_tool (canonical_tool t) (sort_tools (map canonical_tool ts)))

any-canonical_tool :
    (name : Text) (tools : List NormalizedTool)
    → (has_tool (map canonical_tool tools) name ≡ true) ↔ Mem name (names_of tools)
unfolding has_tool canonical_tool
any-canonical_tool name [] = ((λ e. absurd (cc)), λ m. absurd (not-mem-nil m))
any-canonical_tool name (t ∷ ts) = (
  (λ e. elim (Bool-cases (text_eq t.name name)) [
    | inl s ↦ mem-cons.1 (Or.inl (sym ((text_eq_iff t.name name).0 s)))
    | inr n ↦ mem-cons.1 (Or.inr ((any-canonical_tool name ts).0 (ground arith)))
  ]),
  λ m. elim (Bool-cases (has_tool (map canonical_tool (t ∷ ts)) name)) [
    | inl e ↦ e
    | inr n ↦ absurd (
        Or.elim (λ x y. absurd x) (mem-cons.0 m)
          (λ e. let s = (text_eq_iff t.name name).1 (sym e) in ground arith)
          (λ m'. let s = (any-canonical_tool name ts).1 m' in ground arith))
  ],
)

canonicalize_tools_named :
    (tools : List NormalizedTool)
    → AreNamed tools
    → canonicalize_tools tools ≡ returned (sort_tools (map canonical_tool tools))
unfolding canonicalize_tools
canonicalize_tools_named tools n =
    rw
      (Sound-canonical_from [] tools
        (n.distinct, All-mono _ _ (names_of tools) (λ name b. (b, λ m. not-mem-nil m)) n.not_blank))
      refl

canonicalize_tools-AreNamed :
    (tools : List NormalizedTool) (canonical : List CanonicalFunctionTool)
    → canonicalize_tools tools ≡ returned canonical
    → AreNamed tools
unfolding canonicalize_tools
canonicalize_tools-AreNamed tools canonical e =
    let (found, f, _) =
      bind-eq-returned (canonical_from [] tools) (λ x. returned (sort_tools x)) canonical e in
    let (d, h) = canonical_from-Sound [] tools found f in
    record { distinct = d; not_blank = All-mono _ _ (names_of tools) (λ name p. p.0) h }

check_choice_iff :
    (tools : List NormalizedTool) (choice : NormalizedToolChoice)
    → (check_choice (sort_tools (map canonical_tool tools)) choice ≡ returned tt)
      ↔ IsOffered tools choice
unfolding check_choice
check_choice_iff tools auto_choice = ((λ e. tt), λ u. refl)
check_choice_iff tools none_choice = ((λ e. tt), λ u. refl)
check_choice_iff tools required_choice =
    let empty = sorted_empty tools in
    (
      (λ e. (tools_nonempty tools).0 (ground arith)),
      λ o. let some_tool = (tools_nonempty tools).1 o in ground arith,
    )
check_choice_iff tools (function_choice name) =
    let empty = sorted_empty tools in
    let sorted = any-sort_tools name (map canonical_tool tools) in
    let named = any-canonical_tool name tools in
    (
      (λ e. named.0 (ground arith)),
      λ m.
          let found = named.1 m in
          let some_tool =
            (tools_nonempty tools).1
              (λ n. not-mem-nil (subst (λ ts. Mem name (names_of ts)) n m)) in
          ground arith,
    )

-- A tool choice is accepted exactly when the names of the tools are not blank and differ, and the
-- choice asks for nothing that they do not offer.
pub validate_tool_choice_iff :
    (tools : List NormalizedTool) (choice : NormalizedToolChoice)
    → (validate_tool_choice tools choice ≡ returned tt) ↔ (AreNamed tools × IsOffered tools choice)
unfolding validate_tool_choice
validate_tool_choice_iff tools choice = (
  (λ e.
      let (canonical, c, k) =
        bind-eq-returned (canonicalize_tools tools) (λ canonical. check_choice canonical choice) tt
          e in
      let named = canonicalize_tools-AreNamed tools canonical c in
      let same : canonical ≡ sort_tools (map canonical_tool tools) =
        cc (c, canonicalize_tools_named tools named) in
      (
        named,
        (check_choice_iff tools choice).0 (subst (λ x. check_choice x choice ≡ returned tt) same k),
      )),
  λ (n, o). rw (canonicalize_tools_named tools n) ((check_choice_iff tools choice).1 o),
)
