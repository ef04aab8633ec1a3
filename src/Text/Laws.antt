-- ===== src/Text/Laws.antt =====
-- Equality, prefixes and slices of strings.
use chatgpt_web_gateway.Base.{◌≡◌, refl, ap, ◌∙◌, ◌↔◌, true, [], ◌∷◌, ◌++◌, arith, Prefix}
use chatgpt_web_gateway.Text.{Text, text_eq, starts_with}

pub text_eq_iff : (s t : Text) → (text_eq s t ≡ true) ↔ (s ≡ t)
unfolding text_eq
text_eq_iff [] [] = ground arith
text_eq_iff [] (y ∷ ys) = ground arith
text_eq_iff (x ∷ xs) [] = ground arith
text_eq_iff (x ∷ xs) (y ∷ ys) = ground (arith, text_eq_iff xs ys)

pub text_eq_refl : (s : Text) → text_eq s s ≡ true
text_eq_refl s = (text_eq_iff s s).1 refl

pub starts_with-Prefix : (p s : Text) → starts_with p s ≡ true → Prefix p s
unfolding starts_with
starts_with-Prefix [] s h = (s, refl)
starts_with-Prefix (p ∷ ps) [] h = cc
starts_with-Prefix (p ∷ ps) (c ∷ cs) h =
    let (rest, e) = starts_with-Prefix ps cs (ground arith) in (rest, ground arith)

pub starts_with-append : (p rest : Text) → starts_with p (p ++ rest) ≡ true
unfolding starts_with
starts_with-append [] rest = refl
starts_with-append (p ∷ ps) rest = ground (arith, starts_with-append ps rest)

pub Prefix-starts_with : (p s : Text) → Prefix p s → starts_with p s ≡ true
Prefix-starts_with p s (rest, e) = ap (starts_with p) e ∙ starts_with-append p rest
