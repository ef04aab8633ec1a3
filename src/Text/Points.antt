-- ===== src/Text/Points.antt =====
-- Array.from(text): the code points of a string, each a string of one or two code units.
use chatgpt_web_gateway.Base.{
  ℕ, ◌≡◌, refl, sym, ap, ◌∙◌, Bool, ◌&&◌, List, [], ◌∷◌, ◌++◌, arith, leb, append_assoc,
  if◌then◌else◌, take, drop, Prefix, take-append-drop,
}
use chatgpt_web_gateway.Text.{Text}

is_high : ℕ → Bool
is_high c = leb 0xd800 c && leb c 0xdbff

is_low : ℕ → Bool
is_low c = leb 0xdc00 c && leb c 0xdfff

-- A high surrogate joins the low surrogate that follows it.
unfoldable pub points : Text → List Text
unfolding is_high is_low
points [] = []
points (h ∷ []) = (h ∷ []) ∷ []
points (h ∷ l ∷ rest) =
    let pair = (h ∷ l ∷ []) ∷ points rest in
    let single = (h ∷ []) ∷ points (l ∷ rest) in if is_high h && is_low l then pair else single

-- parts.join('')
abbrev pub join : List Text → Text
join [] = []
join (x ∷ xs) = x ++ join xs

-- Array.from loses nothing.
pub join-points : (s : Text) → join (points s) ≡ s
unfolding points
join-points [] = refl
join-points (h ∷ []) = refl
join-points (h ∷ l ∷ rest) = ground (arith, join-points rest, join-points (l ∷ rest))

join-append : (xs ys : List Text) → join (xs ++ ys) ≡ join xs ++ join ys
join-append [] ys = refl
join-append (x ∷ xs) ys = rw (join-append xs ys) (sym (append_assoc x (join xs) (join ys)))

pub join-Prefix : (xs ys : List Text) → Prefix xs ys → Prefix (join xs) (join ys)
join-Prefix xs ys (rest, e) = (join rest, ap join e ∙ join-append xs rest)

-- The first code points of a string are a prefix of it.
pub join-take-points : (n : ℕ) (s : Text) → Prefix (join (take n (points s))) s
join-take-points n s = (
  join (drop n (points s)),
  sym (join-points s)
      ∙ ap join (sym (take-append-drop n (points s)))
      ∙ join-append (take n (points s)) (drop n (points s)),
)
