-- ===== src/Tools/Detection/Overlap.antt =====
-- The text that longestSentinelPrefixSuffix of src/tools/detection-buffer.ts holds back is all that
-- a marker in the longer text can need.
use chatgpt_web_gateway.Base.{
  ℕ, zero, suc, ◌-◌, ◌≤◌, ◌<◌, ◌≡◌, refl, ap, ◌∙◌, subst, true, false, [], ◌∷◌, ◌++◌, arith, leb,
  ◌==◌, length, take, drop, take_last, min, inl, inr, Bool-cases, length-take, length-drop,
  length-append,
}
use chatgpt_web_gateway.Text.{Text, starts_with, ends_with, includes, is_space, trim_start}
use chatgpt_web_gateway.Text.Search.{
  includes-at, includes_here, includes_of_drop, starts_with_of_append, slice_of_starts_with,
  starts_with-append_more, drop-append_le, drop_twice, ends_with_of_drop,
}
use chatgpt_web_gateway.Tools.{tool_protocol_start}
use chatgpt_web_gateway.Tools.Detection.{longest_from, longest_sentinel_prefix_suffix}

longest_from-le : (m : ℕ) (v : Text) → longest_from m v ≤ m
unfolding longest_from
longest_from-le zero v = omega arith
longest_from-le (suc m) v = ground (arith, longest_from-le m v)

pub longest-le-length : (v : Text) → longest_sentinel_prefix_suffix v ≤ length v
unfolding longest_sentinel_prefix_suffix
longest-le-length v =
    omega (arith, longest_from-le (min (length v) (length tool_protocol_start - 1)) v)

le-longest_from :
    (n m : ℕ) (v : Text)
    → n ≤ m
    → ends_with (take n tool_protocol_start) v ≡ true
    → n ≤ longest_from m v
unfolding longest_from
le-longest_from n zero v l h = omega arith
le-longest_from n (suc m) v l h = elim (Bool-cases (n == suc m)) [
  | inl e ↦
      let same : n ≡ suc m = ground arith in
      ground (arith, subst (λ k. ends_with (take k tool_protocol_start) v ≡ true) same h)
  | inr d ↦ ground (arith, le-longest_from n m v (ground arith) h, longest_from-le m v)
]

-- A suffix of the text with which the marker starts is not longer than what is held back.
overlap-le :
    (v : Text) (i : ℕ)
    → i ≤ length v
    → length v - i < length tool_protocol_start
    → drop i v ≡ take (length v - i) tool_protocol_start
    → length v - i ≤ longest_sentinel_prefix_suffix v
unfolding longest_sentinel_prefix_suffix
overlap-le v i l s e =
    le-longest_from (length v - i) (min (length v) (length tool_protocol_start - 1)) v (omega arith)
      (ends_with_of_drop (take (length v - i) tool_protocol_start) v i l e
        (length-take (length v - i) tool_protocol_start ∙ omega arith))

-- A marker that starts before the text held back would be in the text already.
pub includes_held :
    (v d : Text)
    → includes tool_protocol_start v ≡ false
    → includes tool_protocol_start (v ++ d) ≡ true
    → includes tool_protocol_start (take_last (longest_sentinel_prefix_suffix v) v ++ d) ≡ true
includes_held v d n h =
    let (i, il, at) = includes-at tool_protocol_start (v ++ d) h in
    let k = length v - longest_sentinel_prefix_suffix v in
    let kl : k ≤ length v = omega arith in
    elim (Bool-cases (leb k i)) [
      | inl le ↦
          let more : starts_with tool_protocol_start (drop (i - k) (drop k (v ++ d))) ≡ true =
            rw (drop_twice (i - k) k (v ++ d)) (
              subst (λ j. starts_with tool_protocol_start (drop j (v ++ d)) ≡ true) (ground arith)
                at) in
          subst (λ t. includes tool_protocol_start t ≡ true) (drop-append_le k v d kl)
            (includes_of_drop tool_protocol_start (i - k) (drop k (v ++ d))
              (includes_here tool_protocol_start _ more))
      | inr gt ↦
          let iv : i ≤ length v = ground arith in
          let start : starts_with tool_protocol_start (drop i v ++ d) ≡ true =
            subst (λ t. starts_with tool_protocol_start t ≡ true) (drop-append_le i v d iv) at in
          let len : length (drop i v) ≡ length v - i = length-drop i v in
          elim (Bool-cases (leb (length tool_protocol_start) (length v - i))) [
            | inl long ↦
                let whole =
                  starts_with_of_append tool_protocol_start (drop i v) d (ground arith) start in
                absurd (
                  ground (
                    arith,
                    includes_of_drop tool_protocol_start i v
                        (includes_here tool_protocol_start (drop i v) whole),
                  ))
            | inr short ↦
                let cut =
                  slice_of_starts_with tool_protocol_start (drop i v) d (ground arith) start in
                absurd (
                  ground (
                    arith,
                    overlap-le v i iv (ground arith)
                        (cut ∙ ap (λ m. take m tool_protocol_start) len),
                  ))
          ]
    ]

-- A marker does not start with a space.
start_of_space :
    (c : ℕ) (cs : Text) → is_space c ≡ true → starts_with tool_protocol_start (c ∷ cs) ≡ false
unfolding is_space starts_with tool_protocol_start
start_of_space c cs h = ground arith

pub not_start_empty : starts_with tool_protocol_start [] ≡ false
unfolding starts_with tool_protocol_start
not_start_empty = refl

pub includes_blank : (t : Text) → length (trim_start t) ≡ 0 → includes tool_protocol_start t ≡ false
unfolding trim_start includes
includes_blank [] h = not_start_empty
includes_blank (c ∷ cs) h = elim (Bool-cases (is_space c)) [
  | inl s ↦ ground (arith, start_of_space c cs s, includes_blank cs (ground arith))
  | inr n ↦ absurd (ground arith)
]

pub trim_start-append :
    (t d : Text) → (length (trim_start t) == 0) ≡ false → trim_start (t ++ d) ≡ trim_start t ++ d
unfolding trim_start
trim_start-append [] d h = cc
trim_start-append (c ∷ cs) d h = elim (Bool-cases (is_space c)) [
  | inl s ↦ ground (arith, trim_start-append cs d (ground arith))
  | inr n ↦ ground arith
]

pub length_zero : (s : Text) → length s ≡ 0 → s ≡ []
length_zero [] h = refl
length_zero (c ∷ cs) h = absurd (omega arith)

-- A text that starts with the marker, spaces aside, still does when more follows.
pub marked-append :
    (t d : Text)
    → starts_with tool_protocol_start (trim_start t) ≡ true
    → starts_with tool_protocol_start (trim_start (t ++ d)) ≡ true
marked-append t d s = elim (Bool-cases (length (trim_start t) == 0)) [
  | inl z ↦ absurd (ground (arith, not_start_empty, length_zero (trim_start t) (ground arith)))
  | inr n ↦
      rw (trim_start-append t d n) (starts_with-append_more tool_protocol_start (trim_start t) d s)
]

-- The text can no more begin with the marker: spaces aside, it is not empty, and it is not how the
-- marker begins.
pub record IsOther (t : Text) : Type 0 where
  pub not_blank : (length (trim_start t) == 0) ≡ false
  pub not_begun : starts_with (trim_start t) tool_protocol_start ≡ false

starts_with-shorter : (s d v : Text) → starts_with s v ≡ false → starts_with (s ++ d) v ≡ false
unfolding starts_with
starts_with-shorter [] d v h = cc
starts_with-shorter (c ∷ s) d [] h = refl
starts_with-shorter (c ∷ s) d (x ∷ v) h = ground (arith, starts_with-shorter s d v)

pub IsOther-append : (t d : Text) → IsOther t → IsOther (t ++ d)
IsOther-append t d o =
    let more = trim_start-append t d o.not_blank in
    record {
      not_blank = rw more (ground (arith, o.not_blank, length-append (trim_start t) d));
      not_begun = rw more (starts_with-shorter (trim_start t) d tool_protocol_start o.not_begun);
    }
