-- ===== src/Stream.antt =====
-- src/stream/types.ts, src/stream/errors.ts and src/stream/normalize.ts: what the watcher of an
-- Assistant turn observes, how it fails, and the normalisation of its text. An operation that
-- reaches the browser, the clock or the client acts on a world W and returns an Outcome.
pub mod StablePrefix
pub mod Completion
pub mod TextStream
use chatgpt_web_gateway.Base.{Bool, ◌&&◌, List, [], ◌∷◌, ℕ, ◌==◌, if◌then◌else◌, ◌≡◌, refl}
use chatgpt_web_gateway.Text.{Text}

pub record Snapshot : Type 0 where
  pub exists : Bool
  pub text : Text
  pub completion_marker_present : Bool

-- TextStreamErrorCode, the RangeError of createStablePrefixState, and what a callback throws.
pub data Failure : Type 0 where
  stream_diverged generation_timeout response_missing stream_aborted range_error : Failure
  thrown : ℕ → Failure

pub data Result {ℓ} (A : Type ℓ) : Type ℓ where
  returned : A → Result A
  failed : Failure → Result A

-- An awaited call: its value or its error, and the world after it.
pub data Outcome (W A : Type 0) : Type 0 where
  ok : A → W → Outcome W A
  err : Failure → W → Outcome W A

infixl 5 ◌>>=◌
abbrev pub ◌>>=◌ : {W A B : Type 0} → Outcome W A → (A → W → Outcome W B) → Outcome W B
ok a w >>= k = k a w
err e w >>= k = err e w

-- An awaited chain that returns has a first call that returns.
pub bind-eq-ok :
    {W A B : Type 0} (m : Outcome W A) (k : A → W → Outcome W B) (b : B) (w' : W)
    → (m >>= k) ≡ ok b w'
    → (a : A) × (w : W) × (m ≡ ok a w) × (k a w ≡ ok b w')
bind-eq-ok (ok a w) k b w' e = (a, w, refl, e)
bind-eq-ok (err f w) k b w' e = cc

-- text.replaceAll('\r\n', '\n')
crlf_to_lf : Text → Text
crlf_to_lf [] = []
crlf_to_lf (c ∷ []) = c ∷ []
crlf_to_lf (c ∷ d ∷ rest) =
    let pair = 10 ∷ crlf_to_lf rest in
    let single = c ∷ crlf_to_lf (d ∷ rest) in if c == 13 && d == 10 then pair else single

-- text.replaceAll('\r', '\n')
cr_to_lf : Text → Text
cr_to_lf [] = []
cr_to_lf (c ∷ rest) = (if c == 13 then 10 else c) ∷ cr_to_lf rest

unfoldable pub normalize_assistant_text : Text → Text
unfolding crlf_to_lf cr_to_lf
normalize_assistant_text s = cr_to_lf (crlf_to_lf s)
