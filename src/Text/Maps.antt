-- ===== src/Text/Maps.antt =====
-- Map<string, A>: a list of keys and values, in the order of insertion.
use chatgpt_web_gateway.Base.{
  ◌≡◌, refl, Option, none, some, List, [], ◌∷◌, arith, if◌then◌else◌, inl, inr, Bool-cases,
}
use chatgpt_web_gateway.Text.{Text, text_eq}
use chatgpt_web_gateway.Text.Laws.{text_eq_iff}

abbrev pub TextMap {ℓ} : Type ℓ → Type ℓ
TextMap A = List (Text × A)

module _ {ℓ} {A : Type ℓ} where
  unfoldable pub get : TextMap A → Text → Option A
  get [] key = none
  get ((k, a) ∷ more) key = let rest = get more key in if text_eq k key then some a else rest

  unfoldable pub set : Text → A → TextMap A → TextMap A
  set key a [] = (key, a) ∷ []
  set key a ((k, b) ∷ more) =
      let rest = set key a more in if text_eq k key then (k, a) ∷ more else (k, b) ∷ rest

  unfoldable pub remove : Text → TextMap A → TextMap A
  remove key [] = []
  remove key ((k, b) ∷ more) =
      let rest = remove key more in if text_eq k key then rest else (k, b) ∷ rest

  pub get-set :
      (key : Text) (a : A) (m : TextMap A) (k : Text)
      → get (set key a m) k ≡ (if text_eq key k then some a else get m k)
  unfolding get set
  get-set key a [] k = refl
  get-set key a ((l, b) ∷ more) k = elim (Bool-cases (text_eq l key)) [
    | inl e ↦ let same : l ≡ key = (text_eq_iff l key).0 e in ground (arith, same)
    | inr n ↦ elim (Bool-cases (text_eq key k)) [
      | inl h ↦
          let same : key ≡ k = (text_eq_iff key k).0 h in ground (arith, same, get-set key a more k)
      | inr h ↦ ground (arith, get-set key a more k)
    ]
  ]

  pub get-remove :
      (key : Text) (m : TextMap A) (k : Text)
      → get (remove key m) k ≡ (if text_eq key k then none else get m k)
  unfolding get remove
  get-remove key [] k = ground arith
  get-remove key ((l, b) ∷ more) k = elim (Bool-cases (text_eq l key)) [
    | inl e ↦
        let same : l ≡ key = (text_eq_iff l key).0 e in ground (arith, same, get-remove key more k)
    | inr n ↦ elim (Bool-cases (text_eq key k)) [
      | inl h ↦
          let same : key ≡ k = (text_eq_iff key k).0 h in
          ground (arith, same, get-remove key more k)
      | inr h ↦ ground (arith, get-remove key more k)
    ]
  ]
