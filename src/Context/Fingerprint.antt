-- ===== src/Context/Fingerprint.antt =====
-- src/context/fingerprint.ts: values in a form that does not depend on the order of object keys, and
-- their fingerprint. JSON.stringify and SHA-256 are outside the program: `Digest` takes their place.
use Prim.Native.Nat.{compare, Ordering}
use chatgpt_web_gateway.Base.{ℕ, ◌+◌, ◌-◌, ◌*◌, ◌≡◌, ◌↔◌, Bool, true, List, [], ◌∷◌, map}
use chatgpt_web_gateway.Text.{Text}
use chatgpt_web_gateway.Text.Points.{points}

-- The values that reach the fingerprint. An object is the list of its fields, whose keys differ; a
-- number is its decimal text.
mutual
  pub data Json : Type 0 where
    undefined null : Json
    bool : Bool → Json
    number : Text → Json
    str : Text → Json
    arr : Items → Json
    obj : Fields → Json

  pub data Items : Type 0 where
    nil : Items
    cons : Json → Items → Items

  pub data Fields : Type 0 where
    end : Fields
    field : Text → Json → Fields → Fields

-- codePointAt(0) of an element of Array.from
unfoldable pub code_point : Text → ℕ
code_point [] = 0
code_point (u ∷ []) = u
code_point (h ∷ l ∷ rest) = 0x10000 + (h - 0xd800) * 0x400 + (l - 0xdc00)

unfoldable pub compare_points : List ℕ → List ℕ → Ordering
compare_points [] [] = Ordering.eq
compare_points [] (y ∷ ys) = Ordering.lt
compare_points (x ∷ xs) [] = Ordering.gt
compare_points (x ∷ xs) (y ∷ ys) = elim (compare x y) [
  | Ordering.eq ↦ compare_points xs ys
  | Ordering.lt ↦ Ordering.lt
  | Ordering.gt ↦ Ordering.gt
]

unfoldable pub compare_code_points : Text → Text → Ordering
unfolding code_point compare_points points
compare_code_points left right =
    compare_points (map code_point (points left)) (map code_point (points right))

-- The place of a field among fields that are sorted by their keys.
unfoldable pub insert_field : Text → Json → Fields → Fields
unfolding compare_code_points
insert_field k v end = field k v end
insert_field k v (field k' v' fs) = elim (compare_code_points k' k) [
  | Ordering.lt ↦ field k' v' (insert_field k v fs)
  | _ ↦ field k v (field k' v' fs)
]

-- if (normalized !== undefined) result[key] = normalized
unfoldable pub put_field : Text → Json → Fields → Fields
unfolding insert_field
put_field k undefined fs = fs
put_field k null fs = insert_field k null fs
put_field k v fs = insert_field k v fs

unfoldable mutual
  unfolding put_field

  pub stabilize : Json → Json
  stabilize undefined = undefined
  stabilize null = null
  stabilize (bool b) = bool b
  stabilize (number n) = number n
  stabilize (str s) = str s
  stabilize (arr xs) = arr (stabilize_items xs)
  stabilize (obj fs) = obj (stabilize_fields fs)

  pub stabilize_items : Items → Items
  stabilize_items nil = nil
  stabilize_items (cons x xs) = cons (stabilize x) (stabilize_items xs)

  pub stabilize_fields : Fields → Fields
  stabilize_fields end = end
  stabilize_fields (field k v fs) = put_field k (stabilize v) (stabilize_fields fs)

-- createHash('sha256').update(JSON.stringify(value)).digest('hex'), and the comparison of digests.
pub record Digest : Type 1 where
  pub Hash : Type 0
  pub hash : Json → Hash
  pub same_hash : Hash → Hash → Bool
  pub same_hash_iff : (a b : Hash) → (same_hash a b ≡ true) ↔ (a ≡ b)

unfoldable pub fingerprint_canonical : (d : Digest) → Json → d.Hash
unfolding stabilize
fingerprint_canonical d value = d.hash (stabilize value)
