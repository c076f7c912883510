-- ===== src/Maps.antt =====
-- Go maps with string keys, as association lists with the latest value of a key in its place.
-- The order of the entries stands for one order in which `range` may visit them.
use mathlib.Core.Path.{subst}
use accountable.Prelude.{
  String, ◌≡◌, refl, Bool, false, ◌||◌, List, [], ◌∷◌, All, Bool-cases, inl, inr, true, Option,
  none, some, ◌==◌, eq_iff, if◌then◌else◌, arith,
}

abbrev pub Dict {ℓ} : Type ℓ → Type ℓ
Dict V = List (String × V)

module _ {ℓ} {V : Type ℓ} where
  -- value, ok := m[key]
  unfoldable pub lookup : String → Dict V → Option V
  lookup key [] = none
  lookup key ((k, v) ∷ m) = if k == key then some v else lookup key m

  -- m[key] = value
  unfoldable pub insert : String → V → Dict V → Dict V
  insert key value [] = (key, value) ∷ []
  insert key value ((k, v) ∷ m) =
      let rest = insert key value m in if k == key then (key, value) ∷ m else (k, v) ∷ rest

  -- Reading a map after a write to it.
  pub lookup-insert :
      (written read : String) (value : V) (entries : Dict V)
      → lookup read (insert written value entries)
        ≡ (if written == read then some value else lookup read entries)
  unfolding lookup insert
  lookup-insert written read value [] = refl
  lookup-insert written read value ((key, old) ∷ rest) =
      let later = lookup-insert written read value rest in
      ground (arith, eq_iff written read, eq_iff key read, eq_iff key written, later)

-- A map[string]bool that only ever holds `true`: the set of its keys.
unfoldable pub member : String → List String → Bool
member key [] = false
member key (k ∷ keys) = k == key || member key keys

-- set[key] = true
unfoldable pub add : String → List String → List String
add key [] = key ∷ []
add key (k ∷ keys) = let rest = add key keys in if k == key then k ∷ keys else k ∷ rest

pub member-add :
    (k j : String) (keys : List String) → member j (add k keys) ≡ (k == j || member j keys)
unfolding member add
member-add k j [] = refl
member-add k j (i ∷ keys) = ground (arith, eq_iff k j, eq_iff i k, eq_iff i j, member-add k j keys)

-- What holds of every entry, and of the one that is written, holds after the write.
pub All-insert {ℓ κ} :
    {V : Type ℓ} (P : String × V → Type κ) (k : String) (v : V) (m : Dict V)
    → All P m
    → P (k, v)
    → All P (insert k v m)
unfolding insert
All-insert P k v [] h p = (p, tt)
All-insert P k v ((i, w) ∷ m) h p = elim (Bool-cases (i == k)) [
  | inl e ↦ rw e (p, h.1)
  | inr e ↦ rw e (h.0, All-insert P k v m h.1 p)
]

pub All-add {ℓ} :
    (P : String → Type ℓ) (k : String) (keys : List String) → All P keys → P k → All P (add k keys)
unfolding add
All-add P k [] h p = (p, tt)
All-add P k (i ∷ keys) h p = elim (Bool-cases (i == k)) [
  | inl e ↦ rw e h
  | inr e ↦ rw e (h.0, All-add P k keys h.1 p)
]

-- An entry that is found is one of the entries.
pub All-lookup {ℓ κ} :
    {V : Type ℓ} (P : String × V → Type κ) (k : String) {v : V} (m : Dict V)
    → All P m
    → lookup k m ≡ some v
    → P (k, v)
unfolding lookup
All-lookup P k [] h e = cc
All-lookup P k ((i, w) ∷ m) h e = elim (Bool-cases (i == k)) [
  | inl same ↦
      let found : w ≡ _ = ground arith in
      subst (λ x. P (k, x)) found (subst (λ x. P (x, w)) ((eq_iff i k).0 same) h.0)
  | inr other ↦ All-lookup P k m h.1 (ground arith)
]

pub All-member {ℓ} :
    (P : String → Type ℓ) (k : String) (keys : List String)
    → All P keys
    → member k keys ≡ true
    → P k
unfolding member
All-member P k [] h e = cc
All-member P k (i ∷ keys) h e = elim (Bool-cases (i == k)) [
  | inl same ↦ subst P ((eq_iff i k).0 same) h.0
  | inr other ↦ All-member P k keys h.1 (ground arith)
]
