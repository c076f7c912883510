-- ===== src/Secret/Batch.antt =====
-- The loops of internal/platform/secret that resolve a list of references, one after the other, into
-- a map, and refuse a reference that the map already has.
use accountable.Prelude.{
  String, false, ◌≡◌, some, List, [], ◌∷◌, All, Result, ok, ◌>>=◌, ◌>>◌, reject, is_some, arith,
  eq_iff, eq_refl, >>=-eq-ok, reject-eq-ok,
}
use accountable.Maps.{Dict, lookup, insert, lookup-insert, member}
use accountable.Bytes.{Bytes}

module _ {E : Type 0} (duplicate : E) (resolve : String → Result E Bytes) where
  unfoldable pub resolve_each : List String → Dict Bytes → Result E (Dict Bytes)
  resolve_each [] values = ok values
  resolve_each (ref ∷ refs) values = do
    reject (is_some (lookup ref values)) duplicate
    value ← resolve ref
    resolve_each refs (insert ref value values)

-- No reference occurs twice.
abbrev pub Distinct : List String → Type 0
Distinct [] = Unit
Distinct (ref ∷ refs) = (member ref refs ≡ false) × Distinct refs

module _ {E : Type 0} (duplicate : E) (resolve : String → Result E Bytes) where
  -- A key that the map has keeps its value, and is not among the references.
  resolve_each-keeps :
      (refs : List String) (values out : Dict Bytes)
      → resolve_each duplicate resolve refs values ≡ ok out
      → (key : String) (value : Bytes) → lookup key values ≡ some value
      → (lookup key out ≡ some value) × (member key refs ≡ false)
  unfolding resolve_each member
  resolve_each-keeps [] values out h key value k = ground arith
  resolve_each-keeps (ref ∷ refs) values out h key value k =
      let (fresh, h) = reject-eq-ok (is_some (lookup ref values)) duplicate h in
      let (found, here, h) = >>=-eq-ok (resolve ref) _ h in
      let kept : lookup key (insert ref found values) ≡ some value =
        ground (arith, lookup-insert ref key found values, eq_iff ref key) in
      let (same, other) = resolve_each-keeps refs (insert ref found values) out h key value kept in
      (same, ground (arith, eq_iff ref key))

  -- What a successful loop has resolved: distinct references, and for each the value that `resolve`
  -- gave.
  pub resolve_each_sound :
      (refs : List String) (values out : Dict Bytes)
      → resolve_each duplicate resolve refs values ≡ ok out
      → Distinct refs
        × All
            (λ ref. (value : Bytes) × (resolve ref ≡ ok value) × (lookup ref out ≡ some value))
            refs
  unfolding resolve_each
  resolve_each_sound [] values out h = (tt, tt)
  resolve_each_sound (ref ∷ refs) values out h =
      let (fresh, h) = reject-eq-ok (is_some (lookup ref values)) duplicate h in
      let (found, here, h) = >>=-eq-ok (resolve ref) _ h in
      let stored : lookup ref (insert ref found values) ≡ some found =
        ground (arith, lookup-insert ref ref found values, eq_refl ref) in
      let (same, other) =
        resolve_each-keeps refs (insert ref found values) out h ref found stored in
      let (distinct, later) = resolve_each_sound refs (insert ref found values) out h in
      ((other, distinct), ((found, here, same), later))
