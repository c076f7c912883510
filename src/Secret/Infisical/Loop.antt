-- ===== src/Secret/Infisical/Loop.antt =====
-- The loop of ResolveOrCreateBatch over its references.
use mathlib.Core.Path.{subst}
use accountable.Prelude.{
  String, ◌≡◌, refl, Option, some, List, [], ◌∷◌, All, Result, ok, arith, eq_iff, eq_refl,
  Result-cases, inl, inr, ok-inj,
}
use accountable.Bytes.{Bytes}
use accountable.Maps.{Dict, lookup, lookup-insert}
use accountable.Secret.Infisical.{ApiError, StoreApi, resolve_or_create, resolve_or_create_each}
use accountable.Secret.Infisical.Laws.{
  Reflects, Keeps, Agrees, resolve_or_create-Keeps, resolve_or_create-Agrees,
  resolve_or_create_adds,
}

module _ {S : Type 0} (api : StoreApi S) (held : S → String → Option Bytes)
    (law : Reflects api held) where
  module _ (generate : String → Result ApiError Bytes) (token : String) where
    pub resolve_or_create_each-Keeps :
        (refs : List String) (values : Dict Bytes) (s : S)
        → Keeps held s (resolve_or_create_each api generate token refs values s).1
    unfolding resolve_or_create_each
    resolve_or_create_each-Keeps [] values s key value h = h
    resolve_or_create_each-Keeps (ref ∷ refs) values s key value h =
        let step = resolve_or_create api generate token ref values s in
        let kept = resolve_or_create-Keeps api held law generate token ref values s key value h in
        elim (Result-cases step.0) [
          | inl (next, e) ↦ rw e (resolve_or_create_each-Keeps refs next step.1 key value kept)
          | inr (failure, e) ↦ rw e kept
        ]

    -- A loop that succeeds is a first step that succeeds, and a loop from there.
    pub resolve_or_create_each_steps :
        (ref : String) (refs : List String) (values out : Dict Bytes) (s : S)
        → (resolve_or_create_each api generate token (ref ∷ refs) values s).0 ≡ ok out
        → (next : Dict Bytes) × ((resolve_or_create api generate token ref values s).0 ≡ ok next)
          × (resolve_or_create_each api generate token (ref ∷ refs) values s
              ≡ resolve_or_create_each api generate token refs next
                  (resolve_or_create api generate token ref values s).1)
    unfolding resolve_or_create_each
    resolve_or_create_each_steps ref refs values out s h =
        let step = resolve_or_create api generate token ref values s in
        elim (Result-cases step.0) [
          | inl (next, e) ↦ (next, e, rw e refl)
          | inr (failure, e) ↦ absurd (ground arith)
        ]

    pub resolve_or_create_each-Agrees :
        (refs : List String) (values out : Dict Bytes) (s : S)
        → (resolve_or_create_each api generate token refs values s).0 ≡ ok out
        → Agrees held values s
        → Agrees held out (resolve_or_create_each api generate token refs values s).1
    unfolding resolve_or_create_each
    resolve_or_create_each-Agrees [] values out s h agrees key value =
        subst (λ o. lookup key o ≡ some value → held s key ≡ some value) (ok-inj (ok _) refl h)
          (agrees key value)
    resolve_or_create_each-Agrees (ref ∷ refs) values out s h agrees key value =
        let (next, e, same) = resolve_or_create_each_steps ref refs values out s h in
        let step = resolve_or_create api generate token ref values s in
        rw same (
          resolve_or_create_each-Agrees refs next out step.1 (rw same at h)
            (resolve_or_create-Agrees api held law generate token ref values next s e agrees) key
            value)

    -- The map only grows, and has every reference at the end.
    resolve_or_create_each-lookup :
        (refs : List String) (values out : Dict Bytes) (s : S)
        → (resolve_or_create_each api generate token refs values s).0 ≡ ok out
        → (key : String) (value : Bytes) → lookup key values ≡ some value
        → lookup key out ≡ some value
    unfolding resolve_or_create_each
    resolve_or_create_each-lookup [] values out s h key value k = ground arith
    resolve_or_create_each-lookup (ref ∷ refs) values out s h key value k =
        let (next, e, same) = resolve_or_create_each_steps ref refs values out s h in
        let step = resolve_or_create api generate token ref values s in
        let (new, grown, _, _, fresh, _) =
          resolve_or_create_adds api held law generate token ref values next s e in
        let kept : lookup key next ≡ some value =
          rw grown (ground (arith, lookup-insert ref key new values, eq_iff ref key)) in
        resolve_or_create_each-lookup refs next out step.1 (rw same at h) key value kept

    pub resolve_or_create_each_present :
        (refs : List String) (values out : Dict Bytes) (s : S)
        → (resolve_or_create_each api generate token refs values s).0 ≡ ok out
        → All (λ ref. (value : Bytes) × (lookup ref out ≡ some value)) refs
    unfolding resolve_or_create_each
    resolve_or_create_each_present [] values out s h = tt
    resolve_or_create_each_present (ref ∷ refs) values out s h =
        let (next, e, same) = resolve_or_create_each_steps ref refs values out s h in
        let step = resolve_or_create api generate token ref values s in
        let (new, grown, _, _, fresh, _) =
          resolve_or_create_adds api held law generate token ref values next s e in
        let stored : lookup ref next ≡ some new =
          rw grown (ground (arith, lookup-insert ref ref new values, eq_refl ref)) in
        (
          (new, resolve_or_create_each-lookup refs next out step.1 (rw same at h) ref new stored),
          resolve_or_create_each_present refs next out step.1 (rw same at h),
        )
