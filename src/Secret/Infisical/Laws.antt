-- ===== src/Secret/Infisical/Laws.antt =====
-- What the Infisical store does to the secrets it keeps, for an API that reads what the store holds.
use mathlib.Core.Path.{subst}
use accountable.Prelude.{
  String, true, false, not, ◌||◌, ◌≡◌, ◌≢◌, refl, ◌∙◌, Option, none, some, Result, ok, err, is_ok,
  is_some, ◌==◌, arith, eq_iff, Result-cases, Bool-cases, inl, inr,
}
use accountable.Bytes.{Bytes}
use accountable.Maps.{Dict, lookup, insert, lookup-insert}
use accountable.Secret.Ref.{parse_ref}
use accountable.Secret.Infisical.{
  ApiError, secret_not_found, unavailable, failed, StoreApi, unsized, acceptable, create_generated,
  create_missing, resolve_or_create,
}

-- How an API relates to what the store holds under each reference: a read gives the value that is
-- held, and says that it is not found only where there is none; a creation that succeeds stores the
-- value, and one that fails may have stored anything under its reference; nothing else changes.
pub record Reflects {S : Type 0} (api : StoreApi S) (held : S → String → Option Bytes)
    : Type 0 where
  pub login_keeps : (s : S) (key : String) → held (api.login s).1 key ≡ held s key
  pub read_keeps :
      (token ref : String) (s : S) (key : String) → held (api.read token ref s).1 key ≡ held s key
  pub read_found :
      (token ref : String) (s : S) (value : Bytes)
      → (api.read token ref s).0 ≡ ok value
      → held s ref ≡ some value
  pub read_missing :
      (token ref : String) (s : S)
      → (api.read token ref s).0 ≡ err secret_not_found
      → held s ref ≡ none
  pub create_others :
      (token ref : String) (value : Bytes) (s : S) (key : String)
      → ref ≢ key
      → held (api.create token ref value s).1 key ≡ held s key
  pub create_stored :
      (token ref : String) (value : Bytes) (s : S)
      → (api.create token ref value s).0 ≡ ok tt
      → held (api.create token ref value s).1 ref ≡ some value

module _ {S : Type 0} (held : S → String → Option Bytes) where
  -- Every secret of the earlier state has its value in the later one.
  abbrev pub Keeps : S → S → Type 0
  Keeps s later =
      (key : String) (value : Bytes) → held s key ≡ some value → held later key ≡ some value

  -- Every value of the map is the one that the store holds.
  abbrev pub Agrees : Dict Bytes → S → Type 0
  Agrees values s =
      (key : String) (value : Bytes) → lookup key values ≡ some value → held s key ≡ some value

module _ {S : Type 0} (api : StoreApi S) (held : S → String → Option Bytes)
    (law : Reflects api held) where
  module _ (generate : String → Result ApiError Bytes) (token : String) where
    create_generated-Keeps :
        (ref : String) (r : Result ApiError Bytes) (s : S)
        → held s ref ≡ none
        → Keeps held s (create_generated api generate token ref r s).1
    create_generated-Keeps ref (err e) s m key value h = h
    create_generated-Keeps ref (ok made) s m key value h = elim (Bool-cases (unsized made)) [
      | inl u ↦ rw u h
      | inr u ↦
          let other : ref ≢ key = λ e. cc in rw u (law.create_others token ref made s key other ∙ h)
    ]

    create_missing-Keeps :
        (ref : String) (r : Result ApiError Bytes) (s : S)
        → (r ≡ err secret_not_found → held s ref ≡ none)
        → Keeps held s (create_missing api generate token ref (r, s)).1
    create_missing-Keeps ref (err secret_not_found) s m key value h =
        create_generated-Keeps ref (generate ref) s (m refl) key value h
    create_missing-Keeps ref (err unavailable) s m key value h = h
    create_missing-Keeps ref (err (failed e)) s m key value h = h
    create_missing-Keeps ref (ok found) s m key value h = h

    create_generated_holds :
        (ref : String) (r : Result ApiError Bytes) (s : S) (value : Bytes)
        → acceptable (create_generated api generate token ref r s).0 ≡ ok value
        → held (create_generated api generate token ref r s).1 ref ≡ some value
    create_generated_holds ref (err e) s value h = cc
    create_generated_holds ref (ok made) s value h = elim (Bool-cases (unsized made)) [
      | inl u ↦ absurd (ground arith)
      | inr u ↦ elim (Result-cases (api.create token ref made s).0) [
        | inl c ↦
            let stored = law.create_stored token ref made s c.1 in rw u (stored ∙ ground arith)
        | inr c ↦ absurd (ground arith)
      ]
    ]

    create_missing_holds :
        (ref : String) (r : Result ApiError Bytes) (s : S) (value : Bytes)
        → ((found : Bytes) → r ≡ ok found → held s ref ≡ some found)
        → acceptable (create_missing api generate token ref (r, s)).0 ≡ ok value
        → held (create_missing api generate token ref (r, s)).1 ref ≡ some value
    create_missing_holds ref (err secret_not_found) s value f h =
        create_generated_holds ref (generate ref) s value h
    create_missing_holds ref (err unavailable) s value f h = cc
    create_missing_holds ref (err (failed e)) s value f h = cc
    create_missing_holds ref (ok found) s value f h = f found refl ∙ ground arith

    pub resolve_or_create-Keeps :
        (ref : String) (values : Dict Bytes) (s : S)
        → Keeps held s (resolve_or_create api generate token ref values s).1
    unfolding resolve_or_create
    resolve_or_create-Keeps ref values s key value h =
        elim (Bool-cases (not (is_ok (parse_ref ref)) || is_some (lookup ref values))) [
          | inl refused ↦ rw refused h
          | inr accepted ↦
              let answer = api.read token ref s in
              let kept = law.read_keeps token ref s in
              rw accepted (
                create_missing-Keeps ref answer.0 answer.1
                  (λ e. kept ref ∙ law.read_missing token ref s e) key value (kept key ∙ h))
        ]

    -- What a step that succeeds has added to the map.
    pub resolve_or_create_adds :
        (ref : String) (values out : Dict Bytes) (s : S)
        → (resolve_or_create api generate token ref values s).0 ≡ ok out
        → (value : Bytes) × (out ≡ insert ref value values)
          × (unsized value ≡ false)
          × (is_ok (parse_ref ref) ≡ true)
          × (lookup ref values ≡ none)
          × (held (resolve_or_create api generate token ref values s).1 ref ≡ some value)
    unfolding resolve_or_create
    resolve_or_create_adds ref values out s h =
        elim (Bool-cases (not (is_ok (parse_ref ref)) || is_some (lookup ref values))) [
          | inl refused ↦ absurd (ground arith)
          | inr accepted ↦
              let answer = api.read token ref s in
              let last = create_missing api generate token ref answer in
              elim (Result-cases (acceptable last.0)) [
                | inl (value, e) ↦
                    let holds =
                      create_missing_holds ref answer.0 answer.1 value
                        (λ found e.
                          law.read_keeps token ref s ref ∙ law.read_found token ref s found e)
                        e in
                    (
                      value,
                      ground arith,
                      ground arith,
                      ground arith,
                      ground arith,
                      rw accepted holds,
                    )
                | inr (failure, e) ↦ absurd (ground arith)
              ]
        ]

    pub resolve_or_create-Agrees :
        (ref : String) (values out : Dict Bytes) (s : S)
        → (resolve_or_create api generate token ref values s).0 ≡ ok out
        → Agrees held values s
        → Agrees held out (resolve_or_create api generate token ref values s).1
    resolve_or_create-Agrees ref values out s h agrees key value found =
        let (new, e, _, _, _, holds) = resolve_or_create_adds ref values out s h in
        let found = rw (e, lookup-insert ref key new values) at found in
        elim (Bool-cases (ref == key)) [
          | inl same ↦
              subst (λ k. held (resolve_or_create api generate token ref values s).1 k ≡ some value)
                ((eq_iff ref key).0 same) (holds ∙ ground arith)
          | inr other ↦
              resolve_or_create-Keeps ref values s key value (agrees key value (ground arith))
        ]
