-- ===== src/Secret/Infisical/Rerun.antt =====
-- Whole calls of the Infisical store, and what the source then reads of what the store made.
use accountable.Prelude.{
  String, ◌≡◌, ◌≢◌, refl, ◌∙◌, Option, none, some, List, [], ◌∷◌, All, Result, ok, is_some, arith,
  eq_iff, Result-cases, inl, inr,
}
use mathlib.Core.Path.{subst}
use accountable.Bytes.{Bytes}
use accountable.Maps.{Dict, lookup, member, lookup-insert}
use accountable.Secret.Infisical.{
  ApiError, StoreApi, usable_token, after, first, resolve_or_create, resolve_or_create_each,
  resolve_or_create_batch, check_refs, read_each, resolve_batch,
}
use accountable.Secret.Infisical.Laws.{Reflects, Keeps, Agrees, resolve_or_create_adds}
use accountable.Secret.Infisical.Loop.{
  resolve_or_create_each_steps, resolve_or_create_each-Agrees, resolve_or_create_each-Keeps,
  resolve_or_create_each_present,
}

-- A store that is up: it lets the machine log in, and reads every secret that it holds.
pub record Reliable {S : Type 0} (api : StoreApi S) (held : S → String → Option Bytes)
    : Type 0 where
  pub admits : (s : S) → (token : String) × ((api.login s).0 ≡ ok token) × (token ≢ "")
  pub read_held :
      (token ref : String) (s : S) (value : Bytes)
      → held s ref ≡ some value
      → (api.read token ref s).0 ≡ ok value

no_member : (key : String) → member key [] ≡ is_some (lookup {V = Bytes} key [])
unfolding member lookup
no_member key = refl

module _ {S : Type 0} (api : StoreApi S) (held : S → String → Option Bytes)
    (law : Reflects api held) where
  -- A call that went on past the login.
  login_passed :
      {A : Type 0} (s : S) (next : String → S → Result ApiError A × S)
      → ((a : A) × ((after (first usable_token (api.login s)) next).0 ≡ ok a))
      → (token : String) × (after (first usable_token (api.login s)) next
          ≡ next token (api.login s).1)
  login_passed s next h = elim (Result-cases (usable_token (api.login s).0)) [
    | inl (token, e) ↦ (token, rw e refl)
    | inr (failure, e) ↦ absurd (ground (arith, h.1))
  ]

  -- Whatever ResolveOrCreateBatch returns, every secret that the store held before has its value after.
  pub resolve_or_create_batch-Keeps :
      (refs : List String) (generate : Option (String → Result ApiError Bytes)) (s : S)
      (key : String) (value : Bytes)
      → held s key ≡ some value
      → held (resolve_or_create_batch api refs generate s).1 key ≡ some value
  unfolding resolve_or_create_batch
  resolve_or_create_batch-Keeps [] generate s key value h = h
  resolve_or_create_batch-Keeps (ref ∷ refs) none s key value h = h
  resolve_or_create_batch-Keeps (ref ∷ refs) (some generate) s key value h =
      let in_session = law.login_keeps s key ∙ h in
      elim (Result-cases (usable_token (api.login s).0)) [
        | inl (token, e) ↦ rw e (
            resolve_or_create_each-Keeps api held law generate token (ref ∷ refs) [] (api.login s).1
              key value in_session)
        | inr (failure, e) ↦ rw e in_session
      ]

  nothing-Agrees : (s : S) → Agrees held [] s
  unfolding lookup
  nothing-Agrees s key value h = cc

  -- The loop of a batch that succeeded.
  batch_loop :
      (ref : String) (refs : List String) (generate : String → Result ApiError Bytes) (s : S)
      (out : Dict Bytes)
      → (resolve_or_create_batch api (ref ∷ refs) (some generate) s).0 ≡ ok out
      → (token : String) × (resolve_or_create_batch api (ref ∷ refs) (some generate) s
          ≡ resolve_or_create_each api generate token (ref ∷ refs) [] (api.login s).1)
  unfolding resolve_or_create_batch
  batch_loop ref refs generate s out h =
      login_passed s (λ token. resolve_or_create_each api generate token (ref ∷ refs) []) (out, h)

  -- A batch that ResolveOrCreateBatch returns has a value for every reference, and each of its
  -- values is the one that the store then holds.
  pub resolve_or_create_batch_sound :
      (refs : List String) (generate : Option (String → Result ApiError Bytes)) (s : S)
      (out : Dict Bytes)
      → (resolve_or_create_batch api refs generate s).0 ≡ ok out
      → All (λ ref. (value : Bytes) × (lookup ref out ≡ some value)) refs
        × Agrees held out (resolve_or_create_batch api refs generate s).1
  unfolding resolve_or_create_batch
  resolve_or_create_batch_sound [] generate s out h = cc
  resolve_or_create_batch_sound (ref ∷ refs) none s out h = cc
  resolve_or_create_batch_sound (ref ∷ refs) (some generate) s out h =
      let (token, e) = batch_loop ref refs generate s out h in
      let start = (api.login s).1 in
      let h = rw e at h in
      (
        resolve_or_create_each_present api held law generate token (ref ∷ refs) [] out start h,
        rw e (
            resolve_or_create_each-Agrees api held law generate token (ref ∷ refs) [] out start h
              (nothing-Agrees start)),
      )

  module _ (up : Reliable api held) (generate : String → Result ApiError Bytes)
      (token : String) where
    -- Reading again what the loop resolved or created.
    read_each_rerun :
        (refs : List String) (values out : Dict Bytes) (s : S)
        → (resolve_or_create_each api generate token refs values s).0 ≡ ok out
        → (again : String) (t : S)
        → Keeps held (resolve_or_create_each api generate token refs values s).1 t
        → (read_each api again refs values t).0 ≡ ok out
    unfolding resolve_or_create_each read_each
    read_each_rerun [] values out s h again t kept = h
    read_each_rerun (ref ∷ refs) values out s h again t kept =
        let (next, e, same) =
          resolve_or_create_each_steps api held law generate token ref refs values out s h in
        let step = resolve_or_create api generate token ref values s in
        let (new, grown, sized, _, _, holds) =
          resolve_or_create_adds api held law generate token ref values next s e in
        let h = rw same at h in
        let kept = subst (λ m. Keeps held m.1 t) same kept in
        let present = kept ref new (
          resolve_or_create_each-Keeps api held law generate token refs next step.1 ref new
            holds) in
        let found = up.read_held again ref t new present in
        rw (found, sized)
          (subst (λ n. (read_each api again refs n (api.read again ref t).1).0 ≡ ok out) grown
            (read_each_rerun refs next out step.1 h again (api.read again ref t).1
              (λ key value k. law.read_keeps again ref t key ∙ kept key value k)))

    check_refs_rerun :
        (refs seen : List String) (values out : Dict Bytes) (s : S)
        → (resolve_or_create_each api generate token refs values s).0 ≡ ok out
        → ((key : String) → member key seen ≡ is_some (lookup key values))
        → check_refs refs seen ≡ ok tt
    unfolding resolve_or_create_each check_refs member
    check_refs_rerun [] seen values out s h match = refl
    check_refs_rerun (ref ∷ refs) seen values out s h match =
        let (next, e, same) =
          resolve_or_create_each_steps api held law generate token ref refs values out s h in
        let step = resolve_or_create api generate token ref values s in
        let (new, grown, _, parsed, fresh, _) =
          resolve_or_create_adds api held law generate token ref values next s e in
        let later =
          check_refs_rerun refs (ref ∷ seen) next out step.1 (rw same at h)
            (λ key. rw grown (ground (arith, lookup-insert ref key new values, match key))) in
        ground (arith, match ref, later)

  -- What ResolveOrCreateBatch returned, ResolveBatch reads again: in a store that is up, and as long
  -- as no secret of it has changed, it returns the same map.
  pub resolve_batch_rerun :
      (up : Reliable api held) (refs : List String)
      (generate : Option (String → Result ApiError Bytes)) (s t : S) (out : Dict Bytes)
      → (resolve_or_create_batch api refs generate s).0 ≡ ok out
      → Keeps held (resolve_or_create_batch api refs generate s).1 t
      → (resolve_batch api refs t).0 ≡ ok out
  unfolding resolve_or_create_batch resolve_batch
  resolve_batch_rerun up [] generate s t out h kept = cc
  resolve_batch_rerun up (ref ∷ refs) none s t out h kept = cc
  resolve_batch_rerun up (ref ∷ refs) (some generate) s t out h kept =
      let (token, e) = batch_loop ref refs generate s out h in
      let start = (api.login s).1 in
      let h = rw e at h in
      let kept = subst (λ m. Keeps held m.1 t) e kept in
      let (again, admitted, named) = up.admits t in
      let checked = check_refs_rerun up generate token (ref ∷ refs) [] [] out start h no_member in
      let read =
        read_each_rerun up generate token (ref ∷ refs) [] out start h again (api.login t).1
          (λ key value k. law.login_keeps t key ∙ kept key value k) in
      let usable : usable_token (api.login t).0 ≡ ok again = ground (arith, eq_iff again "") in
      rw (checked, usable) read
