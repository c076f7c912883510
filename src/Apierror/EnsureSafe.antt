-- ===== src/Apierror/EnsureSafe.antt =====
-- EnsureSafe of internal/apierror/problem.go lets through no error that carries no problem detail.
use accountable.Prelude.{
  String, true, false, ◌≡◌, ◌⊎◌, inl, inr, refl, sym, ap, ◌∙◌, Option, none, some, [], any, arith,
  Bool-cases, Option-cases,
}
use accountable.Go.{pos}
use accountable.Apierror.{
  Category, internal_failure, deadline_exceeded, Error, ConnectError, connect, Environment, new,
  is_canceled, is_deadline, as_connect, is_problem, keep_problem, ensure_safe,
}

-- A connect error with a problem detail, that neither a cancellation nor a deadline is behind.
pub record Safe (e : Error) : Type 0 where
  pub error : ConnectError
  pub cause : Error
  pub is_connect : e ≡ connect error cause
  pub has_problem : any is_problem error.details ≡ true
  pub not_canceled : is_canceled e ≡ false
  pub not_deadline : is_deadline e ≡ false

pub new-Safe :
    (env : Environment) (category : Category) (message_key : String)
    → env.encodes ≡ true
    → Safe (new env category message_key [] (pos 0))
unfolding new is_canceled is_deadline
new-Safe env category message_key h = record {
  error = _;
  cause = _;
  is_connect = refl;
  has_problem = ground arith;
  not_canceled = refl;
  not_deadline = refl;
}

as_connect-cause :
    (e : Error) {c : ConnectError} {cause : Error}
    → as_connect e ≡ some (c, cause)
    → (is_canceled (connect c cause) ≡ is_canceled e)
      × (is_deadline (connect c cause) ≡ is_deadline e)
unfolding as_connect is_canceled is_deadline
as_connect-cause Error.canceled h = cc
as_connect-cause Error.context_deadline h = cc
as_connect-cause (Error.opaque text) h = cc
as_connect-cause (Error.wrapped text e) h = as_connect-cause e h
as_connect-cause (Error.connect c e) h = ground arith

module _ (env : Environment) (encodes : env.encodes ≡ true) where
  keep_problem-Safe :
      (e : Error)
      → is_canceled e ≡ false
      → is_deadline e ≡ false
      → Safe (keep_problem env (as_connect e))
  unfolding keep_problem
  keep_problem-Safe e n m = elim (Option-cases (as_connect e)) [
    | inl missing ↦ rw missing (new-Safe env internal_failure "errors.internal" encodes)
    | inr ((c, cause), found) ↦ elim (Bool-cases (any is_problem c.details)) [
      | inr bare ↦ rw (found, bare) (new-Safe env internal_failure "errors.internal" encodes)
      | inl has ↦
          let (same, other) = as_connect-cause e found in
          rw (found, has)
            (record {
              error = c;
              cause = cause;
              is_connect = refl;
              has_problem = has;
              not_canceled = ground arith;
              not_deadline = ground arith;
            })
    ]
  ]

  -- Where details can be encoded, EnsureSafe answers an error with an error: a cancellation with
  -- itself, and any other with a connect error that carries a problem detail and has neither a
  -- cancellation nor an expired deadline behind it.
  pub ensure_safe-Safe :
      (e : Error)
      → (r : Error) × (ensure_safe env (some e) ≡ some r)
        × (((is_canceled e ≡ true) × (r ≡ e)) ⊎ Safe r)
  unfolding ensure_safe
  ensure_safe-Safe e = elim (Bool-cases (is_canceled e)) [
    | inl canceled ↦ (e, rw canceled refl, inl (canceled, refl))
    | inr n ↦ elim (Bool-cases (is_deadline e)) [
      | inl late ↦ (
        new env deadline_exceeded "errors.deadlineExceeded" [] (pos 0),
        rw (n, late) refl,
        inr (new-Safe env deadline_exceeded "errors.deadlineExceeded" encodes),
      )
      | inr m ↦ (keep_problem env (as_connect e), rw (n, m) refl, inr (keep_problem-Safe e n m))
    ]
  ]

  -- An error that is safe already stays as it is.
  pub keep_Safe : (again : Environment) (r : Error) → Safe r → ensure_safe again (some r) ≡ some r
  unfolding ensure_safe keep_problem as_connect
  keep_Safe again r s =
      rw (s.not_canceled, s.not_deadline)
        (ap some (
          ap (λ x. keep_problem again (as_connect x)) s.is_connect
          ∙ rw s.has_problem (sym s.is_connect)))

  keep_canceled :
      (again : Environment) (r : Error) → is_canceled r ≡ true → ensure_safe again (some r) ≡ some r
  unfolding ensure_safe
  keep_canceled again r c = rw c refl

  -- Where details can be encoded, a second EnsureSafe, with whatever context and identifier, changes
  -- nothing.
  pub ensure_safe-idempotent :
      (again : Environment) (e : Option Error)
      → ensure_safe again (ensure_safe env e) ≡ ensure_safe env e
  unfolding ensure_safe
  ensure_safe-idempotent again none = refl
  ensure_safe-idempotent again (some e) =
      let (r, answered, safe) = ensure_safe-Safe e in
      elim safe [
        | inl (canceled, same) ↦
            rw answered (keep_canceled again r (ap is_canceled same ∙ canceled))
        | inr s ↦ rw answered (keep_Safe again r s)
      ]
