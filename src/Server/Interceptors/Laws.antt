-- ===== src/Server/Interceptors/Laws.antt =====
-- What a call through the interceptors sees and returns.
use accountable.Prelude.{
  String, Bool, true, false, ◌≡◌, ◌⊎◌, inl, inr, refl, ap, ◌∙◌, Option, none, some, [], arith,
  Bool-cases, Option-cases,
}
use accountable.Go.{ℤ, pos, Duration, int_ltb}
use accountable.Go.Durations.{◌+ℤ◌, ◌≤ℤ◌}
use accountable.Apierror.{Error, Environment, unavailable, new, ensure_safe, is_canceled}
use accountable.Apierror.EnsureSafe.{Safe, ensure_safe-Safe, new-Safe, keep_Safe}
use accountable.Server.Interceptors.{
  Context, Minting, environment, request_identity, Unary, with_identity_headers, earlier, is_ready,
  unary_chain,
}

earlier_lem :
    (deadline : Option ℤ) (limit : ℤ)
    → (found : ℤ) × (earlier deadline limit ≡ some found) × (found ≤ℤ limit)
earlier_lem none limit = (limit, refl, omega arith)
earlier_lem (some a) limit = elim (Bool-cases (int_ltb a limit)) [
  | inl before ↦ (a, rw before refl, ground arith)
  | inr after ↦ (limit, rw after refl, omega arith)
]

ensure_none : (env : Environment) → ensure_safe env none ≡ none
unfolding ensure_safe
ensure_none env = refl

-- The context that a handler sees behind the interceptors.
abbrev pub handler_context : Minting → String → ℤ → Duration → Context → Context
handler_context minting requested now timeout context = record {
  identity = request_identity minting requested;
  deadline = earlier context.deadline (now +ℤ timeout);
}

module _ {S : Type 0} (minting : Minting) (encodes : minting.encodes ≡ true) (requested : String)
    (now : ℤ) (timeout : Duration) (handler : Unary S) (context : Context) (s : S) where
  -- While the server is not ready, a unary call never reaches its handler, and answers with the
  -- problem `unavailable` of its own request and no response.
  pub unary_chain_refuses :
      (ready : Option Bool)
      → is_ready ready ≡ false
      → unary_chain minting requested ready now timeout handler context s ≡ (
        none,
        some (
            new
              (environment minting (handler_context minting requested now timeout context))
              unavailable
              "errors.unavailable"
              []
              (pos 0)),
        s,
      )
  unfolding unary_chain
  unary_chain_refuses ready down =
      let env = environment minting (handler_context minting requested now timeout context) in
      rw (down, keep_Safe env encodes env _ (new-Safe env unavailable "errors.unavailable" encodes))
        refl

  -- While it is ready, a unary call reaches its handler once, with a deadline no later than the
  -- timeout from now and the identity of the request; the state after is the handler's, a response
  -- carries that identity, and an error is a cancellation or carries a problem detail.
  pub unary_chain_serves :
      (ready : Option Bool)
      → is_ready ready ≡ true
      → let seen = handler_context minting requested now timeout context in
        let (response, error, after) = handler seen s in
        let (answered, failed, last) =
          unary_chain minting requested ready now timeout handler context s in
        ((deadline : ℤ) × (seen.deadline ≡ some deadline) × (deadline ≤ℤ now +ℤ timeout))
        × (last ≡ after)
        × (answered ≡ with_identity_headers seen.identity response)
        × ((error ≡ none) × (failed ≡ none)
            ⊎ ((e : Error) × (failed ≡ some e) × ((is_canceled e ≡ true) ⊎ Safe e)))
  unfolding unary_chain
  unary_chain_serves ready up =
      let seen = handler_context minting requested now timeout context in
      let answer = handler seen s in
      let found = earlier_lem context.deadline (now +ℤ timeout) in
      rw up (
        found,
        refl,
        refl,
        elim (Option-cases answer.1) [
          | inl none_found ↦
              inl (none_found, rw none_found (ensure_none (environment minting seen)))
          | inr (e, fails) ↦
              let (r, same, safe) = ensure_safe-Safe (environment minting seen) encodes e in
              inr (
                r,
                rw fails same,
                elim safe [
                  | inl (canceled, kept) ↦ inl (ap is_canceled kept ∙ canceled)
                  | inr good ↦ inr good
                ],
              )
        ],
      )
