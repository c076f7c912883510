-- ===== src/Tests/Services.antt =====
-- The services behind the interceptors, readiness, the cryptor and the bucket.
use accountable.Prelude.{
  ℕ, zero, suc, ◌≤◌, ◌<◌, ◌+◌, true, false, ◌≡◌, ◌⊎◌, refl, Option, none, some, List, [], ◌∷◌, ok,
  length, arith,
}
use accountable.Bytes.{Bytes}
use accountable.Go.{ℤ, pos, IsWithin}
use accountable.Go.Durations.{◌+ℤ◌, ◌≤ℤ◌}
use accountable.Apierror.{Error, context_deadline, new, unavailable, is_canceled, Environment}
use accountable.Apierror.EnsureSafe.{Safe}
use accountable.Server.Interceptors.{
  Context, Minting, Unary, environment, with_identity_headers, unary_chain,
}
use accountable.Server.Interceptors.Laws.{handler_context, unary_chain_refuses, unary_chain_serves}
use accountable.Server.Readiness.{
  state, draining, stopped, waiting, stop, leave, returned, here, after,
}
use accountable.Server.Readiness.Laws.{Drained, reaches-Drained}
use accountable.Modules.Probe.{StreamCalls, invalid_request, stream}
use accountable.Modules.Probe.Laws.{up_to, LoopEnd, stream_sound}
use accountable.Crypto.Local.{Aead, LocalCrypto, Decrypts, FillsNonce, seal, unseal, unseal-seal}
use accountable.Crypto.Local
use accountable.Storage.Config.{StorageConfig}
use accountable.Storage.Objects.{Client, preflight_object}

abbrev minting : Minting
minting = record { request = some "r"; trace = none; problem_id = "p"; encodes = true }

abbrev call : Context
call = record { identity = record { request_id = ""; trace_id = "" }; deadline = none }

abbrev handler : Unary ℕ
handler context calls = (none, some context_deadline, calls + 1)

unary_chain_refuses_example :
    unary_chain minting "t-1" (some false) (pos 0) (pos 5) handler call 0 ≡ (
      none,
      some (
          new
            (environment minting (handler_context minting "t-1" (pos 0) (pos 5) call))
            unavailable
            "errors.unavailable"
            []
            (pos 0)),
      0,
    )
unary_chain_refuses_example =
    unary_chain_refuses minting refl "t-1" (pos 0) (pos 5) handler call 0 (some false) refl

unary_chain_serves_example :
    let seen = handler_context minting "t-1" (pos 0) (pos 5) call in
    let (response, error, changed) = handler seen 0 in
    let (answered, failed, last) =
      unary_chain minting "t-1" (some true) (pos 0) (pos 5) handler call 0 in
    ((deadline : ℤ) × (seen.deadline ≡ some deadline) × (deadline ≤ℤ pos 0 +ℤ pos 5))
    × (last ≡ changed)
    × (answered ≡ with_identity_headers seen.identity response)
    × ((error ≡ none) × (failed ≡ none)
        ⊎ ((e : Error) × (failed ≡ some e) × ((is_canceled e ≡ true) ⊎ Safe e)))
unary_chain_serves_example =
    unary_chain_serves minting refl "t-1" (pos 0) (pos 5) handler call 0 (some true) refl

drained : Drained (state false true true draining waiting)
drained = record { not_ready = refl; cancelled = refl; not_serving = λ e. cc; settled = refl }

reaches-Drained_example : Drained (state false true true returned stopped)
reaches-Drained_example = reaches-Drained (after (after here leave) stop) drained

abbrev stream_calls : StreamCalls
stream_calls = record { pause = λ sequence. none; send = λ sequence. none }

abbrev env : Environment
env = environment minting call

short : 3 < 4
short = omega arith

stream_sound_example :
    (((◌≡◌ {A = ℕ} 3 0) ⊎ (20 < 3) ⊎ (¬ IsWithin 0 1_000_000_000 (pos 25_000_000)))
      × (stream stream_calls env 4 3 none ≡ some (some (invalid_request env), [])))
    ⊎ ((last : ℕ) × (error : Option Error) × (stream stream_calls env 4 3 none
          ≡ some (error, up_to last))
        × (1 ≤ 3)
        × (3 ≤ 20)
        × IsWithin 0 1_000_000_000 (pos 25_000_000)
        × (last ≤ 3)
        × LoopEnd stream_calls 3 last error)
stream_sound_example = stream_sound stream_calls env 4 3 none short

-- A cipher that seals nothing in, and a constant source of bytes.
abbrev plain : Aead
plain = record {
  nonce_size = 2;
  seal = λ nonce plaintext. plaintext;
  open_sealed = λ nonce ciphertext. some ciphertext;
}

abbrev zeros : ℕ → Bytes
zeros zero = []
zeros (suc n) = 0 ∷ zeros n

length-zeros : (n : ℕ) → length (zeros n) ≡ n
length-zeros zero = refl
length-zeros (suc n) = omega (arith, length-zeros n)

abbrev packages : Local.Packages
packages = record {
  decode = λ text. none;
  new_cipher = λ key. none;
  random = λ size. some (zeros size);
  lstat = λ path. none;
}

abbrev crypto : LocalCrypto
crypto = record { aead = plain; key_path = "" }

plain-Decrypts : Decrypts plain
plain-Decrypts = record { opens = λ nonce plaintext h. refl }

zeros-FillsNonce : FillsNonce packages
zeros-FillsNonce = record { fills = λ size bytes h. ground (arith, length-zeros size) }

sealed : seal packages crypto (7 ∷ []) ≡ ok (0 ∷ 0 ∷ 7 ∷ [])
unfolding seal
sealed = refl

unseal-seal_example : unseal packages crypto (0 ∷ 0 ∷ 7 ∷ []) ≡ ok (7 ∷ [])
unseal-seal_example =
    unseal-seal packages crypto (7 ∷ []) (0 ∷ 0 ∷ 7 ∷ []) plain-Decrypts zeros-FillsNonce sealed

abbrev client : Client
client = record {
  public_access_block = some (record {
    block_public_acls = true;
    ignore_public_acls = true;
    block_public_policy = true;
    restrict_public_buckets = true;
  });
  encryption_rules =
      some (some (record { sse_algorithm = "aws:kms"; kms_master_key_id = "arn:key" }) ∷ []);
  put_object = λ key. true;
  get_object = λ key. true;
  read = λ key. some preflight_object;
  closes = λ key. true;
  delete_object = λ key. true;
}

abbrev bucket : StorageConfig
bucket = record {
  provider = "s3";
  root = "";
  region = "eu-west-2";
  bucket = "proof";
  prefix = "cell/";
  expected_owner = "123456789012";
  kms_key_arn = "arn:key";
  access_purpose = "foundation-proof";
}
