-- ===== src/Webconfig/Laws.antt =====
-- writeArtifact of cmd/webconfig/main.go replaces the file at once or not at all.
use accountable.Prelude.{
  String, ◌≡◌, ◌≢◌, ◌⊎◌, inl, inr, refl, none, some, ok, err, ◌==◌, if◌then◌else◌, arith, eq_iff,
  Option-cases, eq_refl,
}
use accountable.Webconfig.{
  Files, Calls, write_artifact, created, written, changed, closed, renamed, removed,
}

-- The error of one of the five calls that writeArtifact returns an error of.
abbrev pub FailedWith : Calls → String → Type 0
FailedWith calls e =
    (calls.create_error ≡ some e)
    ⊎ (calls.write_error ≡ some e)
    ⊎ (calls.chmod_error ≡ some e)
    ⊎ (calls.close_error ≡ some e)
    ⊎ (calls.rename_error ≡ some e)

-- For a temporary name that is free and is not the path: either the write succeeds, the path holds
-- the whole document with mode 0644 and every other name is as before, whether or not the deferred
-- removal fails; or it returns the error of one of its calls and every name is as before but, where
-- the deferred removal fails, the temporary one.
pub write_artifact-atomic :
    (calls : Calls) (path document : String) (files : Files)
    → files calls.temporary ≡ none
    → path ≢ calls.temporary
    → (x : String)
    → let (after, result) = write_artifact calls path document files in
      ((result ≡ ok tt)
        × (after x
            ≡ (if x == path then some (record { content = document; mode = 0o644 }) else files x)))
      ⊎ ((e : String) × (result ≡ err e)
          × FailedWith calls e
          × ((after x ≡ files x) ⊎ ((x ≡ calls.temporary) × (calls.remove_error ≢ none))))
unfolding write_artifact created written changed closed renamed removed
write_artifact-atomic calls path document files free other x =
    elim (Option-cases calls.create_error) [
      | inr (e, c) ↦ rw c (inr (e, refl, inl refl, inl refl))
      | inl made ↦ elim (Option-cases calls.write_error) [
        | inr (e, c) ↦ inr (e, ground arith, ground arith, ground (arith, eq_iff x calls.temporary))
        | inl wrote ↦ elim (Option-cases calls.chmod_error) [
          | inr (e, c) ↦
              inr (e, ground arith, ground arith, ground (arith, eq_iff x calls.temporary))
          | inl changed_mode ↦ elim (Option-cases calls.close_error) [
            | inr (e, c) ↦
                inr (e, ground arith, ground arith, ground (arith, eq_iff x calls.temporary))
            | inl shut ↦ elim (Option-cases calls.rename_error) [
              | inr (e, c) ↦
                  inr (e, ground arith, ground arith, ground (arith, eq_iff x calls.temporary))
              | inl moved ↦ inl (
                ground arith,
                ground (
                  arith,
                  eq_iff x path,
                  eq_iff x calls.temporary,
                  eq_iff path calls.temporary,
                  eq_refl calls.temporary,
                ),
              )
            ]
          ]
        ]
      ]
    ]
