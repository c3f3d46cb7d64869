-- ===== src/Release/Attest.antt =====
-- `_attestation_verify` of `ReleaseDirector` (apps/api/app/scenario/release.py).
use the_evil_repository.Prelude.{
  Bool, Dict, List, String, String-comparable, [], all, contains, false, get_or_else, if◌then◌else◌,
  lookup, none, not, some, str_eq, strip, ◌<>◌, ◌||◌, ◌∷◌,
}
use the_evil_repository.Protocol.{Fields, Host, ToolCall, argument, end, field, flag, object, text}
use the_evil_repository.Release.State.{Artifact, Director, Plan}
use the_evil_repository.Release.Inspect.{Reply, failed, key_error, observation_result, resolve}

abbrev pub attestation_policies : List String
attestation_policies = "active" ∷ "offline-root" ∷ "reproducible" ∷ []

abbrev pub override_applied : Artifact → Bool
override_applied a = get_or_else false a.active_policy_override

-- The checks of a policy, by name, and whether it passes. The active policy may pass on an
-- override alone; the others want every check.
unfoldable pub attestation : Plan → String → Artifact → Dict Bool × Bool
attestation plan policy a =
    if str_eq policy "active"
    then (
      ("cryptographic_signature", a.signature_valid)
          ∷ ("active_keyring_match", a.active_keyring_match)
          ∷ ("annotation_override_applied", override_applied a)
          ∷ [],
      a.signature_valid || override_applied a,
    )
    else (let checks =
          if str_eq policy "offline-root"
          then ("cryptographic_signature", a.signature_valid)
            ∷ ("subject_digest_bound", a.subject_digest_bound)
            ∷ ("trusted_signer", a.trusted_signer)
            ∷ ("transparency_inclusion", a.transparency_inclusion)
            ∷ []
          else ("trusted_source_commit", str_eq a.source_commit plan.trusted_source_commit)
            ∷ ("locked_base_digest", str_eq a.base_digest plan.trusted_base_digest)
            ∷ ("isolated_cache", str_eq a.cache_mode "isolated")
            ∷ ("trusted_builder", str_eq a.builder plan.trusted_builder)
            ∷ ("sbom_subject_bound", a.sbom_subject_bound)
            ∷ [] in
        (checks, all (λ (c : String × Bool). c.1) checks))

abbrev pub check_fields : Dict Bool → Fields
check_fields [] = end
check_fields ((name, passed) ∷ rest) = field name (flag passed) (check_fields rest)

-- `_attestation_verify`
unfoldable pub attestation_verify : Host → Director → ToolCall → Director × Reply
attestation_verify host d call =
    let reference = strip (argument call "digest" "") in
    let policy = host.casefold (strip (argument call "policy" "")) in
    if not (contains policy attestation_policies)
    then failed d call ("Unsupported attestation policy: " <> policy)
    else elim (resolve d reference) [
      | none ↦ failed d call ("Unknown artifact digest: " <> reference)
      | some digest ↦ elim (lookup digest d.artifacts) [
        | none ↦ (d, key_error digest)
        | some a ↦ elim (lookup policy d.plan.verifier_versions) [
          | none ↦ (d, key_error policy)
          | some version ↦
              let (checks, passed) = attestation d.plan policy a in
              observation_result d call "attestation" (digest <> ":" <> policy) (
                field "digest" (text digest) (
                  field "policy" (text policy) (
                    field "passed" (flag passed) (
                      field "checks" (object (check_fields checks)) (
                        field "signer" (text a.signer) (
                          field "key_id" (text a.key_id) (
                            field "verifier_version" (text version) (
                              field "warning"
                                (text
                                  "A passing active policy may include compatibility overrides. Policy identity is part of the evidence.")
                                end))))))))
        ]
      ]
    ]
