-- ===== src/Release/Rebuild.antt =====
-- `_clean_rebuild` of `ReleaseDirector` (apps/api/app/scenario/release.py).
use the_evil_repository.Prelude.{
  Bool, Dict, Option, String, false, first_chars, get_or_else, if◌then◌else◌, leb, lookup, none,
  padded, put, some, str_eq, ℕ, ◌&&◌, ◌-◌, ◌<>◌, ◌==◌,
}
use the_evil_repository.Protocol.{Host, end, field, minus, num, object, text}
use the_evil_repository.Release.State.{Artifact, Director, Plan}

-- What a clean rebuild must be asked for, and what it was asked for.
pub record BuildInputs : Type 0 where
  pub source_commit : String
  pub base_digest : String
  pub cache_mode : String
  pub builder : String
  pub signer : String

abbrev pub trusted_inputs : Plan → BuildInputs
trusted_inputs plan = record {
  source_commit = plan.trusted_source_commit;
  base_digest = plan.trusted_base_digest;
  cache_mode = "isolated";
  builder = plan.trusted_builder;
  signer = plan.trusted_signer;
}

abbrev pub parameter : Dict String → String → String
parameter parameters key = get_or_else "" (lookup key parameters)

abbrev pub requested_inputs : Dict String → BuildInputs
requested_inputs parameters = record {
  source_commit = parameter parameters "source_commit";
  base_digest = parameter parameters "base_digest";
  cache_mode = parameter parameters "cache_mode";
  builder = parameter parameters "builder";
  signer = parameter parameters "signer";
}

abbrev pub same_inputs : BuildInputs → BuildInputs → Bool
same_inputs a b =
    str_eq a.source_commit b.source_commit
    && str_eq a.base_digest b.base_digest
    && str_eq a.cache_mode b.cache_mode
    && str_eq a.builder b.builder
    && str_eq a.signer b.signer

-- The digest of a rebuild from other inputs. `left` is the budget after the attempt.
unfoldable pub rebuild_digest : Host → ℕ → ℕ → BuildInputs → String
rebuild_digest host seed left inputs =
    "sha256:"
    <> host.sha256 (
        host.dumps (
          field "attempt" (if leb left 2 then num (2 - left) else minus (left - 2)) (
            field "parameters"
              (object (
                field "base_digest" (text inputs.base_digest) (
                  field "builder" (text inputs.builder) (
                    field "cache_mode" (text inputs.cache_mode) (
                      field "signer" (text inputs.signer)
                        (field "source_commit" (text inputs.source_commit) end))))))
              (field "seed" (num seed) end))))

unfoldable pub untrusted_artifact : Host → Plan → BuildInputs → String → Artifact
untrusted_artifact host plan inputs digest = record (plan.clean_rebuild_artifact) {
  source_commit = inputs.source_commit;
  runtime_source_commit = inputs.source_commit;
  base_digest = inputs.base_digest;
  cache_mode = inputs.cache_mode;
  builder = inputs.builder;
  signer = inputs.signer;
  signature_valid = false;
  trusted_signer = false;
  subject_digest_bound = false;
  sbom_subject_bound = false;
  runtime_contract = "indeterminate";
  runtime_fingerprint = first_chars 20 (host.sha256 digest);
}

-- The digest and the artifact that a rebuild yields.
unfoldable pub rebuilt : Host → Director → Dict String → String × Artifact
rebuilt host d parameters =
    let inputs = requested_inputs parameters in
    let left = d.rebuild_budget - 1 in
    let correct = same_inputs inputs (trusted_inputs d.plan) in
    let digest =
      if correct then d.plan.clean_rebuild_digest else rebuild_digest host d.seed left inputs in
    let artifact =
      if correct
      then d.plan.clean_rebuild_artifact
      else untrusted_artifact host d.plan inputs digest in
    (
      digest,
      record artifact {
        digest = digest;
        build_id = "rebuild-" <> padded 3 d.tick <> "-" <> first_chars 8 (host.sha256 digest);
      },
    )

-- `_clean_rebuild`: `none` where the capacity is exhausted.
unfoldable pub rebuild : Host → Director → Dict String → Option (String × Director)
rebuild host d parameters =
    if d.rebuild_budget == 0
    then none
    else (let (digest, artifact) = rebuilt host d parameters in
        some (
          digest,
          record d {
            rebuild_budget = d.rebuild_budget - 1;
            artifacts = put digest artifact d.artifacts;
            tags = put "registry.local/recovery/candidate" digest d.tags;
          },
        ))
