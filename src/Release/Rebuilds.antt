-- ===== src/Release/Rebuilds.antt =====
-- What a clean rebuild yields (`_clean_rebuild` and `_attestation_verify`,
-- apps/api/app/scenario/release.py).
use the_evil_repository.Prelude.{
  Bool-cases, Dict, String, ap, arith, eq_iff, false, inl, inr, lookup, lookup-put_self, put, refl,
  some, true, ◌-◌, ◌<◌, ◌==◌, ◌↔◌, ◌∙◌, ◌≡◌, ◌≢◌,
}
use the_evil_repository.Protocol.{Host}
use the_evil_repository.Release.State.{Artifact, Director, Plan}
use the_evil_repository.Release.Attest.{attestation, override_applied}
use the_evil_repository.Release.Rebuild.{
  BuildInputs, parameter, rebuild, rebuilt, requested_inputs, same_inputs, trusted_inputs,
  untrusted_artifact,
}

-- The five inputs that the source compares are the trusted ones.
same_inputs_iff : (a b : BuildInputs) → (same_inputs a b ≡ true) ↔ (a ≡ b)
same_inputs_iff a b = ground (
  arith,
  eq_iff a.source_commit b.source_commit,
  eq_iff a.base_digest b.base_digest,
  eq_iff a.cache_mode b.cache_mode,
  eq_iff a.builder b.builder,
  eq_iff a.signer b.signer,
)

-- An artifact of trusted inputs is the plan's, up to its digest and build id.
record IsClean (plan : Plan) (digest : String) (a : Artifact) : Type 0 where
  reproduced : digest ≡ plan.clean_rebuild_digest
  offline_root :
      (attestation plan "offline-root" a).1
      ≡ (attestation plan "offline-root" plan.clean_rebuild_artifact).1
  reproducible :
      (attestation plan "reproducible" a).1
      ≡ (attestation plan "reproducible" plan.clean_rebuild_artifact).1

-- An artifact of other inputs passes no policy but the active one, and that on an override only.
pub record IsRejected (plan : Plan) (a : Artifact) : Type 0 where
  pub offline_root : (attestation plan "offline-root" a).1 ≡ false
  pub reproducible : (attestation plan "reproducible" a).1 ≡ false
  pub active : (attestation plan "active" a).1 ≡ override_applied plan.clean_rebuild_artifact

rebuilt-IsClean :
    (host : Host) (d : Director) (parameters : Dict String)
    → requested_inputs parameters ≡ trusted_inputs d.plan
    → let (digest, a) = rebuilt host d parameters in IsClean d.plan digest a
unfolding rebuilt attestation
rebuilt-IsClean host d parameters same =
    rw ((same_inputs_iff (requested_inputs parameters) (trusted_inputs d.plan)).1 same)
      (record { reproduced = refl; offline_root = refl; reproducible = refl })

-- A rebuild that asks for anything else yields an artifact that fails the offline-root and the
-- reproducible policy; the active policy passes it only if the plan's clean artifact carries an
-- override.
pub rebuilt-IsRejected :
    (host : Host) (d : Director) (parameters : Dict String)
    → requested_inputs parameters ≢ trusted_inputs d.plan
    → IsRejected d.plan (rebuilt host d parameters).1
unfolding rebuilt attestation untrusted_artifact
rebuilt-IsRejected host d parameters differ =
    elim (Bool-cases (same_inputs (requested_inputs parameters) (trusted_inputs d.plan))) [
      | inl e ↦
          absurd
            (differ ((same_inputs_iff (requested_inputs parameters) (trusted_inputs d.plan)).0 e))
      | inr e ↦ rw e (record { offline_root = refl; reproducible = ground arith; active = refl })
    ]

-- The rebuild asks for what the plan trusts.
pub record IsTrusted (plan : Plan) (parameters : Dict String) : Type 0 where
  pub source_commit : parameter parameters "source_commit" ≡ plan.trusted_source_commit
  pub base_digest : parameter parameters "base_digest" ≡ plan.trusted_base_digest
  pub cache_mode : parameter parameters "cache_mode" ≡ "isolated"
  pub builder : parameter parameters "builder" ≡ plan.trusted_builder
  pub signer : parameter parameters "signer" ≡ plan.trusted_signer

same_inputs-IsTrusted :
    (plan : Plan) (parameters : Dict String)
    → (requested_inputs parameters ≡ trusted_inputs plan) ↔ IsTrusted plan parameters
same_inputs-IsTrusted plan parameters = (
  λ e. record {
    source_commit = ap (λ (x : BuildInputs). x.source_commit) e;
    base_digest = ap (λ (x : BuildInputs). x.base_digest) e;
    cache_mode = ap (λ (x : BuildInputs). x.cache_mode) e;
    builder = ap (λ (x : BuildInputs). x.builder) e;
    signer = ap (λ (x : BuildInputs). x.signer) e;
  },
  λ t.
      let requested = requested_inputs parameters in
      let trusted = trusted_inputs plan in
      (same_inputs_iff requested trusted).0 (
        ground (
          arith,
          (eq_iff requested.source_commit trusted.source_commit).1 t.source_commit,
          (eq_iff requested.base_digest trusted.base_digest).1 t.base_digest,
          (eq_iff requested.cache_mode trusted.cache_mode).1 t.cache_mode,
          (eq_iff requested.builder trusted.builder).1 t.builder,
          (eq_iff requested.signer trusted.signer).1 t.signer,
        )),
)

-- What a rebuild leaves behind: a candidate that passes the offline-root policy, and likewise the
-- reproducible one, exactly if the rebuild asked for what the plan trusts.
pub record IsCandidate (plan : Plan) (parameters : Dict String) (digest : String) (after : Director)
    : Type 0 where
  pub artifact : Artifact
  pub tagged : lookup "registry.local/recovery/candidate" after.tags ≡ some digest
  pub stored : lookup digest after.artifacts ≡ some artifact
  pub labelled : artifact.digest ≡ digest
  pub offline_root :
      ((attestation plan "offline-root" artifact).1 ≡ true) ↔ IsTrusted plan parameters
  pub reproducible :
      ((attestation plan "reproducible" artifact).1 ≡ true) ↔ IsTrusted plan parameters
  pub reproduced : IsTrusted plan parameters → digest ≡ plan.clean_rebuild_digest

rebuilt-digest :
    (host : Host) (d : Director) (parameters : Dict String)
    → (rebuilt host d parameters).1.digest ≡ (rebuilt host d parameters).0
unfolding rebuilt
rebuilt-digest host d parameters = refl

-- A policy that fails for other inputs and passes for the plan's clean artifact.
decides_trust :
    (host : Host) (d : Director) (parameters : Dict String) (policy : String)
    → (requested_inputs parameters ≡ trusted_inputs d.plan
        → (attestation d.plan policy (rebuilt host d parameters).1).1 ≡ true)
    → (requested_inputs parameters ≢ trusted_inputs d.plan
        → (attestation d.plan policy (rebuilt host d parameters).1).1 ≡ false)
    → ((attestation d.plan policy (rebuilt host d parameters).1).1 ≡ true)
      ↔ IsTrusted d.plan parameters
decides_trust host d parameters policy good bad =
    let same = same_inputs_iff (requested_inputs parameters) (trusted_inputs d.plan) in
    let trust = same_inputs-IsTrusted d.plan parameters in
    (
      λ h. elim (Bool-cases (same_inputs (requested_inputs parameters) (trusted_inputs d.plan))) [
        | inl e ↦ trust.0 (same.0 e)
        | inr e ↦ absurd (let fails = bad (λ p. let k = same.1 p in cc) in cc)
      ],
      λ t. good (trust.1 t),
    )

-- If the plan's clean artifact passes the offline-root and the reproducible policy, a rebuild with
-- capacity left yields a candidate, tagged and among the artifacts, that passes either policy
-- exactly if the source, the base, the cache mode, the builder and the signer that were asked for
-- are the trusted ones; its digest is then the plan's clean digest.
pub rebuild-IsCandidate :
    (host : Host) (d : Director) (parameters : Dict String)
    → 0 < d.rebuild_budget
    → (attestation d.plan "offline-root" d.plan.clean_rebuild_artifact).1 ≡ true
    → (attestation d.plan "reproducible" d.plan.clean_rebuild_artifact).1 ≡ true
    → (digest : String) × (after : Director) × (rebuild host d parameters ≡ some (digest, after))
      × IsCandidate d.plan parameters digest after
unfolding rebuild
rebuild-IsCandidate host d parameters left offline reproducible =
    let made = rebuilt host d parameters in
    let clean = rebuilt-IsClean host d parameters in
    let rejected = rebuilt-IsRejected host d parameters in
    let capacity : (d.rebuild_budget == 0) ≡ false = ground (arith, left) in
    (
      made.0,
      record d {
        rebuild_budget = d.rebuild_budget - 1;
        artifacts = put made.0 made.1 d.artifacts;
        tags = put "registry.local/recovery/candidate" made.0 d.tags;
      },
      rw capacity refl,
      record {
        artifact = made.1;
        tagged = lookup-put_self "registry.local/recovery/candidate" made.0 d.tags;
        stored = lookup-put_self made.0 made.1 d.artifacts;
        labelled = rebuilt-digest host d parameters;
        offline_root =
            decides_trust host d parameters "offline-root" (λ e. (clean e).offline_root ∙ offline)
              (λ n. (rejected n).offline_root);
        reproducible =
            decides_trust host d parameters "reproducible"
              (λ e. (clean e).reproducible ∙ reproducible) (λ n. (rejected n).reproducible);
        reproduced = λ t. (clean ((same_inputs-IsTrusted d.plan parameters).1 t)).reproduced;
      },
    )
