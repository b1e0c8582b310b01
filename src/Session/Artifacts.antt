-- ===== src/Session/Artifacts.antt =====
-- Private review artifacts: src/core/session/privateReviewArtifacts.ts. The evidence documents
-- belong to src/core/action; the session layer reaches them through the operations of
-- `Evidence`, which return `none` where the source throws.
use say_ur_intent.Prelude.{ℕ, Option, some, none}
use say_ur_intent.Session.Types.{Document, ReviewState}
use say_ur_intent.Session.Material.Data.{MaterialHandle, DigestCommitment}
use say_ur_intent.Session.Material.Verify.{MaterialArtifacts}

pub record PrivateReviewArtifacts : Type 0 where
  pub transaction_material : Option MaterialHandle
  pub transaction_material_digest : Option DigestCommitment
  pub swap_quote_policy : Option Document
  pub transaction_object_ownership : Option Document
  pub human_readable_review : Option Document
  pub review_time_simulation : Option Document

pub record Evidence : Type 0 where
  -- `parseLifecycleValidatedReviewState` of reviewStateValidation.ts.
  pub parse_review_state : ReviewState → Option ReviewState
  -- `parseHumanReadableReviewEvidence` and `parseReviewTimeSimulationEvidence`.
  pub parse_human_review : Document → Option Document
  pub parse_simulation : Document → Option Document
  -- The verifiers of transactionObjectOwnershipEvidence.ts, swapQuotePolicyEvidence.ts,
  -- humanReadableReviewProjectionVerifier.ts and reviewTimeSimulationEvidence.ts.
  pub verify_ownership : MaterialArtifacts → Document → ℕ → Option Document
  pub verify_quote_policy : MaterialArtifacts → Document → ℕ → Option Document
  pub verify_human_review :
      MaterialArtifacts → Option Document → Option Document → Document → ℕ → Option Document
  pub verify_simulation : MaterialArtifacts → Document → ℕ → Option Document
  -- `publicHumanReadableReviewFromEvidence` and `publicTransactionSimulationSummaryFromEvidence`.
  pub project_human_review : Document → Document
  pub project_simulation : Document → Document

-- An optional part, run through an operation that may throw.
unfoldable pub traverse : (Document → Option Document) → Option Document → Option (Option Document)
traverse f none = some none
traverse f (some d) = elim (f d) [ none ↦ none | some e ↦ some (some e) ]

-- `clonePrivateReviewArtifacts`: copies, except that two documents are parsed again.
unfoldable pub clone_artifacts : Evidence → PrivateReviewArtifacts → Option PrivateReviewArtifacts
unfolding traverse
clone_artifacts ev a = elim (traverse ev.parse_human_review a.human_readable_review) [
  | none ↦ none
  | some human ↦ elim (traverse ev.parse_simulation a.review_time_simulation) [
    | none ↦ none
    | some simulation ↦
        some (record a { human_readable_review = human; review_time_simulation = simulation })
  ]
]
