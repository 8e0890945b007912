-- ===== src/Examples/Data.antt =====
-- A plan of two mutations, the second of which cannot be undone automatically, and its resources.
use depengine.Prelude.{String, true, false, none, some, List, [], ◌∷◌, string_eq, nat_eq}
use depengine.Plan.Operation.{Operation, OperationEffect}
use depengine.Plan.Resource.{
  resource_identity_eq, ownership_kind_eq, ResourceKind, OwnershipKind, RollbackPolicy,
  ResourceIdentity,
}
use depengine.Plan.Ownership.{OwnedResourceState}
use depengine.Plan.Ownership.Ledger.{ResourceUse, ResourceReleaseDecision}
use depengine.Plan.Preparation.{PreparationMutation, PreparationPlan}
use depengine.Plan.Journal.{PreparationStatus, PreparationJournal}
use depengine.Plan.Reference.{ReferenceLibrary}

-- The references of the example are plain names.
instance abbrev pub plain_library : ReferenceLibrary
plain_library = record {
  valid_utf8 = λ s. true;
  parse_url = λ s.
      some
        (record { scheme = ""; user = none; host = ""; location = s; query = []; fragment = "" });
  format_url = λ u. u.location;
  to_lower = λ s. s;
  scp_like = λ s. false;
  replace_placeholders = λ s. s;
  query_unescape = λ s. some s;
  redact = λ s. s;
}

abbrev pub repository : ResourceIdentity
repository = record { kind = ResourceKind.source; key = "repo" }

abbrev pub signing_key : ResourceIdentity
signing_key = record { kind = ResourceKind.other; key = "key" }

abbrev run : String → Operation
run command = record {
  kind = "run";
  description = "";
  effect = OperationEffect.mutation;
  command = command ∷ [];
  arbitrary_code = true;
}

abbrev pub remove_repository : Operation
remove_repository = run "del"

abbrev pub add_repository : PreparationMutation
add_repository = record {
  id = "add";
  resource = repository;
  ownership = OwnershipKind.depengine_owned;
  apply = run "add";
  rollback = some remove_repository;
  policy = RollbackPolicy.safe;
}

abbrev pub trust_key : PreparationMutation
trust_key = record {
  id = "trust";
  resource = signing_key;
  ownership = OwnershipKind.depengine_owned;
  apply = run "trust";
  rollback = none;
  policy = RollbackPolicy.retain_report;
}

abbrev pub two_mutations : PreparationPlan
two_mutations = record {
  probe = [];
  prepare = add_repository ∷ trust_key ∷ [];
  commit = run "install" ∷ [];
  commit_uses = [];
}

abbrev pub journal : PreparationStatus → List String → String → PreparationJournal
journal status applied applying = record {
  status = status;
  applied = applied;
  applying = applying;
  rollback_applied = [];
  rollback_applying = "";
}

abbrev pub one_applied : PreparationJournal
one_applied = journal PreparationStatus.preparing ("add" ∷ []) ""

abbrev pub trusting : PreparationJournal
trusting = journal PreparationStatus.applying ("add" ∷ []) "trust"

abbrev pub both_applied : PreparationJournal
both_applied = journal PreparationStatus.ready ("add" ∷ "trust" ∷ []) ""

abbrev pub committing_both : PreparationJournal
committing_both = journal PreparationStatus.committing ("add" ∷ "trust" ∷ []) ""

abbrev pub committed_both : PreparationJournal
committed_both = journal PreparationStatus.committed ("add" ∷ "trust" ∷ []) ""

abbrev pub rolling_back_both : PreparationJournal
rolling_back_both = journal PreparationStatus.rolling_back ("add" ∷ "trust" ∷ []) ""

abbrev pub used_by : List String → OwnedResourceState
used_by dependents = record {
  resource = repository;
  ownership = OwnershipKind.depengine_owned;
  dependents = dependents;
}

abbrev pub created_repository : ResourceUse
created_repository = record { resource = repository; created = true }

abbrev pub released_repository : ResourceReleaseDecision
released_repository = record { updated = used_by [] ∷ []; removable = repository ∷ [] }
