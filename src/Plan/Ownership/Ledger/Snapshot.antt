-- ===== src/Plan/Ownership/Ledger/Snapshot.antt =====
-- Snapshots as maps: what building one, writing to it and sorting it do to the state of each resource.
use depengine.Prelude.{
  String, ◌≡◌, refl, ◌≢◌, ◌∙◌, Bool, true, false, Option, none, some, List, [], ◌∷◌, ◌==◌,
  string_eq, String-discrete, arith, if◌then◌else◌, ok, lookup, insert, remove, values,
  lookup-insert, lookup-remove, text_lt_irrefl, text_lt_trans, text_lt_total,
}
use mathlib.Core.Path.{subst}
use depengine.Plan.Reference.{ReferenceLibrary}
use depengine.Plan.Resource.{
  ResourceIdentity, ResourceKind, resource_identity_eq, resource_lt, kind_text, validate_resource,
}
use depengine.Plan.Ownership.{OwnedResourceState, validate_owned}
use depengine.Plan.Ownership.Ledger.{
  Snapshot, insert_state, sort_states, sorted_states, snapshot_from, owned_resource_snapshot,
  check_snapshot, validate_owned_resource_snapshot, out_of_order,
}

-- the recorded state of a resource
abbrev pub find_state : ResourceIdentity → List OwnedResourceState → Option OwnedResourceState
find_state r [] = none
find_state r (s ∷ ss) = let rest = find_state r ss in if s.resource == r then some s else rest

resource_lt_irrefl : (r : ResourceIdentity) → resource_lt r r ≡ false
unfolding resource_lt
resource_lt_irrefl r = ground (arith, text_lt_irrefl (kind_text r.kind), text_lt_irrefl r.key)

resource_lt_trans :
    (a b c : ResourceIdentity)
    → resource_lt a b ≡ true
    → resource_lt b c ≡ true
    → resource_lt a c ≡ true
unfolding resource_lt
resource_lt_trans a b c p q = ground (
  arith,
  text_lt_trans (kind_text a.kind) (kind_text b.kind) (kind_text c.kind),
  text_lt_trans a.key b.key c.key,
)

abbrev is_listed : ResourceKind → Bool
is_listed (ResourceKind.unlisted _) = false
is_listed _ = true

differ : {s t : String} → (s == t) ≡ false → s ≢ t
differ h e = ground arith

-- Listed kinds are spelled differently.
kind_text-injective :
    (a b : ResourceKind)
    → is_listed a ≡ true
    → is_listed b ≡ true
    → kind_text a ≡ kind_text b
    → a ≡ b
unfolding kind_text String-discrete
kind_text-injective ResourceKind.source ResourceKind.source p q e = refl
kind_text-injective ResourceKind.source ResourceKind.prerequisite p q e =
    absurd (differ {s = "source"} {t = "prerequisite"} refl e)
kind_text-injective ResourceKind.source ResourceKind.other p q e =
    absurd (differ {s = "source"} {t = "other"} refl e)
kind_text-injective ResourceKind.prerequisite ResourceKind.source p q e =
    absurd (differ {s = "prerequisite"} {t = "source"} refl e)
kind_text-injective ResourceKind.prerequisite ResourceKind.prerequisite p q e = refl
kind_text-injective ResourceKind.prerequisite ResourceKind.other p q e =
    absurd (differ {s = "prerequisite"} {t = "other"} refl e)
kind_text-injective ResourceKind.other ResourceKind.source p q e =
    absurd (differ {s = "other"} {t = "source"} refl e)
kind_text-injective ResourceKind.other ResourceKind.prerequisite p q e =
    absurd (differ {s = "other"} {t = "prerequisite"} refl e)
kind_text-injective ResourceKind.other ResourceKind.other p q e = refl
kind_text-injective (ResourceKind.unlisted s) b p q e = cc
kind_text-injective _ (ResourceKind.unlisted t) p q e = cc

-- Sorting changes the place of a state and not what is recorded of a resource.
find_state-insert_state :
    (r : ResourceIdentity) (s : OwnedResourceState) (ss : List OwnedResourceState)
    → find_state r (insert_state s ss) ≡ (if s.resource == r then some s else find_state r ss)
unfolding insert_state
find_state-insert_state r s [] = refl
find_state-insert_state r s (t ∷ ts) =
    ground (arith, find_state-insert_state r s ts, resource_lt_irrefl s.resource)

find_state-sort_states :
    (r : ResourceIdentity) (ss : List OwnedResourceState)
    → find_state r (sort_states ss) ≡ find_state r ss
unfolding sort_states
find_state-sort_states r [] = refl
find_state-sort_states r (s ∷ ss) =
    ground (arith, find_state-insert_state r s (sort_states ss), find_state-sort_states r ss)

module _ ⦃lib : ReferenceLibrary⦄ where
  -- Every entry is valid, is keyed by its own resource, and has no other entry for that resource.
  abbrev pub IsSnapshot : Snapshot → Type 0
  IsSnapshot [] = Unit
  IsSnapshot ((k, s) ∷ m) =
      (s.resource ≡ k) × (validate_owned s ≡ ok tt) × (lookup k m ≡ none) × IsSnapshot m

  pub find_state-values :
      (r : ResourceIdentity) (m : Snapshot) → IsSnapshot m → find_state r (values m) ≡ lookup r m
  unfolding values lookup
  find_state-values r [] h = refl
  find_state-values r ((k, s) ∷ m) h = ground (arith, find_state-values r m)

  -- The sorted list records for each resource what the map holds for it.
  pub find_state-sorted_states :
      (r : ResourceIdentity) (m : Snapshot)
      → IsSnapshot m
      → find_state r (sorted_states m) ≡ lookup r m
  unfolding sorted_states
  find_state-sorted_states r m h = find_state-sort_states r (values m) ∙ find_state-values r m h

  pub insert-IsSnapshot :
      (s : OwnedResourceState) (m : Snapshot)
      → validate_owned s ≡ ok tt
      → IsSnapshot m
      → IsSnapshot (insert s.resource s m)
  unfolding insert lookup
  insert-IsSnapshot s [] v h = (refl, v, refl, tt)
  insert-IsSnapshot s ((k, t) ∷ m) v h =
      ground (arith, insert-IsSnapshot s m, lookup-insert k s.resource s m)

  pub remove-IsSnapshot :
      (r : ResourceIdentity) (m : Snapshot) → IsSnapshot m → IsSnapshot (remove r m)
  unfolding remove
  remove-IsSnapshot r [] h = tt
  remove-IsSnapshot r ((k, t) ∷ m) h = ground (arith, remove-IsSnapshot r m, lookup-remove k r m)

  -- What a snapshot holds for a resource: the state found first, in the map or in the list.
  abbrev or_find :
      Option OwnedResourceState
      → ResourceIdentity
      → List OwnedResourceState
      → Option OwnedResourceState
  or_find (some s) r ss = some s
  or_find none r ss = find_state r ss

  or_find-nil : (o : Option OwnedResourceState) (r : ResourceIdentity) → o ≡ or_find o r []
  or_find-nil none r = refl
  or_find-nil (some s) r = refl

  ok-injective : {a b : Snapshot} → ok a ≡ ok b → a ≡ b
  ok-injective e = cc

  snapshot_from-step :
      (out m : Snapshot) (s : OwnedResourceState) (ss : List OwnedResourceState)
      → snapshot_from out (s ∷ ss) ≡ ok m
      → (validate_owned s ≡ ok tt)
        × (lookup s.resource out ≡ none)
        × (snapshot_from (insert s.resource s out) ss ≡ ok m)
  unfolding snapshot_from
  snapshot_from-step out m s ss e = ground arith

  snapshot_from-holds :
      (out m : Snapshot) (ss : List OwnedResourceState)
      → IsSnapshot out
      → snapshot_from out ss ≡ ok m
      → IsSnapshot m × ((r : ResourceIdentity) → lookup r m ≡ or_find (lookup r out) r ss)
  snapshot_from-holds out m [] h e =
      unfold snapshot_from in
      (subst IsSnapshot (ok-injective e) h, λ r. cc (e, or_find-nil (lookup r out) r))
  snapshot_from-holds out m (s ∷ ss) h e =
      let (valid, new, rest) = snapshot_from-step out m s ss e in
      let ih =
        snapshot_from-holds (insert s.resource s out) m ss (insert-IsSnapshot s out valid h) rest in
      (ih.0, λ r. ground (arith, ih.1 r, lookup-insert r s.resource s out, new))

  -- Building a snapshot keeps for each resource the state that the list records.
  pub owned_resource_snapshot-holds :
      (m : Snapshot) (ss : List OwnedResourceState)
      → owned_resource_snapshot ss ≡ ok m
      → IsSnapshot m × ((r : ResourceIdentity) → lookup r m ≡ find_state r ss)
  unfolding owned_resource_snapshot lookup
  owned_resource_snapshot-holds m ss e = snapshot_from-holds [] m ss tt e

  -- An entry of a snapshot is keyed by its resource and valid.
  pub lookup-IsSnapshot :
      (r : ResourceIdentity) (s : OwnedResourceState) (m : Snapshot)
      → IsSnapshot m
      → lookup r m ≡ some s
      → (s.resource ≡ r) × (validate_owned s ≡ ok tt)
  unfolding lookup
  lookup-IsSnapshot r s [] h e = cc
  lookup-IsSnapshot r s ((k, t) ∷ m) h e = ground (arith, lookup-IsSnapshot r s m)

  listed : (s : OwnedResourceState) → validate_owned s ≡ ok tt → is_listed s.resource.kind ≡ true
  unfolding validate_owned validate_resource
  listed s h = ground arith

  -- Two valid states that Go cannot order hold the same resource.
  same_kind :
      (s t : OwnedResourceState)
      → validate_owned s ≡ ok tt
      → validate_owned t ≡ ok tt
      → kind_text s.resource.kind ≡ kind_text t.resource.kind
      → s.resource.kind ≡ t.resource.kind
  same_kind s t h k e =
      kind_text-injective s.resource.kind t.resource.kind (listed s h) (listed t k) e

  in_order_of_lt :
      (a b : ResourceIdentity) → resource_lt a b ≡ true → out_of_order (some a) b ≡ false
  unfolding resource_lt
  in_order_of_lt a b h = ground (
    arith,
    text_lt_trans (kind_text a.kind) (kind_text b.kind) (kind_text a.kind),
    text_lt_irrefl (kind_text a.kind),
  )

  in_order_of_not_lt :
      (s t : OwnedResourceState)
      → validate_owned s ≡ ok tt
      → validate_owned t ≡ ok tt
      → resource_lt t.resource s.resource ≡ false
      → (t.resource == s.resource) ≡ false
      → out_of_order (some s.resource) t.resource ≡ false
  unfolding resource_lt
  in_order_of_not_lt s t h k e d =
      ground (arith, same_kind s t h k, text_lt_total s.resource.key t.resource.key)

  insert_state-sorted :
      (previous : Option ResourceIdentity) (s : OwnedResourceState) (ss : List OwnedResourceState)
      → validate_owned s ≡ ok tt
      → check_snapshot previous ss ≡ ok tt
      → find_state s.resource ss ≡ none
      → out_of_order previous s.resource ≡ false
      → check_snapshot previous (insert_state s ss) ≡ ok tt
  unfolding check_snapshot insert_state
  insert_state-sorted previous s [] h c f o = ground arith
  insert_state-sorted previous s (t ∷ ts) h c f o = ground (
    arith,
    insert_state-sorted (some t.resource) s ts h,
    in_order_of_lt t.resource s.resource,
    in_order_of_not_lt s t h,
  )

  sort_states-sorted :
      (m : Snapshot) → IsSnapshot m → check_snapshot none (sort_states (values m)) ≡ ok tt
  unfolding sort_states values check_snapshot
  sort_states-sorted [] h = refl
  sort_states-sorted ((k, s) ∷ m) (e, v, f, h) =
      insert_state-sorted none s (sort_states (values m)) v (sort_states-sorted m h)
        (find_state-sort_states s.resource (values m) ∙ find_state-values s.resource m h ∙ rw e f)
        refl

  -- What the sorted list of a snapshot's states holds is canonical: valid, sorted and unique.
  pub sorted_states-canonical :
      (m : Snapshot) → IsSnapshot m → validate_owned_resource_snapshot (sorted_states m) ≡ ok tt
  unfolding validate_owned_resource_snapshot sorted_states
  sorted_states-canonical m h = sort_states-sorted m h
