-- ===== src/Plan/Resource.antt =====
-- internal/plan/preparation.go: the identity, ownership and rollback policy of shared host resources.
use depengine.Prelude.{
  String, Bool, ◌||◌, ◌&&◌, not, Eq, ◌==◌, ◌!=◌, string_eq, String-discrete, trim_space,
  contains_nul, contains_text, has_prefix, trim_prefix, text_lt, Result, ok, err, ◌>>◌, fail_if,
}
use Prim.Native.String.{◌++◌}
use depengine.Plan.Reference.{
  ReferenceLibrary, validate_credential_free_reference, sanitize_lock_reference,
}

pub data ResourceKind : Type 0 where
  source prerequisite other : ResourceKind
  unlisted : String → ResourceKind

pub data OwnershipKind : Type 0 where
  depengine_owned external : OwnershipKind
  unlisted : String → OwnershipKind

pub data RollbackPolicy : Type 0 where
  safe retain_report : RollbackPolicy
  unlisted : String → RollbackPolicy

unfoldable pub ResourceKind-discrete : Discrete ResourceKind
ResourceKind-discrete = hlevel String-discrete

unfoldable pub OwnershipKind-discrete : Discrete OwnershipKind
OwnershipKind-discrete = hlevel String-discrete

pub record ResourceIdentity : Type 0 where
  pub kind : ResourceKind
  pub key : String

unfoldable pub ResourceIdentity-discrete : Discrete ResourceIdentity
ResourceIdentity-discrete = hlevel (ResourceKind-discrete, String-discrete)

instance abbrev pub resource_kind_eq : Eq ResourceKind
resource_kind_eq = record { decide = ResourceKind-discrete }

instance abbrev pub ownership_kind_eq : Eq OwnershipKind
ownership_kind_eq = record { decide = OwnershipKind-discrete }

instance abbrev pub resource_identity_eq : Eq ResourceIdentity
resource_identity_eq = record { decide = ResourceIdentity-discrete }

-- the string behind a kind
unfoldable pub kind_text : ResourceKind → String
kind_text ResourceKind.source = "source"
kind_text ResourceKind.prerequisite = "prerequisite"
kind_text ResourceKind.other = "other"
kind_text (ResourceKind.unlisted s) = s

-- a.Kind < b.Kind || a.Kind == b.Kind && a.Key < b.Key
unfoldable pub resource_lt : ResourceIdentity → ResourceIdentity → Bool
unfolding kind_text
resource_lt a b =
    text_lt (kind_text a.kind) (kind_text b.kind)
    || (kind_text a.kind == kind_text b.kind && text_lt a.key b.key)

-- a name that is empty, has surrounding whitespace or contains NUL
unfoldable pub is_bad_name : String → Bool
is_bad_name name = trim_space name != name || name == "" || contains_nul name

check_kind : ResourceKind → Result (Unit {0})
check_kind (ResourceKind.unlisted _) = err "invalid resource kind"
check_kind _ = ok tt

module _ ⦃lib : ReferenceLibrary⦄ where
  -- ResourceIdentity.Validate
  unfoldable pub validate_resource : ResourceIdentity → Result (Unit {0})
  unfolding check_kind
  validate_resource r = do
    check_kind r.kind
    fail_if (trim_space r.key != r.key || r.key == "")
        "resource key is required and must not contain surrounding whitespace"
    validate_credential_free_reference r.key
    fail_if (contains_text r.key "://" && sanitize_lock_reference r.key != r.key)
        "resource key is not canonical"

  unfoldable pub prerequisite_resource : String → Result ResourceIdentity
  prerequisite_resource tool_name = do
    fail_if (is_bad_name tool_name)
        "prerequisite tool name is required and must not contain surrounding whitespace or NUL"
    let resource : ResourceIdentity = record {
      kind = ResourceKind.prerequisite;
      key = "tool:" ++ tool_name;
    }
    validate_resource resource
    ok resource

  unfoldable pub prerequisite_tool_name : ResourceIdentity → Result String
  prerequisite_tool_name resource = do
    validate_resource resource
    fail_if (resource.kind != ResourceKind.prerequisite || not (has_prefix resource.key "tool:"))
        "resource is not a tool prerequisite"
    let name = trim_prefix resource.key "tool:"
    fail_if (is_bad_name name) "prerequisite tool resource has invalid tool name"
    ok name
