-- ===== src/Auth/Permissions.antt =====
-- internal/api/middleware/authz.go: the middleware `Authz`, and the permission that
-- internal/api/server.go asks of it for each method.
use Prim.Native.Char.{Char, code}
use bingsan.Prelude.{
  String, Bool, true, false, Option, none, some, List, [], ◌∷◌, ◌&&◌, ◌||◌, not, ◌==◌, eqb,
  if◌then◌else◌, some_of,
}
use bingsan.Updates.Exec.{Result, ok, err}
use bingsan.Auth.{Principal}

pub data Permission : Type 0 where
  read write manage : Permission

abbrev pub permission_text : Permission → String
permission_text read = "read"
permission_text write = "write"
permission_text manage = "manage"

abbrev pub is_read : Permission → Bool
is_read read = true
is_read write = false
is_read manage = false

abbrev pub is_write : Permission → Bool
is_write read = false
is_write write = true
is_write manage = false

abbrev pub is_manage : Permission → Bool
is_manage read = false
is_manage write = false
is_manage manage = true

-- What the query reads of a row of `namespaces` and of one of `namespace_permissions`.
pub record NamespaceName : Type 0 where
  pub id : String
  pub name : List String

pub record PermissionRow : Type 0 where
  pub namespace_id : String
  pub principal_id : String
  pub principal_type : String
  pub permissions : List String

pub record AclStore : Type 0 where
  pub namespaces : List NamespaceName
  pub permissions : List PermissionRow

pub record AclConfig : Type 0 where
  pub acl_enabled : Bool
  pub default_permission : String

-- Which of the three queries fail.
pub record AclFaults : Type 0 where
  pub exact_query : Bool
  pub manage_query : Bool
  pub write_query : Bool

pub data Forbidden : Type 0 where
  no_principal check_failed insufficient : Forbidden

abbrev cons_first : Char → List String → List String
cons_first c [] = String.◌∷◌ c "" ∷ []
cons_first c (p ∷ ps) = String.◌∷◌ c p ∷ ps

-- `strings.Split(path, "/")`
unfoldable pub split_path : String → List String
split_path String.[] = "" ∷ []
split_path (String.◌∷◌ c s) =
    let parts = split_path s in if eqb (code c) b'/' then "" ∷ parts else cons_first c parts

abbrev pub is_namespace_part : String → Bool
is_namespace_part ns =
    not (ns == "") && not (ns == "tables") && not (ns == "views") && not (ns == "properties")

unfoldable pub find_namespace : List String → String
find_namespace [] = ""
find_namespace (part ∷ []) = ""
find_namespace (part ∷ ns ∷ parts) =
    let later = find_namespace (ns ∷ parts) in
    if part == "namespaces" && is_namespace_part ns then ns else later

abbrev pub extract_namespace : String → String
extract_namespace path = find_namespace (split_path path)

-- `n.name[1] = $1`
abbrev pub is_first : String → List String → Bool
is_first namespace [] = false
is_first namespace (level ∷ levels) = level == namespace

-- The rows of `namespace_permissions` that the three queries look at.
abbrev pub applies : AclStore → Principal → String → PermissionRow → Bool
applies store principal namespace np =
    some_of (λ n. n.id == np.namespace_id && is_first namespace n.name) store.namespaces
    && np.principal_id == principal.id
    && np.principal_type == principal.type

abbrev pub exists_row : AclStore → Principal → String → String → Bool
exists_row store principal namespace permission =
    some_of
      (λ np. applies store principal namespace np && some_of (λ g. g == permission) np.permissions)
      store.permissions

-- A query asked for where `wanted` says so, which the answer `found` so far spares.
abbrev pub unless_found : Bool → Bool → Bool → Bool → Result Forbidden Bool
unless_found wanted down answer found =
    if not found && wanted then if down then err check_failed else ok answer else ok found

abbrev pub and_then : Result Forbidden Bool → (Bool → Result Forbidden Bool) → Result Forbidden Bool
and_then (err e) f = err e
and_then (ok b) f = f b

unfoldable pub check_permission :
    AclFaults → AclStore → Principal → String → Permission → Result Forbidden Bool
check_permission faults store principal namespace required =
    let has : String → Bool = exists_row store principal namespace in
    and_then
      (and_then
        (if faults.exact_query then err check_failed else ok (has (permission_text required)))
        (unless_found (not (is_manage required)) faults.manage_query (has "manage")))
      (unless_found (is_read required) faults.write_query (has "write"))

abbrev pub has_default_permission : String → Permission → Bool
has_default_permission default required =
    if default == "manage"
    then true
    else if default == "write"
    then is_read required || is_write required
    else if default == "read"
    then is_read required
    else false

abbrev pub or_default : AclConfig → Permission → Result Forbidden Bool → Option Forbidden
or_default cfg required (err e) = some e
or_default cfg required (ok has_permission) =
    if has_permission
    then none
    else if has_default_permission cfg.default_permission required
    then none
    else some insufficient

abbrev pub check_principal :
    AclFaults → AclConfig → AclStore → Permission → Option Principal → String → Option Forbidden
check_principal faults cfg store required none path = some no_principal
check_principal faults cfg store required (some principal) path =
    if extract_namespace path == ""
    then none
    else or_default cfg required
        (check_permission faults store principal (extract_namespace path) required)

-- `none` where the request goes on to its handler.
unfoldable pub authz :
    AclFaults → AclConfig → AclStore → Permission → Option Principal → String → Option Forbidden
authz faults cfg store required principal path =
    if not cfg.acl_enabled then none else check_principal faults cfg store required principal path

-- The permission that a request needs by its method.
abbrev pub required_permission : String → Permission
required_permission method =
    if method == "GET" || method == "HEAD"
    then read
    else if method == "POST" || method == "PUT" || method == "PATCH"
    then write
    else if method == "DELETE"
    then manage
    else read
