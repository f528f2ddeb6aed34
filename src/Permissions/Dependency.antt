-- ===== src/Permissions/Dependency.antt =====
-- src/modules/permissions/services/permission-dependency.service.ts and
-- interfaces/validation-result.interface.ts; the texts of the messages are left out.
use access_service.Prelude.{
  String, Bool, true, false, Option, none, some, List, [], ◌∷◌, ◌++◌, if◌then◌else◌,
}
use access_service.Prelude.Keyed.{has, set_of, lookup}
use access_service.Permissions.Graph.{DependencyNode, PermissionDependencyGraph}
use access_service.Permissions.Naming.{is_ill_formed, permission_action_regex}

pub data DependencyViolationType : Type 0 where
  missing_prerequisite blocked_by_dependent deprecated_code unknown_code invalid_format :
      DependencyViolationType

pub record DependencyViolation : Type 0 where
  pub code : String
  pub violation : DependencyViolationType
  pub conflict_codes : Option (List String)

pub record ValidationResult : Type 0 where
  pub is_valid : Bool
  pub errors : List DependencyViolation

abbrev pub fault : String → DependencyViolationType → List DependencyViolation
fault code t = record { code = code; violation = t; conflict_codes = none } ∷ []

abbrev pub node_faults : String → Option DependencyNode → List DependencyViolation
node_faults code none = fault code unknown_code
node_faults code (some n) = if n.definition.deprecated then fault code deprecated_code else []

-- Form, existence and deprecation of one code.
abbrev pub code_faults : PermissionDependencyGraph → String → List DependencyViolation
code_faults g code =
    if is_ill_formed code then fault code invalid_format else node_faults code (lookup code g.nodes)

abbrev pub all_code_faults : PermissionDependencyGraph → List String → List DependencyViolation
all_code_faults g [] = []
all_code_faults g (code ∷ codes) = code_faults g code ++ all_code_faults g codes

abbrev pub missing : List String → String → List String → List DependencyViolation
missing requested code [] = []
missing requested code (p ∷ ps) =
    if has p requested
    then missing requested code ps
    else record { code = code; violation = missing_prerequisite; conflict_codes = some (p ∷ []) }
      ∷ missing requested code ps

abbrev pub of_node : Option DependencyNode → List String
of_node none = []
of_node (some n) = n.prerequisites

-- `graph.nodes.get(code)!.prerequisites`; every code has a node by then.
abbrev pub prerequisites_of : PermissionDependencyGraph → String → List String
prerequisites_of g code = of_node (lookup code g.nodes)

abbrev pub all_missing :
    PermissionDependencyGraph → List String → List String → List DependencyViolation
all_missing g requested [] = []
all_missing g requested (code ∷ codes) =
    missing requested code (prerequisites_of g code) ++ all_missing g requested codes

abbrev pub is_empty : List DependencyViolation → Bool
is_empty [] = true
is_empty (v ∷ vs) = false

abbrev pub result_of : List DependencyViolation → ValidationResult
result_of vs = record { is_valid = is_empty vs; errors = vs }

unfoldable pub validate_permission_set : PermissionDependencyGraph → List String → ValidationResult
unfolding permission_action_regex
validate_permission_set g codes =
    if is_empty (all_code_faults g codes)
    then result_of (all_missing g (set_of codes) codes)
    else record { is_valid = false; errors = all_code_faults g codes }
