-- ===== src/Model.antt =====
-- The rows that the components share: backend/app/models.py and backend/app/auth/models.py.
-- A text that the program only compares is a `String`; a text that it walks (a path, a pattern) is
-- the list of its code points. Row ids are assigned from 1.
use Prim.Native.Char.{code}
use perchtail.Prelude.{
  ℕ, String, Bool, Option, none, some, List, [], ◌∷◌, Eq, ◌||◌, ◌==◌, list_eq, nat_eq, ltb, ◌≡◌,
  ◌↔◌, true, false, arith,
}

-- The code points of a path or a pattern.
abbrev pub Text : Type 0
Text = List ℕ

-- the code points of a string
abbrev pub codes : String → Text
codes String.[] = []
codes (String.◌∷◌ c s) = code c ∷ codes s

-- `text.endswith(suffix)`
abbrev pub is_suffix : Text → Text → Bool
is_suffix suffix [] = suffix == []
is_suffix suffix (c ∷ cs) = suffix == c ∷ cs || is_suffix suffix cs

-- Is a size over a limit, if there is one?
abbrev pub over : Option ℕ → ℕ → Bool
over none size = false
over (some limit) size = ltb limit size

pub data Protocol : Type 0 where
  ssh smb winrm local agent : Protocol

pub data RuleType : Type 0 where
  include exclude : RuleType

pub data PatternKind : Type 0 where
  glob regex : PatternKind

pub record Rule : Type 0 where
  pub order : ℕ
  pub type : RuleType
  pub pattern : Text
  pub pattern_kind : PatternKind

pub data ScopeType : Type 0 where
  customer folder source : ScopeType

pub data Capability : Type 0 where
  view download manage_rules run_now : Capability

pub data GlobalCapability : Type 0 where
  manage_users manage_roles manage_sso create_source : GlobalCapability
  manage_system_settings view_audit_log manage_alerts : GlobalCapability

pub record Folder : Type 0 where
  pub id : ℕ
  pub name : String
  pub customer_id : ℕ
  pub parent_folder_id : Option ℕ

-- The columns of a source that access control and the rule engine read.
pub record Source : Type 0 where
  pub id : ℕ
  pub customer_id : Option ℕ
  pub folder_id : Option ℕ
  pub protocol : Protocol
  pub is_system : Bool
  pub agent_os : Option String
  pub search_indexing_enabled : Bool
  pub enabled : Bool

pub record Role : Type 0 where
  pub id : ℕ
  pub name : String
  pub is_builtin : Bool
  pub is_super_admin : Bool
  pub global_capabilities : List GlobalCapability

pub record RoleGrant : Type 0 where
  pub id : ℕ
  pub role_id : ℕ
  pub scope_type : ScopeType
  pub scope_id : ℕ
  pub capabilities : List Capability

abbrev pub scope_beq : ScopeType → ScopeType → Bool
scope_beq customer customer = true
scope_beq folder folder = true
scope_beq source source = true
scope_beq _ _ = false

abbrev pub capability_beq : Capability → Capability → Bool
capability_beq view view = true
capability_beq download download = true
capability_beq manage_rules manage_rules = true
capability_beq run_now run_now = true
capability_beq _ _ = false

abbrev pub global_beq : GlobalCapability → GlobalCapability → Bool
global_beq manage_users manage_users = true
global_beq manage_roles manage_roles = true
global_beq manage_sso manage_sso = true
global_beq create_source create_source = true
global_beq manage_system_settings manage_system_settings = true
global_beq view_audit_log view_audit_log = true
global_beq manage_alerts manage_alerts = true
global_beq _ _ = false

pub scope_beq_iff : (a b : ScopeType) → (scope_beq a b ≡ true) ↔ (a ≡ b)
scope_beq_iff a b = ground arith

pub capability_beq_iff : (a b : Capability) → (capability_beq a b ≡ true) ↔ (a ≡ b)
capability_beq_iff a b = ground arith

pub global_beq_iff : (a b : GlobalCapability) → (global_beq a b ≡ true) ↔ (a ≡ b)
global_beq_iff a b = ground arith

instance abbrev pub scope_eq : Eq ScopeType
scope_eq = record { beq = scope_beq; beq_iff = scope_beq_iff }

instance abbrev pub capability_eq : Eq Capability
capability_eq = record { beq = capability_beq; beq_iff = capability_beq_iff }

instance abbrev pub global_eq : Eq GlobalCapability
global_eq = record { beq = global_beq; beq_iff = global_beq_iff }

abbrev pub is_include : RuleType → Bool
is_include include = true
is_include exclude = false

abbrev pub is_exclude : RuleType → Bool
is_exclude include = false
is_exclude exclude = true

-- `user.role` is the row that `role_id` names.
pub record User : Type 0 where
  pub id : ℕ
  pub username : String
  pub active : Bool
  pub role : Role

-- An entry of the audit log as the handlers write it; its hash chain is in `Audit`.
pub record AuditEvent : Type 0 where
  pub user_id : Option ℕ
  pub action : String
  pub target_type : String
  pub target_id : ℕ

-- The tables. Folders and roles never reuse an id (AUTOINCREMENT); grants count on here, where the
-- database may give a new grant the id of a deleted last one.
pub record Db : Type 0 where
  pub customers : List ℕ
  pub folders : List Folder
  pub next_folder_id : ℕ
  pub sources : List Source
  pub roles : List Role
  pub next_role_id : ℕ
  pub grants : List RoleGrant
  pub next_grant_id : ℕ
  pub audit : List AuditEvent
