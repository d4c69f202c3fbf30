-- ===== src/Plan/Model.antt =====
-- internal/plan/model.go, diagnostic.go and the types of internal/plan/tasks.go.
use specd_cli.Base.{ℕ, String, Bool, List}

pub record Location : Type 0 where
  pub path : String
  pub offset : ℕ
  pub line : ℕ
  pub column : ℕ

pub record Diagnostic : Type 0 where
  pub code : String
  pub location : Location
  pub message : String
  pub repair : String

pub record Source : Type 0 where
  pub path : String
  pub bytes : List ℕ
  pub present : Bool

pub record RequirementReference : Type 0 where
  pub capability : String
  pub requirement : String
  pub location : Location

pub record Task : Type 0 where
  pub id : String
  pub role : String
  pub files : List String
  pub depends_on : List String
  pub references : List RequirementReference
  pub verify : String
  pub acceptance : String
  pub source : List ℕ
  pub location : Location
  pub valid : Bool

pub record TaskWave : Type 0 where
  pub number : ℕ
  pub tasks : List String

pub record Tasks : Type 0 where
  pub source : Source
  pub tasks : List Task
  pub waves : List TaskWave
  pub diagnostics : List Diagnostic
