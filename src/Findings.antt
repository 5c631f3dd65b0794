-- ===== src/Findings.antt =====
-- crates/analyzer-core/src/findings.rs: what an analysis reports.
use dbopt.Base.{ℕ, ◌++◌, Option, none, some}
use dbopt.Base.Bytes.{Bytes, codes, lowercase, strip_prefix}
use dbopt.Base.Text.{strip_suffix}

pub data Severity : Type 0 where
  info warning error critical : Severity

-- Severity::rank
abbrev pub rank : Severity → ℕ
rank critical = 0
rank error = 1
rank warning = 2
rank info = 3

pub record Location : Type 0 where
  pub start : ℕ
  pub stop : ℕ
  pub line : ℕ
  pub col : ℕ

pub record ObjectRef : Type 0 where
  pub schema : Bytes
  pub table : Bytes
  pub index : Option Bytes
  pub row_count : Option ℕ
  pub reserved_kb : Option ℕ

-- ObjectRef::new
abbrev pub new_object : Bytes → Bytes → ObjectRef
new_object schema table = record {
  schema = schema;
  table = table;
  index = none;
  row_count = none;
  reserved_kb = none;
}

-- strip_brackets
unfoldable pub strip_brackets : Bytes → Bytes
unfolding strip_prefix strip_suffix
strip_brackets s = elim (strip_prefix (codes "[") s) [
  | none ↦ s
  | some r ↦ elim (strip_suffix (codes "]") r) [ none ↦ s | some inner ↦ inner ]
]

-- ObjectRef::key
unfoldable pub object_key : ObjectRef → Bytes
unfolding strip_brackets lowercase
object_key o = lowercase (strip_brackets o.schema ++ codes "." ++ strip_brackets o.table)

-- ObjectRef::display
unfoldable pub object_display : ObjectRef → Bytes
unfolding strip_brackets
object_display o =
    codes "[" ++ strip_brackets o.schema ++ codes "].[" ++ strip_brackets o.table ++ codes "]"

pub record Finding : Type 0 where
  pub rule : Bytes
  pub severity : Severity
  pub message : Bytes
  pub location : Option Location
  pub recommendation : Option Bytes
  pub object : Option ObjectRef
