-- ===== src/Executor/Isolation.antt =====
-- pkg/orchestrator: `IsolationConfig` of orchestrator.go, and the names and addresses that
-- executor.go derives from it.
use testenv_vm.Prelude.{
  ℕ, zero, suc, ◌-◌, String, true, false, Option, none, some, ◌==◌, if◌then◌else◌,
}
use Prim.Native.String.{◌++◌ as str_append, count}
use text.Mathlib.Text.{starts_with}

pub record IsolationConfig : Type 0 where
  pub name_prefix : String
  pub original_cidr_prefix : String
  pub new_cidr_prefix : String

unfoldable pub prefixed_name : Option IsolationConfig → String → String
prefixed_name none name = name
prefixed_name (some iso) name =
    if iso.name_prefix == "" then name else str_append iso.name_prefix (str_append "-" name)

-- `strings.ReplaceAll` for a non-empty `old`; `skip` characters belong to the last occurrence.
unfoldable pub replace_from : String → String → ℕ → String → String
replace_from old new skip String.[] = String.[]
replace_from old new (suc skip) (String.◌∷◌ c s) = replace_from old new skip s
replace_from old new zero (String.◌∷◌ c s) = elim (starts_with (String.◌∷◌ c s) old) [
  | true ↦ str_append new (replace_from old new (count old - 1) s)
  | false ↦ String.◌∷◌ c (replace_from old new zero s)
]

-- With an empty `old` Go puts `new` before each character and at the end.
unfoldable pub interleave : String → String → String
interleave new String.[] = new
interleave new (String.◌∷◌ c s) = str_append new (String.◌∷◌ c (interleave new s))

unfoldable pub replace_all : String → String → String → String
unfolding replace_from interleave
replace_all s old new = if old == "" then interleave new s else replace_from old new zero s

-- The rewrite of a text under `isoConfig.OriginalCIDRPrefix != isoConfig.NewCIDRPrefix`.
unfoldable pub rewrite_cidr : Option IsolationConfig → String → String
unfolding replace_all
rewrite_cidr none s = s
rewrite_cidr (some iso) s =
    if iso.original_cidr_prefix == iso.new_cidr_prefix
    then s
    else replace_all s iso.original_cidr_prefix iso.new_cidr_prefix
