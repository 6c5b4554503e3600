-- ===== src/Spec/Template.antt =====
-- pkg/spec/template.go: `templateRefPattern` and `ExtractTemplateRefs`. The pattern
-- `\{\{\s*\.(\w+)\.([^.}\s]+)` is matched by a scanner: at each place at most one match is possible,
-- because `\s`, `.` and `\w` exclude one another, so the leftmost match needs no backtracking.
use testenv_vm.Prelude.{
  ℕ, zero, suc, ◌+◌, ◌-◌, ◌*◌, ◌/◌, ◌%◌, ◌^◌, ◌≤◌, ◌<◌, String, ◌≡◌, refl, sym, ap, ◌∙◌, subst,
  fun_ext, ◌≢◌, ◌↔◌, ◌⊎◌, inl, inr, Bool, true, false, not, ◌&&◌, ◌||◌, Option, none, some, List,
  [], ◌∷◌, ◌++◌, map, append-nil, append_assoc, map-append, arith, ◌==◌, eq_iff, eq_refl, ltb, leb,
  eqb, if◌then◌else◌, Bool-cases, Option-cases, is_some, length, length-append, All, All-map,
  is_empty, length-map, contains, contains-append, Unique, IsFresh, done_after, contains-done_after,
  IsFresh-append, IsFresh-not_contains, IsFresh-Unique, Unique-IsFresh, All-of_contains, All_at,
  All-unmap, is_empty-nil, is_empty-pos, done_after-append, Unique-snoc, Dict, lookup, insert,
  remove, adjust, keys, has, lookup-insert, lookup-remove, lookup-adjust, keys-adjust, keys-insert,
  contains-keys, length-keys, remove-absent, remove-insert, Result, ◌>>◌, >>=-eq-ok, ok, err, ℤ,
  is_positive, pos, negsuc,
}
pub mod Laws
pub mod Scan
use Prim.Native.Char.{code}
use Prim.Native.String.{count}
use text.Mathlib.Text.{starts_with}
use testenv_vm.Api.{ResourceRef}
use testenv_vm.Dag.{node_key}

infixl 5 ◌>>=◌
abbrev pub ◌>>=◌ : {A B : Type 0} → Option A → (A → Option B) → Option B
none >>= f = none
some a >>= f = f a

-- `\s`: tab, newline, form feed, return, space.
unfoldable pub is_space : ℕ → Bool
is_space c = eqb c 9 || eqb c 10 || eqb c 12 || eqb c 13 || eqb c 32

-- `\w`
pub is_word : ℕ → Bool
is_word c =
    leb b'0' c && leb c b'9' || leb b'A' c && leb c b'Z' || leb b'a' c && leb c b'z' || eqb c b'_'

-- `[^.}\s]`
unfoldable pub is_name : ℕ → Bool
unfolding is_space
is_name c = not (eqb c b'.' || eqb c b'}' || is_space c)

-- The longest prefix of characters that pass the test, and what follows it.
pub span : (ℕ → Bool) → String → String × String
span p String.[] = (String.[], String.[])
span p (String.◌∷◌ c s) =
    let (taken, rest) = span p s in
    if p (code c) then (String.◌∷◌ c taken, rest) else (String.[], String.◌∷◌ c s)

-- The text after the given character.
unfoldable pub after_char : ℕ → String → Option String
after_char k String.[] = none
after_char k (String.◌∷◌ c s) = if eqb (code c) k then some s else none

-- The two groups of a match at the start of the text, and the text that follows it.
unfoldable pub match_here : String → Option (String × String × String)
unfolding is_space is_word is_name span after_char
match_here s = do
  s₁ ← after_char b'{' s
  s₂ ← after_char b'{' s₁
  s₃ ← after_char b'.' (span is_space s₂).1
  let (category, rest) = span is_word s₃
  s₄ ← after_char b'.' rest
  let (name, rest') = span is_name s₄
  if category == "" || name == "" then none else some (category, name, rest')

-- `FindAllStringSubmatch`: after a match the scan goes on behind it, so `skip` characters are passed
-- over.
unfoldable pub find_all : ℕ → String → List (String × String)
unfolding match_here
find_all skip String.[] = []
find_all (suc skip) (String.◌∷◌ c s) = find_all skip s
find_all zero (String.◌∷◌ c s) = elim (match_here (String.◌∷◌ c s)) [
  | none ↦ find_all zero s
  | some (category, name, rest) ↦ (category, name) ∷ find_all (count s - count rest) s
]

-- The resource kind of a category; none for `Env`, `DefaultBaseImage` and others.
unfoldable pub category_kind : String → Option String
category_kind category =
    if category == "Keys"
    then some "key"
    else if category == "Networks"
    then some "network"
    else if category == "VMs"
    then some "vm"
    else if category == "Images"
    then some "image"
    else none

-- `refs` and `seen`, which the walk extends.
pub record Found : Type 0 where
  pub refs : List ResourceRef
  pub seen : List String

abbrev pub nothing_found : Found
nothing_found = record { refs = []; seen = [] }

unfoldable pub add_ref : String → String → Found → Found
add_ref kind name f =
    let ref : ResourceRef = record { kind = kind; name = name; provider = "" } in
    if contains f.seen (node_key ref)
    then f
    else record { refs = f.refs ++ ref ∷ []; seen = node_key ref ∷ f.seen }

unfoldable pub add_match : String × String → Found → Found
unfolding category_kind add_ref
add_match (category, name) f = elim (category_kind category) [
  | none ↦ f
  | some kind ↦ add_ref kind name f
]

unfoldable pub add_matches : List (String × String) → Found → Found
unfolding add_match
add_matches [] f = f
add_matches (m ∷ ms) f = add_matches ms (add_match m f)

unfoldable pub extract_from_string : String → Found → Found
unfolding find_all add_matches
extract_from_string s = add_matches (find_all zero s)

unfoldable pub extract_from : List String → Found → Found
unfolding extract_from_string
extract_from [] f = f
extract_from (s ∷ ss) f = extract_from ss (extract_from_string s f)

-- `ExtractTemplateRefs` of a value whose strings are given.
unfoldable pub extract_template_refs : List String → List ResourceRef
unfolding extract_from
extract_template_refs texts = (extract_from texts nothing_found).refs

-- The text begins with `{{`.
unfoldable pub opens : String → Bool
unfolding after_char
opens s = is_some (after_char b'{' s >>= after_char b'{')

-- `strings.Contains(s, "{{")`, of validator.go's `IsTemplated` and of `RenderString`.
unfoldable pub is_templated : String → Bool
unfolding opens
is_templated String.[] = false
is_templated (String.◌∷◌ c s) = opens (String.◌∷◌ c s) || is_templated s
