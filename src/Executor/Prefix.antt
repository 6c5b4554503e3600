-- ===== src/Executor/Prefix.antt =====
-- pkg/orchestrator: `newIsolationConfig` of orchestrator.go, and prefix.go.
use testenv_vm.Prelude.{
  ℕ, zero, suc, ◌+◌, ◌%◌, ◌≤◌, String, ◌≡◌, refl, sym, ap, ◌∙◌, inl, inr, false, Option, none, some,
  List, [], ◌∷◌, arith, ◌==◌, eq_iff, eqb, if◌then◌else◌, Bool-cases,
}
use Prim.Native.String.{◌++◌ as str_append, count}
use Prim.Native.Char.{Char, code}
use text.Mathlib.TextLemmas.{append_inj, append_cancel_left, length-cons}
use testenv_vm.Api.{NetworkResource}
use testenv_vm.Executor.Isolation.{IsolationConfig, prefixed_name}

-- crypto/sha256 with encoding/hex, hash/crc32, and the decimal print of an octet.
pub record Digests : Type 0 where
  pub sha256_hex : String → String
  -- the first two bytes of the digest, as a big-endian number
  pub sha256_head : String → ℕ
  pub crc32 : String → ℕ
  pub decimal : ℕ → String

-- A digest has 32 bytes, so 64 hexadecimal digits.
abbrev pub IsDigest : Digests → Type 0
IsDigest d = (s : String) → count (d.sha256_hex s) ≡ 64

-- The first characters of an ASCII text.
unfoldable pub take_chars : ℕ → String → String
take_chars zero s = String.[]
take_chars (suc n) String.[] = String.[]
take_chars (suc n) (String.◌∷◌ c s) = String.◌∷◌ c (take_chars n s)

unfoldable pub short_hash : Digests → String → String
unfolding take_chars
short_hash d s = take_chars 8 (d.sha256_hex s)

unfoldable pub hash_to_octet : Digests → String → ℕ
hash_to_octet d test_id = d.sha256_head test_id % 252 + 2

abbrev prepend_char : Char → Option String → Option String
prepend_char c none = none
prepend_char c (some t) = some (String.◌∷◌ c t)

-- The parts of `strings.Split(s, ".")` up to the one after `dots` more dots, each followed by a dot;
-- nothing where there are fewer parts.
unfoldable pub leading_parts : ℕ → String → Option String
leading_parts zero String.[] = some "."
leading_parts (suc dots) String.[] = none
leading_parts zero (String.◌∷◌ c s) =
    let rest = leading_parts zero s in if eqb (code c) b'.' then some "." else prepend_char c rest
leading_parts (suc dots) (String.◌∷◌ c s) =
    let next = leading_parts dots s in
    let rest = leading_parts (suc dots) s in
    prepend_char c (if eqb (code c) b'.' then next else rest)

-- The loop over the networks: the first with a CIDR of three parts decides.
unfoldable pub original_prefix : List NetworkResource → String
unfolding leading_parts
original_prefix [] = "192.168.100."
original_prefix (n ∷ ns) =
    let rest = original_prefix ns in elim (leading_parts 2 n.spec.cidr) [ none ↦ rest | some p ↦ p ]

unfoldable pub new_isolation_config : Digests → String → List NetworkResource → IsolationConfig
unfolding short_hash hash_to_octet original_prefix
new_isolation_config d test_id networks = record {
  name_prefix = short_hash d test_id;
  original_cidr_prefix = original_prefix networks;
  new_cidr_prefix = str_append "192.168." (str_append (d.decimal (hash_to_octet d test_id)) ".");
}

unfoldable pub resource_prefix : Digests → String → String
unfolding take_chars
resource_prefix d test_id = if test_id == "" then "" else take_chars 6 (d.sha256_hex test_id)

unfoldable pub subnet_octet : Digests → String → ℕ
subnet_octet d test_id = if test_id == "" then 100 else d.crc32 test_id % 200 + 20

unfoldable pub prefix_name : String → String → String
prefix_name prefix name = if prefix == "" then name else str_append prefix (str_append "-" name)

-- The octet of a subnet is none of the reserved 0, 1, 254 and 255.
pub hash_to_octet_bounds :
    (d : Digests) (test_id : String)
    → (2 ≤ hash_to_octet d test_id) × (hash_to_octet d test_id ≤ 253)
unfolding hash_to_octet
hash_to_octet_bounds d test_id = (omega arith, omega arith)

-- The octet of prefix.go is in [20, 219], also for the empty identifier.
subnet_octet_bounds :
    (d : Digests) (test_id : String)
    → (20 ≤ subnet_octet d test_id) × (subnet_octet d test_id ≤ 219)
unfolding subnet_octet
subnet_octet_bounds d test_id = (ground arith, ground arith)

count-take_chars : (n : ℕ) (s : String) → n ≤ count s → count (take_chars n s) ≡ n
unfolding take_chars
count-take_chars zero s h = refl
count-take_chars (suc n) String.[] h = omega (arith, h)
count-take_chars (suc n) (String.◌∷◌ c s) h =
    let whole = length-cons c s in
    let inner = count-take_chars n s (omega arith) in length-cons c (take_chars n s) ∙ ap suc inner

prefixed-eq :
    (a b : IsolationConfig) (x y : String)
    → count a.name_prefix ≡ count b.name_prefix
    → (a.name_prefix == "") ≡ false
    → (b.name_prefix == "") ≡ false
    → prefixed_name (some a) x ≡ prefixed_name (some b) y
    → (a.name_prefix ≡ b.name_prefix) × (x ≡ y)
unfolding prefixed_name
prefixed-eq a b x y same some_a some_b h =
    let joined = rw (some_a, some_b) at h in
    let (prefixes, rest) = append_inj joined same in (prefixes, append_cancel_left "-" x y rest)

short_hash-count : (d : Digests) (s : String) → IsDigest d → count (short_hash d s) ≡ 8
unfolding short_hash
short_hash-count d s digest = count-take_chars 8 (d.sha256_hex s) (omega (arith, digest s))

short_hash-some : (d : Digests) (s : String) → IsDigest d → (short_hash d s == "") ≡ false
short_hash-some d s digest = elim (Bool-cases (short_hash d s == "")) [
  | inr some_hash ↦ some_hash
  | inl empty ↦
      let eight = short_hash-count d s digest in
      let zero_long = ap (λ (h : String). count h) ((eq_iff (short_hash d s) "").0 empty) in
      absurd (omega arith)
]

-- Two environments whose hashes differ never use one name for a resource, whatever the names in their
-- specifications; and within one environment different names stay different.
pub new_isolation_config-prefixed_name :
    (d : Digests) (a b : String) (ns ms : List NetworkResource) (x y : String)
    → IsDigest d
    → prefixed_name (some (new_isolation_config d a ns)) x
      ≡ prefixed_name (some (new_isolation_config d b ms)) y
    → (short_hash d a ≡ short_hash d b) × (x ≡ y)
unfolding new_isolation_config
new_isolation_config-prefixed_name d a b ns ms x y digest h =
    prefixed-eq (new_isolation_config d a ns) (new_isolation_config d b ms) x y
      (short_hash-count d a digest ∙ sym (short_hash-count d b digest)) (short_hash-some d a digest)
      (short_hash-some d b digest) h
