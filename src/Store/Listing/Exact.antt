-- ===== src/Store/Listing/Exact.antt =====
-- pkg/state/store.go, `List`: which identifiers it returns.
use testenv_vm.Store.Listing.{
  Entry, Directories, before_rest, before_suffix, has_suffix, trim_suffix, after_prefix, has_prefix,
  state_file_prefix, state_file_suffix, file_id, list_ids, listed_ids, list,
}
use testenv_vm.Store.{Files, state_dir, state_path}
use testenv_vm.Prelude.{
  String, ◌≡◌, refl, sym, ap, ◌∙◌, subst, inl, inr, Bool, true, false, not, ◌&&◌, Option, none,
  some, List, [], ◌∷◌, arith, ◌==◌, eq_iff, eq_refl, if◌then◌else◌, Bool-cases, is_some, contains,
  ok,
}
use Prim.Native.Char.{Char}
use Prim.Native.String.{◌++◌ as str_append, count}
use text.Mathlib.TextLemmas.{
  length-append, length-cons, nil-append, cons-append, append_assoc, head-eq_of_cons-eq,
}

after_prefix-append : (p r : String) → after_prefix (str_append p r) p ≡ some r
unfolding after_prefix
after_prefix-append String.[] r = ap some (nil-append r)
after_prefix-append (String.◌∷◌ c p) r =
    rw (cons-append c p r) (ground (arith, eq_refl (String.◌∷◌ c ""), after_prefix-append p r))

after_prefix-some : (s p r : String) → after_prefix s p ≡ some r → s ≡ str_append p r
unfolding after_prefix
after_prefix-some s String.[] r h = (cc) ∙ sym (nil-append r)
after_prefix-some String.[] (String.◌∷◌ c p) r h = absurd (cc)
after_prefix-some (String.◌∷◌ d s) (String.◌∷◌ c p) r h = rw (cons-append c p r) (
    rw
      (head-eq_of_cons-eq {xs = ""} {ys = ""}
        ((eq_iff (String.◌∷◌ d "") (String.◌∷◌ c "")).0 (ground (arith, h))))
      (ap (String.◌∷◌ c) (after_prefix-some s p r (ground (arith, h)))))

from_some : {a b : String} → some a ≡ some b → a ≡ b
from_some h = cc

longer : (c : Char) (a t : String) → (String.◌∷◌ c (str_append a t) == t) ≡ false
longer c a t = elim (Bool-cases (String.◌∷◌ c (str_append a t) == t)) [
  | inl same ↦ absurd (
      omega (
        arith,
        ap count ((eq_iff (String.◌∷◌ c (str_append a t)) t).0 same),
        length-cons c (str_append a t),
        length-append a t,
      ))
  | inr other ↦ other
]

before_suffix-append : (a t : String) → before_suffix (str_append a t) t ≡ some a
unfolding before_suffix
before_suffix-append String.[] String.[] = refl
before_suffix-append String.[] (String.◌∷◌ c t) =
    rw (nil-append (String.◌∷◌ c t)) (ground (arith, eq_refl (String.◌∷◌ c t)))
before_suffix-append (String.◌∷◌ c a) t =
    rw (cons-append c a t) (ground (arith, longer c a t, before_suffix-append a t))

whole : (s t a : String) → (s == t) ≡ true → a ≡ "" → s ≡ str_append a t
whole s t a same e = (eq_iff s t).0 same ∙ sym (nil-append t) ∙ ap (λ x. str_append x t) (sym e)

before_rest-some :
    (c : Char) (o : Option String) (a : String)
    → before_rest c o ≡ some a
    → (b : String) × (o ≡ some b) × (a ≡ String.◌∷◌ c b)
before_rest-some c none a h = absurd (cc)
before_rest-some c (some b) a h = (b, refl, (cc))

before_suffix-some : (s t a : String) → before_suffix s t ≡ some a → s ≡ str_append a t
unfolding before_suffix
before_suffix-some String.[] t a h = elim (Bool-cases ("" == t)) [
  | inl same ↦
      whole "" t a same (sym (from_some (ground (arith, h, same, eq_iff t "", eq_iff "" t))))
  | inr other ↦ absurd (ground (arith, h, other, eq_iff t "", eq_iff "" t))
]
before_suffix-some (String.◌∷◌ c s) t a h = elim (Bool-cases (String.◌∷◌ c s == t)) [
  | inl same ↦ whole (String.◌∷◌ c s) t a same (sym (from_some (ground (arith, h, same))))
  | inr other ↦
      let (b, e, f) = before_rest-some c (before_suffix s t) a (ground (arith, h, other)) in
      ap (String.◌∷◌ c) (before_suffix-some s t b e)
      ∙ sym (cons-append c b t)
      ∙ ap (λ x. str_append x t) (sym f)
]

-- The character does not stand in the text.
abbrev avoids : Char → String → Bool
avoids c String.[] = true
avoids c (String.◌∷◌ d p) = not (String.◌∷◌ d "" == String.◌∷◌ c "") && avoids c p

has_suffix-tail :
    (c : Char) (s t : String)
    → (String.◌∷◌ c s == t) ≡ false
    → has_suffix (String.◌∷◌ c s) t ≡ true
    → has_suffix s t ≡ true
unfolding before_suffix
has_suffix-tail c s t other h = go (before_suffix s t) (ground (arith, h, other))
  where
    go : (o : Option String) → is_some (before_rest c o) ≡ true → is_some o ≡ true
    go none e = e
    go (some a) e = refl

differs :
    (d c : Char) (s t : String)
    → (String.◌∷◌ d "" == String.◌∷◌ c "") ≡ false
    → (String.◌∷◌ d s == String.◌∷◌ c t) ≡ false
differs d c s t n = elim (Bool-cases (String.◌∷◌ d s == String.◌∷◌ c t)) [
  | inl same ↦
      let e = head-eq_of_cons-eq ((eq_iff (String.◌∷◌ d s) (String.◌∷◌ c t)).0 same) in
      absurd (
        ground
          (arith, n, (eq_iff (String.◌∷◌ d "") (String.◌∷◌ c "")).1 (ap (λ x. String.◌∷◌ x "") e)))
  | inr other ↦ other
]

-- A suffix does not reach into a prefix that its first character is not in.
has_suffix-after :
    (c : Char) (p r t : String)
    → avoids c p ≡ true
    → has_suffix (str_append p r) (String.◌∷◌ c t) ≡ true
    → has_suffix r (String.◌∷◌ c t) ≡ true
has_suffix-after c String.[] r t n h =
    subst (λ s. has_suffix s (String.◌∷◌ c t) ≡ true) (nil-append r) h
has_suffix-after c (String.◌∷◌ d p) r t n h = has_suffix-after c p r t (ground (arith, n)) (
    has_suffix-tail d (str_append p r) (String.◌∷◌ c t)
      (differs d c (str_append p r) t (ground (arith, n)))
      (subst (λ s. has_suffix s (String.◌∷◌ c t) ≡ true) (cons-append d p r) h))

-- The entries that are not directories.
abbrev pub file_names : List Entry → List String
file_names [] = []
file_names (entry ∷ entries) =
    let rest = file_names entries in if entry.is_dir then rest else entry.name ∷ rest

-- The name of the state file of an identifier.
abbrev pub state_file : String → String
state_file id = str_append state_file_prefix (str_append id state_file_suffix)

file_id-state_file : (id : String) → file_id (state_file id) ≡ id
file_id-state_file id = ground (
  arith,
  after_prefix-append state_file_prefix (str_append id state_file_suffix),
  before_suffix-append id state_file_suffix,
)

has_suffix-state_file : (id : String) → has_suffix (state_file id) state_file_suffix ≡ true
has_suffix-state_file id =
    subst (λ s. has_suffix s state_file_suffix ≡ true)
      (append_assoc state_file_prefix id state_file_suffix)
      (ap is_some (before_suffix-append (str_append state_file_prefix id) state_file_suffix))

state_file-file_id :
    (name : String)
    → has_prefix name state_file_prefix ≡ true
    → has_suffix name state_file_suffix ≡ true
    → name ≡ state_file (file_id name)
state_file-file_id name hp hs = after (after_prefix name state_file_prefix) refl hp
  where
    before :
        (r : String) (o : Option String)
        → before_suffix r state_file_suffix ≡ o
        → is_some o ≡ true
        → r ≡ str_append (elim o [ none ↦ r | some a ↦ a ]) state_file_suffix
    before r none e h = absurd (cc)
    before r (some a) e h = before_suffix-some r state_file_suffix a e

    after :
        (o : Option String)
        → after_prefix name state_file_prefix ≡ o
        → is_some o ≡ true
        → name ≡ state_file (trim_suffix (elim o [ none ↦ name | some r ↦ r ]) state_file_suffix)
    after none e h = absurd (cc)
    after (some r) e h =
        let n = after_prefix-some name state_file_prefix r e in
        n
        ∙ ap (str_append state_file_prefix) (
            before r (before_suffix r state_file_suffix) refl (
              has_suffix-after "." state_file_prefix r "json" refl
                (subst (λ s. has_suffix s state_file_suffix ≡ true) n hs)))

has_prefix-state_file : (id : String) → has_prefix (state_file id) state_file_prefix ≡ true
has_prefix-state_file id =
    ap is_some (after_prefix-append state_file_prefix (str_append id state_file_suffix))

-- Whether the loop takes the identifier from the name.
abbrev takes : String → String → Bool
takes name id =
    if has_prefix name state_file_prefix && has_suffix name state_file_suffix
    then (if file_id name == "" then false else file_id name == id)
    else false

takes-state_file : (id : String) → takes (state_file id) id ≡ not (id == "")
takes-state_file id = rw (has_prefix-state_file id) (
    rw (has_suffix-state_file id) (
      subst (λ x. (if x == "" then false else x == id) ≡ not (id == ""))
        (sym (file_id-state_file id)) (ground (arith, eq_refl id))))

takes-other : (name id : String) → takes name id ≡ true → name ≡ state_file id
takes-other name id h =
    let hp : has_prefix name state_file_prefix ≡ true = ground (arith, h) in
    let hs : has_suffix name state_file_suffix ≡ true = ground (arith, h) in
    state_file-file_id name hp hs ∙ ap state_file ((eq_iff (file_id name) id).0 (ground (arith, h)))

takes_iff : (name id : String) → takes name id ≡ (not (id == "") && (name == state_file id))
takes_iff name id = elim (Bool-cases (name == state_file id)) [
  | inl same ↦
      subst (λ n. takes n id ≡ (not (id == "") && (n == state_file id)))
        (sym ((eq_iff name (state_file id)).0 same))
        (ground (arith, takes-state_file id, eq_refl (state_file id)))
  | inr other ↦ elim (Bool-cases (takes name id)) [
    | inl taken ↦
        absurd (ground (arith, other, (eq_iff name (state_file id)).1 (takes-other name id taken)))
    | inr left ↦ left ∙ ground (arith, other)
  ]
]

list_ids-contains :
    (entries : List Entry) (id : String)
    → contains (list_ids entries) id
      ≡ (not (id == "") && contains (file_names entries) (state_file id))
unfolding list_ids contains
list_ids-contains [] id = ground arith
list_ids-contains (entry ∷ entries) id =
    ground (arith, takes_iff entry.name id, list_ids-contains entries id)

module _ {W : Type 0} (fs : Files W) (ds : Directories W) (base_dir : String) where
  -- Where the state directory can be read, `List` returns an identifier exactly when it is not empty
  -- and the directory has a file, not a directory, with the name that `statePath` gives its state.
  pub list-exact :
      (w : W) (entries : List Entry) (id : String)
      → ds.read_dir (state_dir fs base_dir) w ≡ ok entries
      → (ids : List String) × (list fs ds base_dir w ≡ ok ids)
        × (contains ids id ≡ (not (id == "") && contains (file_names entries) (state_file id)))
        × (state_path fs base_dir id ≡ fs.join_path (state_dir fs base_dir) (state_file id))
  unfolding list listed_ids state_path
  list-exact w entries id h = (list_ids entries, rw h refl, list_ids-contains entries id, refl)
