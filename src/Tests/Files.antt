-- ===== src/Tests/Files.antt =====
-- The store on an association list of files.
use testenv_vm.Prelude.{
  String, ◌≡◌, refl, sym, ap, ◌∙◌, true, false, not, ◌&&◌, Option, none, some, List, [], ◌∷◌, arith,
  ◌==◌, eq_iff, eq_refl, contains, Dict, lookup, insert, remove, lookup-insert, lookup-remove,
  Result, ok, err,
}
use testenv_vm.Store.{Files, FileError, not_exist, state_path, save, load}
use testenv_vm.Store.Laws.{IsFileSystem, Replaced, save-Atomic, load-save}
use testenv_vm.Tests.Fixtures.{created_env}
use testenv_vm.Store.{state_dir}
use testenv_vm.Store.Listing.{Entry, Directories, list, exists}
use testenv_vm.Store.Listing.Exact.{file_names, state_file, list-exact}
use Prim.Native.String.{◌++◌ as str_append}

abbrev move :
    String → String → Dict String → Option String → Result FileError (Unit {0}) × Dict String
move from to w none = (err not_exist, w)
move from to w (some bytes) = (ok tt, insert to bytes w)

abbrev read : Option String → Result FileError String
read none = err not_exist
read (some bytes) = ok bytes

-- The files by their paths. The source of a rename is kept, which the laws allow.
abbrev listed : Files (Dict String)
listed = record {
  mkdir_all = λ dir w. (ok tt, w);
  write_file = λ at bytes w. (ok tt, insert at bytes w);
  rename = λ from to w. move from to w (lookup from w);
  remove_file = λ at w. (ok tt, remove at w);
  read_file = λ path w. read (lookup path w);
  join_path = λ dir name. str_append dir (str_append "/" name);
  marshal = λ state. some "{}";
  unmarshal = λ bytes. some created_env;
}

abbrev content_of : String → Dict String → Option String
content_of path w = lookup path w

move_fails :
    (from to path : String) (w w' : Dict String) (e : FileError) (found : Option String)
    → move from to w found ≡ (err e, w')
    → content_of path w' ≡ content_of path w
move_fails from to path w w' e none h = ap (λ x. content_of path x.1) (sym h)
move_fails from to path w w' e (some bytes) h = absurd (cc)

move_here :
    (from to : String) (w w' : Dict String) (u : Unit {0}) (found : Option String)
    → move from to w found ≡ (ok u, w')
    → content_of to w' ≡ found
move_here from to w w' u none h = absurd (cc)
move_here from to w w' u (some bytes) h =
    ap (λ x. content_of to x.1) (sym h) ∙ lookup-insert to to bytes w ∙ ground (arith, eq_refl to)

listed-IsFileSystem : IsFileSystem listed content_of
listed-IsFileSystem = record {
  mkdir_keeps = λ dir path w. refl;
  write_elsewhere =
      λ at path bytes w other. lookup-insert at path bytes w ∙ ground (arith, eq_iff at path);
  write_here = λ at bytes w w' u h.
      ap (λ x. content_of at x.1) (sym h)
      ∙ lookup-insert at at bytes w
      ∙ ground (arith, eq_refl at);
  rename_fails = λ from to path w w' e. move_fails from to path w w' e (lookup from w);
  rename_here = λ from to w w' u. move_here from to w w' u (lookup from w);
  remove_elsewhere = λ at path w other. lookup-remove at path w ∙ ground (arith, eq_iff at path);
  reads = λ path bytes w h. ap read h;
}

save-Atomic_example :
    Replaced listed content_of listed-IsFileSystem "/tmp" created_env []
      (save listed "/tmp" created_env [])
save-Atomic_example = save-Atomic listed content_of listed-IsFileSystem "/tmp" created_env []

created-save : (save listed "/tmp" created_env []).0 ≡ ok tt
unfolding save lookup insert state_path
created-save = refl

load-save_example :
    load listed "/tmp" created_env.id (save listed "/tmp" created_env []).1 ≡ ok created_env
load-save_example =
    load-save listed content_of listed-IsFileSystem "/tmp" created_env "{}" [] refl refl
      created-save

abbrev some_entries : List Entry
some_entries =
    record { name = "testenv-a.json"; is_dir = false }
    ∷ record { name = "testenv-b.json.tmp"; is_dir = false }
    ∷ record { name = "testenv-c.json"; is_dir = true }
    ∷ record { name = "testenv-.json"; is_dir = false }
    ∷ []

abbrev one_directory : Directories (Dict String)
one_directory = record { read_dir = λ path w. ok some_entries; stat = λ path w. err not_exist }

sample-list : list listed one_directory "/base" [] ≡ ok ("a" ∷ [])
unfolding list
sample-list = refl

sample-exists : exists listed one_directory "/base" "a" [] ≡ false
unfolding exists
sample-exists = refl

list-exact_example :
    (ids : List String) × (list listed one_directory "/base" [] ≡ ok ids)
    × (contains ids "a" ≡ (not ("a" == "") && contains (file_names some_entries) (state_file "a")))
    × (state_path listed "/base" "a" ≡ listed.join_path (state_dir listed "/base") (state_file "a"))
list-exact_example = list-exact listed one_directory "/base" [] some_entries "a" refl
