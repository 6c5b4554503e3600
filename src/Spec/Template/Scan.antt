-- ===== src/Spec/Template/Scan.antt =====
-- pkg/spec/template.go, `templateRefPattern`: what is found in a text that is written from references
-- and from plain text.
use testenv_vm.Spec.Template.{
  node_key, is_space, is_word, is_name, span, after_char, match_here, find_all, category_kind,
  extract_template_refs, opens,
}
use testenv_vm.Prelude.{
  ℕ, zero, ◌-◌, String, ◌≡◌, refl, sym, ap, ◌∙◌, Bool, true, false, not, ◌&&◌, none, some, List, [],
  ◌∷◌, ◌++◌, map, arith, ◌==◌, eqb, All, contains, contains-append, Unique,
}
use Prim.Native.Char.{Char, code}
use Prim.Native.String.{◌++◌ as str_append, count}
use text.Mathlib.TextLemmas.{
  nil-append, cons-append, append_assoc as text_assoc, length-append as count-append, length-cons,
  length-nil,
}
use testenv_vm.Spec.Template.Laws.{
  mentions_match, mentions, extract_template_refs_exact, match_here-opens,
}

-- The four kinds that a template can name, the word that names them, and the kind of their references.
pub data Category : Type 0 where
  of_keys of_networks of_vms of_images : Category

abbrev pub word_of : Category → String
word_of of_keys = "Keys"
word_of of_networks = "Networks"
word_of of_vms = "VMs"
word_of of_images = "Images"

abbrev pub kind_of : Category → String
kind_of of_keys = "key"
kind_of of_networks = "network"
kind_of of_vms = "vm"
kind_of of_images = "image"

-- A text in pieces: plain text, and references `{{ .Word.name` with the character after the name.
pub data Piece : Type 0 where
  plain : String → Piece
  reference : String → Category → String → Char → Piece

abbrev pub print : List Piece → String
print [] = String.[]
print (plain s ∷ ps) = str_append s (print ps)
print (reference spaces c name close ∷ ps) = String.◌∷◌ "{" (
    String.◌∷◌ "{" (
      str_append spaces (
        String.◌∷◌ "." (
          str_append (word_of c)
            (String.◌∷◌ "." (str_append name (String.◌∷◌ close (print ps))))))))

abbrev pub every : (ℕ → Bool) → String → Bool
every p String.[] = true
every p (String.◌∷◌ c s) = p (code c) && every p s

-- Plain text holds no opening brace. A name is not empty, and ends at a dot, a closing brace or a space.
abbrev pub IsPiece : Piece → Type 0
IsPiece (plain s) = every (λ c. not (eqb c b'{')) s ≡ true
IsPiece (reference spaces c name close) =
    (every is_space spaces ≡ true)
    × (every is_name name ≡ true)
    × ((name == "") ≡ false)
    × (is_name (code close) ≡ false)

abbrev pub found_in : List Piece → List (String × String)
found_in [] = []
found_in (plain s ∷ ps) = found_in ps
found_in (reference spaces c name close ∷ ps) = (word_of c, name) ∷ found_in ps

span-append :
    (p : ℕ → Bool) (xs : String) (c : Char) (ys : String)
    → every p xs ≡ true
    → p (code c) ≡ false
    → span p (str_append xs (String.◌∷◌ c ys)) ≡ (xs, String.◌∷◌ c ys)
unfolding span
span-append p String.[] c ys h stop = rw (nil-append (String.◌∷◌ c ys)) (rw stop refl)
span-append p (String.◌∷◌ d xs) c ys h stop =
    let first : p (code d) ≡ true = ground arith in
    let rest = span-append p xs c ys (ground arith) stop in
    rw (cons-append d xs (String.◌∷◌ c ys)) (rw (rest, first) refl)

find_all-none :
    (c : Char) (s : String)
    → match_here (String.◌∷◌ c s) ≡ none
    → find_all zero (String.◌∷◌ c s) ≡ find_all zero s
unfolding find_all
find_all-none c s h = rw (h, find_all) refl

find_all-some :
    (c : Char) (s category name rest : String)
    → match_here (String.◌∷◌ c s) ≡ some (category, name, rest)
    → find_all zero (String.◌∷◌ c s) ≡ (category, name) ∷ find_all (count s - count rest) s
unfolding find_all
find_all-some c s category name rest h = rw (h, find_all) refl

opens-other : (c : Char) (s : String) → eqb (code c) b'{' ≡ false → opens (String.◌∷◌ c s) ≡ false
unfolding opens after_char
opens-other c s h = rw h refl

find_all-plain :
    (s t : String)
    → every (λ c. not (eqb c b'{')) s ≡ true
    → find_all zero (str_append s t) ≡ find_all zero t
find_all-plain String.[] t h = rw (nil-append t) refl
find_all-plain (String.◌∷◌ c s) t h = rw (cons-append c s t) (
    find_all-none c (str_append s t) (
      match_here-opens (String.◌∷◌ c (str_append s t))
        (opens-other c (str_append s t) (ground arith)))
    ∙ find_all-plain s t (ground arith))

find_all-skip : (s t : String) → find_all (count s) (str_append s t) ≡ find_all zero t
unfolding find_all
find_all-skip String.[] t = rw (nil-append t, length-nil) refl
find_all-skip (String.◌∷◌ c s) t = rw (cons-append c s t, length-cons c s) (find_all-skip s t)

word_of-IsWord : (c : Category) → (every is_word (word_of c) ≡ true) × ((word_of c == "") ≡ false)
unfolding is_word
word_of-IsWord of_keys = (refl, refl)
word_of-IsWord of_networks = (refl, refl)
word_of-IsWord of_vms = (refl, refl)
word_of-IsWord of_images = (refl, refl)

-- What the scanner passes over from the second brace to the name.
abbrev middle : String → String → String → String
middle spaces word name =
    String.◌∷◌ "{" (str_append spaces (String.◌∷◌ "." (str_append word (String.◌∷◌ "." name))))

match_here-reference :
    (spaces word name : String) (close : Char) (rest : String)
    → every is_space spaces ≡ true
    → every is_word word ≡ true
    → (word == "") ≡ false
    → every is_name name ≡ true
    → (name == "") ≡ false
    → is_name (code close) ≡ false
    → match_here (
        String.◌∷◌ "{" (
          String.◌∷◌ "{" (
            str_append spaces (
              String.◌∷◌ "."
                (str_append word (String.◌∷◌ "." (str_append name (String.◌∷◌ close rest))))))))
      ≡ some (word, name, String.◌∷◌ close rest)
unfolding match_here after_char
match_here-reference spaces word name close rest sp w wn n nn stop =
    rw
      (span-append is_space spaces "."
        (str_append word (String.◌∷◌ "." (str_append name (String.◌∷◌ close rest)))) sp refl)
      (rw (span-append is_word word "." (str_append name (String.◌∷◌ close rest)) w refl)
        (rw (span-append is_name name close rest n stop) (rw (wn, nn) refl)))

-- The text from the second brace on is the middle and what follows it.
middle-append :
    (spaces word name t : String)
    → str_append (middle spaces word name) t
      ≡ String.◌∷◌ "{" (
          str_append spaces (String.◌∷◌ "." (str_append word (String.◌∷◌ "." (str_append name t)))))
middle-append spaces word name t =
    rw
      (
        cons-append "{" (str_append spaces (String.◌∷◌ "." (str_append word (String.◌∷◌ "." name))))
            t,
        text_assoc spaces (String.◌∷◌ "." (str_append word (String.◌∷◌ "." name))) t,
        cons-append "." (str_append word (String.◌∷◌ "." name)) t,
        text_assoc word (String.◌∷◌ "." name) t,
        cons-append "." name t,
      )
      refl

find_all-reference :
    (spaces word name : String) (close : Char) (rest : String)
    → every is_space spaces ≡ true
    → every is_word word ≡ true
    → (word == "") ≡ false
    → every is_name name ≡ true
    → (name == "") ≡ false
    → is_name (code close) ≡ false
    → find_all zero (
        String.◌∷◌ "{" (
          String.◌∷◌ "{" (
            str_append spaces (
              String.◌∷◌ "."
                (str_append word (String.◌∷◌ "." (str_append name (String.◌∷◌ close rest))))))))
      ≡ (word, name) ∷ find_all zero (String.◌∷◌ close rest)
find_all-reference spaces word name close rest sp w wn n nn stop =
    let mid = middle spaces word name in
    let end = String.◌∷◌ close rest in
    let text = String.◌∷◌ "{" (
      str_append spaces
        (String.◌∷◌ "." (str_append word (String.◌∷◌ "." (str_append name end))))) in
    let split : str_append mid end ≡ text = middle-append spaces word name end in
    let counted : count text - count end ≡ count mid =
      omega (arith, ap (λ (x : String). count x) split, count-append mid end) in
    find_all-some "{" text word name end
      (match_here-reference spaces word name close rest sp w wn n nn stop)
    ∙ ap (λ x. (word, name) ∷ x)
        (ap (λ k. find_all k text) counted
          ∙ ap (λ x. find_all (count mid) x) (sym split)
          ∙ find_all-skip mid end)

find_all-close :
    (close : Char) (rest : String)
    → is_name (code close) ≡ false
    → find_all zero (String.◌∷◌ close rest) ≡ find_all zero rest
unfolding is_name is_space
find_all-close close rest stop =
    find_all-none close rest
      (match_here-opens (String.◌∷◌ close rest) (opens-other close rest (ground arith)))

-- What is found in a text of pieces: its references, in their order.
pub find_all-print : (ps : List Piece) → All IsPiece ps → find_all zero (print ps) ≡ found_in ps
unfolding find_all
find_all-print [] h = refl
find_all-print (plain s ∷ ps) (h, hs) = find_all-plain s (print ps) h ∙ find_all-print ps hs
find_all-print (reference spaces c name close ∷ ps) ((sp, n, nn, stop), hs) =
    let (w, wn) = word_of-IsWord c in
    find_all-reference spaces (word_of c) name close (print ps) sp w wn n nn stop
    ∙ ap (λ x. (word_of c, name) ∷ x) (find_all-close close (print ps) stop ∙ find_all-print ps hs)

-- The keys of the references in the pieces of some texts.
abbrev piece_keys : List Piece → List String
piece_keys [] = []
piece_keys (plain s ∷ ps) = piece_keys ps
piece_keys (reference spaces c name close ∷ ps) =
    node_key (record { kind = kind_of c; name = name; provider = "" }) ∷ piece_keys ps

abbrev pub all_keys : List (List Piece) → List String
all_keys [] = []
all_keys (ps ∷ pss) = piece_keys ps ++ all_keys pss

category_kind-word_of : (c : Category) → category_kind (word_of c) ≡ some (kind_of c)
unfolding category_kind
category_kind-word_of of_keys = refl
category_kind-word_of of_networks = refl
category_kind-word_of of_vms = refl
category_kind-word_of of_images = refl

mentions_match-found_in :
    (ps : List Piece) (k : String) → mentions_match (found_in ps) k ≡ contains (piece_keys ps) k
unfolding mentions_match contains
mentions_match-found_in [] k = refl
mentions_match-found_in (plain s ∷ ps) k = mentions_match-found_in ps k
mentions_match-found_in (reference spaces c name close ∷ ps) k =
    rw (category_kind-word_of c) (ground (arith, mentions_match-found_in ps k))

mentions-print :
    (pss : List (List Piece)) (k : String)
    → All (All IsPiece) pss
    → mentions (map print pss) k ≡ contains (all_keys pss) k
unfolding mentions contains
mentions-print [] k h = refl
mentions-print (ps ∷ pss) k (h, hs) = rw (find_all-print ps h) (
    ground (
      arith,
      mentions_match-found_in ps k,
      mentions-print pss k hs,
      contains-append (piece_keys ps) (all_keys pss) k,
    ))

-- Of texts that are written from plain text without an opening brace and from references
-- `{{ .Keys.name`, and likewise for `Networks`, `VMs` and `Images`, with any spaces after the braces and
-- with a dot, a closing brace or a space after the name, the references that are extracted are exactly
-- those that were written, under the kinds of their words, and none of them twice.
pub extract_template_refs-print :
    (pss : List (List Piece))
    → All (All IsPiece) pss
    → let refs = extract_template_refs (map print pss) in
      ((k : String) → contains (map node_key refs) k ≡ contains (all_keys pss) k)
      × Unique (map node_key refs)
extract_template_refs-print pss h =
    let (exact, unique) = extract_template_refs_exact (map print pss) in
    ((λ k. exact k ∙ mentions-print pss k h), unique)
