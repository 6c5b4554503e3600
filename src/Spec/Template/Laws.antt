-- ===== src/Spec/Template/Laws.antt =====
-- pkg/spec/template.go: what `ExtractTemplateRefs` returns.
use testenv_vm.Prelude.{
  zero, String, ◌≡◌, refl, ap, Bool, false, ◌||◌, Option, none, some, List, [], ◌∷◌, map,
  map-append, arith, ◌==◌, eq_iff, contains, contains-append, Unique, Unique-snoc,
}
use testenv_vm.Dag.{node_key}
use testenv_vm.Spec.Template.{
  extract_from_string, match_here, add_matches, add_match, nothing_found, is_templated, opens,
  extract_template_refs, extract_from, find_all, category_kind, Found, add_ref,
}

abbrev key_of : String → String → String
key_of kind name = node_key (record { kind = kind; name = name; provider = "" })

-- Some match of some text has the key `k`.
unfoldable pub mentions_match : List (String × String) → String → Bool
mentions_match [] k = false
mentions_match ((category, name) ∷ ms) k =
    elim (category_kind category) [ none ↦ false | some kind ↦ key_of kind name == k ]
    || mentions_match ms k

unfoldable pub mentions : List String → String → Bool
mentions [] k = false
mentions (s ∷ ss) k = mentions_match (find_all zero s) k || mentions ss k

-- `seen` holds the keys of `refs`, in some order.
record IsTracked (f : Found) : Type 0 where
  same : (k : String) → contains f.seen k ≡ contains (map node_key f.refs) k
  unique : Unique (map node_key f.refs)

module _ (kind name : String) (f : Found) (w : IsTracked f) where
  contains-add_ref :
      (k : String)
      → contains (map node_key (add_ref kind name f).refs) k
        ≡ (contains (map node_key f.refs) k || key_of kind name == k)
  unfolding add_ref contains
  contains-add_ref k = ground (
    arith,
    eq_iff (key_of kind name) k,
    w.same k,
    map-append node_key f.refs (record { kind = kind; name = name; provider = "" } ∷ []),
    contains-append (map node_key f.refs) (key_of kind name ∷ []) k,
  )

  add_ref-IsTracked : IsTracked (add_ref kind name f)
  unfolding add_ref contains
  add_ref-IsTracked = record {
    same = λ k. ground (
      arith,
      w.same k,
      map-append node_key f.refs (record { kind = kind; name = name; provider = "" } ∷ []),
      contains-append (map node_key f.refs) (key_of kind name ∷ []) k,
    );
    unique = ground (
      arith,
      w.unique,
      w.same (key_of kind name),
      map-append node_key f.refs (record { kind = kind; name = name; provider = "" } ∷ []),
      Unique-snoc (map node_key f.refs) (key_of kind name) w.unique,
    );
  }

-- What each layer of the walk does to the keys found.
record Extends (f g : Found) (test : String → Bool) : Type 0 where
  tracked : IsTracked g
  exact :
      (k : String) → contains (map node_key g.refs) k ≡ (contains (map node_key f.refs) k || test k)

Extends-none : (f : Found) → IsTracked f → Extends f f (λ _. false)
Extends-none f w = record { tracked = w; exact = λ k. ground arith }

Extends-then :
    {f g h : Found} (s t u : String → Bool)
    → Extends f g s
    → Extends g h t
    → ((k : String) → u k ≡ (s k || t k))
    → Extends f h u
Extends-then s t u a b e = record {
  tracked = b.tracked;
  exact = λ k. ground (arith, a.exact k, b.exact k, e k);
}

add_match-Extends :
    (m : String × String) (f : Found)
    → IsTracked f
    → Extends f (add_match m f) (mentions_match (m ∷ []))
unfolding add_match mentions_match
add_match-Extends (category, name) f w = go (category_kind category) refl
  where
    go :
        (o : Option String)
        → category_kind category ≡ o
        → Extends f
            (elim (category_kind category) [ none ↦ f | some kind ↦ add_ref kind name f ])
            (λ k.
              elim (category_kind category) [ none ↦ false | some kind ↦ key_of kind name == k ]
              || false)
    go none e = rw e (Extends-none f w)
    go (some kind) e = rw e (record {
      tracked = add_ref-IsTracked kind name f w;
      exact = λ k. ground (arith, contains-add_ref kind name f w k);
    })

add_matches-Extends :
    (ms : List (String × String)) (f : Found)
    → IsTracked f
    → Extends f (add_matches ms f) (mentions_match ms)
unfolding add_matches mentions_match
add_matches-Extends [] f w = Extends-none f w
add_matches-Extends (m ∷ ms) f w =
    let first = add_match-Extends m f w in
    Extends-then (mentions_match (m ∷ [])) (mentions_match ms) (mentions_match (m ∷ ms)) first
      (add_matches-Extends ms (add_match m f) first.tracked) (λ k. ground arith)

extract_from-Extends :
    (ss : List String) (f : Found) → IsTracked f → Extends f (extract_from ss f) (mentions ss)
unfolding extract_from extract_from_string mentions
extract_from-Extends [] f w = Extends-none f w
extract_from-Extends (s ∷ ss) f w =
    let first = add_matches-Extends (find_all zero s) f w in
    Extends-then (mentions_match (find_all zero s)) (mentions ss) (mentions (s ∷ ss)) first
      (extract_from-Extends ss (extract_from_string s f) first.tracked) (λ k. refl)

nothing_found-IsTracked : IsTracked nothing_found
unfolding contains
nothing_found-IsTracked = record { same = λ k. refl; unique = tt }

-- The references extracted from the strings of a value are exactly those that some match of the
-- pattern in one of the strings names under a known category, and none of them occurs twice.
pub extract_template_refs_exact :
    (texts : List String)
    → ((k : String) → contains (map node_key (extract_template_refs texts)) k ≡ mentions texts k)
      × Unique (map node_key (extract_template_refs texts))
unfolding extract_template_refs contains
extract_template_refs_exact texts =
    let e = extract_from-Extends texts nothing_found nothing_found-IsTracked in
    (λ k. e.exact k, e.tracked.unique)

pub match_here-opens : (s : String) → opens s ≡ false → match_here s ≡ none
unfolding opens match_here
match_here-opens s h = ground arith

find_all-is_templated : (s : String) → is_templated s ≡ false → find_all zero s ≡ []
unfolding find_all is_templated
find_all-is_templated String.[] h = refl
find_all-is_templated (String.◌∷◌ c s) h =
    ground (arith, match_here-opens (String.◌∷◌ c s), find_all-is_templated s)

-- A text that `IsTemplated` rejects holds no reference, so the DAG takes it for a literal name.
extract-is_templated : (s : String) → is_templated s ≡ false → extract_template_refs (s ∷ []) ≡ []
unfolding extract_template_refs extract_from extract_from_string add_matches
extract-is_templated s h =
    ap (λ ms. (add_matches ms nothing_found).refs) (find_all-is_templated s h)
