-- ===== src/Tests/Stores.antt =====
-- Prefixes, versions and opened trees in the small database.
use vocdoni.Base.{
  Bool, Bool-cases, Bytes, List, Option, [], ap, arith, bytes_eq, bytes_eq_sym, eq_of_bytes_eq,
  false, if◌then◌else◌, inl, inr, none, refl, some, sym, true, ◌++◌, ◌∙◌, ◌∷◌, ◌≡◌,
}
use vocdoni.Action.{Result, err, key_not_found, ok, ok_inj}
use vocdoni.Database.{IsLawful}
use vocdoni.Database.Prefixed.{
  AreApart, apart_reads, delete_at, get_at, prefixed, set_at, starts_with, through,
  through-IsLawful,
}
use vocdoni.StateDb.{commit_version, get_root, get_version, set_version_root}
use vocdoni.StateDb.Clean.{AllClean}
use vocdoni.StateDb.Closing.{commit_tree, commit_tree-HasRoot}
use vocdoni.StateDb.Groups.{asked}
use vocdoni.StateDb.Leaves.{IsStore, leaf_after, leaf_after-propagate_root}
use vocdoni.StateDb.Trees.{
  Arbo, Subs, TreeConfig, TreeUpdate, Update, and_sub, deep_set, gather_updates, no_subs,
  propagate_root, subs_of, tree_of, tree_update,
}
use vocdoni.StateDb.Versions.{HasRoot}
use vocdoni.Tests.Keepers.{small_database, small_database-IsLawful}

through-IsLawful_example : IsLawful (through small_database (prefixed (5 ∷ [])))
through-IsLawful_example =
    through-IsLawful small_database (prefixed (5 ∷ [])) small_database-IsLawful

-- Of `a` and `b`, neither begins with the other.
apart_lem : AreApart (97 ∷ []) (98 ∷ [])
unfolding starts_with
apart_lem = (refl, refl)

abbrev nothing : Bytes → Option Bytes
nothing key = none

apart_reads_example :
    (get_at small_database
        (prefixed (97 ∷ []))
        (set_at small_database (prefixed (98 ∷ [])) (1 ∷ []) (2 ∷ []) nothing)
        (1 ∷ [])
      ≡ get_at small_database (prefixed (97 ∷ [])) nothing (1 ∷ []))
    × (get_at small_database
          (prefixed (97 ∷ []))
          (delete_at small_database (prefixed (98 ∷ [])) (1 ∷ []) nothing)
          (1 ∷ [])
        ≡ get_at small_database (prefixed (97 ∷ [])) nothing (1 ∷ []))
apart_reads_example =
    apart_reads small_database small_database-IsLawful (98 ∷ []) (97 ∷ []) (1 ∷ []) (2 ∷ [])
      (1 ∷ []) nothing apart_lem

-- A tree is the list of its leaves, and its root is the values of them one after the other.
unfoldable value_at : List (Bytes × Bytes) → Bytes → Result Bytes
value_at [] key = err key_not_found
value_at ((k, v) ∷ rest) key = if bytes_eq k key then ok v else value_at rest key

unfoldable put_leaf : Bytes → Bytes → List (Bytes × Bytes) → List (Bytes × Bytes)
put_leaf key x [] = (key, x) ∷ []
put_leaf key x ((k, v) ∷ rest) =
    if bytes_eq k key then (key, x) ∷ rest else (k, v) ∷ put_leaf key x rest

unfoldable leaf_values : List (Bytes × Bytes) → Bytes
leaf_values [] = []
leaf_values ((k, v) ∷ rest) = v ++ leaf_values rest

abbrev small_arbo : Arbo
small_arbo = record {
  Tree = List (Bytes × Bytes);
  get = value_at;
  add = λ key x t. ok (put_leaf key x t);
  set = λ key x t. ok (put_leaf key x t);
  root = λ t. ok (leaf_values t);
  set_root = λ root t. ok t;
}

-- The leaf of the parent is the root of the opened tree.
abbrev votes_tree : TreeConfig
votes_tree = record {
  parent_leaf_key = 1 ∷ [];
  prefix = 118 ∷ [];
  parent_leaf_get_root = λ leaf. ok leaf;
  parent_leaf_set_root = λ leaf root. ok root;
}

abbrev main_update : List (Bytes × Bytes) → Subs small_arbo → TreeUpdate small_arbo
main_update leaves subs = tree_update false leaves votes_tree [] subs

abbrev one_vote : TreeUpdate small_arbo
one_vote = main_update ((1 ∷ [], []) ∷ []) (
    and_sub (tree_update true ((5 ∷ [], 7 ∷ []) ∷ []) votes_tree ((118 ∷ []) ∷ []) no_subs) no_subs)

one_vote_made :
    deep_set small_arbo
      (λ path. ok [])
      (5 ∷ [])
      (7 ∷ [])
      (votes_tree ∷ [])
      (main_update ((1 ∷ [], []) ∷ []) no_subs)
    ≡ (ok tt, one_vote)
unfolding deep_set value_at put_leaf leaf_values bytes_eq
one_vote_made = refl

abbrev one_vote_rooted : TreeUpdate small_arbo
one_vote_rooted = main_update ((1 ∷ [], 7 ∷ []) ∷ []) (
    and_sub (tree_update true ((5 ∷ [], 7 ∷ []) ∷ []) votes_tree ((118 ∷ []) ∷ []) no_subs) no_subs)

one_root : propagate_root small_arbo one_vote ≡ ok (some (7 ∷ []), one_vote_rooted)
unfolding propagate_root value_at put_leaf leaf_values bytes_eq
one_root = refl

value_at-put_leaf :
    (key x j : Bytes) (t : List (Bytes × Bytes))
    → value_at (put_leaf key x t) j ≡ (if bytes_eq key j then ok x else value_at t j)
unfolding value_at put_leaf
value_at-put_leaf key x j [] = refl
value_at-put_leaf key x j ((k, v) ∷ rest) = elim (Bool-cases (bytes_eq k key)) [
  | inl same ↦ rw (same, eq_of_bytes_eq k key same) (same_key (bytes_eq key j))
  | inr other ↦ elim (Bool-cases (bytes_eq k j)) [
    | inl found ↦
        let differ =
          ap (bytes_eq key) (sym (eq_of_bytes_eq k j found)) ∙ bytes_eq_sym k key other in
        rw (other, found, differ) refl
    | inr away ↦ rw (other, away) (value_at-put_leaf key x j rest)
  ]
]
  where
    same_key :
        (b : Bool)
        → (if b then ok x else value_at rest j)
          ≡ (if b then ok x else if b then ok v else value_at rest j)
    same_key true = refl
    same_key false = refl

small_arbo-IsStore : IsStore small_arbo
small_arbo-IsStore = record {
  get-set = λ t t' key leaf j h.
      ap (λ (x : List (Bytes × Bytes)). value_at x j) (sym (ok_inj h))
      ∙ value_at-put_leaf key leaf j t;
}

leaf_after-propagate_root_example :
    (updates : List Update) × (gather_updates small_arbo (subs_of small_arbo one_vote)
      ≡ ok (updates, subs_of small_arbo one_vote_rooted))
    × ((key : Bytes)
        → small_arbo.get (tree_of small_arbo one_vote_rooted) key
          ≡ leaf_after small_arbo
              (asked key updates)
              (small_arbo.get (tree_of small_arbo one_vote) key))
leaf_after-propagate_root_example =
    leaf_after-propagate_root small_arbo small_arbo-IsStore one_vote one_vote_rooted (some (7 ∷ []))
      one_root

abbrev one_vote_stored : Bytes → Option Bytes
one_vote_stored = set_version_root small_database 7 (7 ∷ []) nothing

one_vote_committed :
    commit_tree small_database small_arbo 7 one_vote nothing
    ≡ ok (main_update ((1 ∷ [], 7 ∷ []) ∷ []) no_subs, one_vote_stored)
unfolding commit_tree commit_version get_version value_at put_leaf leaf_values bytes_eq
    propagate_root
one_vote_committed = refl

commit_tree-HasRoot_example :
    (r : Bytes) × HasRoot small_database small_database-IsLawful 7 r nothing one_vote_stored
    × (AllClean small_arbo one_vote → get_root small_database nothing ≡ ok r)
    × (¬ AllClean small_arbo one_vote
        → small_arbo.root (tree_of small_arbo (main_update ((1 ∷ [], 7 ∷ []) ∷ []) no_subs)) ≡ ok r)
commit_tree-HasRoot_example =
    commit_tree-HasRoot small_database small_arbo small_database-IsLawful 7 one_vote
      (main_update ((1 ∷ [], 7 ∷ []) ∷ []) no_subs) nothing one_vote_stored (omega arith)
      one_vote_committed
