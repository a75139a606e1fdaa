-- ===== src/StateDb/Closing.antt =====
-- statedb/treeupdate.go: `Commit` of the open transaction, its trees with the versions in the database.
use vocdoni.Base.{Bytes, Option, ap, arith, none, refl, some, sym, u32_mod, ℕ, ◌<◌, ◌∙◌, ◌≡◌}
use vocdoni.Action.{Result, err, ok, ok_inj}
use vocdoni.Database.{Database, IsLawful}
use vocdoni.StateDb.{commit_version, get_root}
use vocdoni.StateDb.Clean.{AllClean, propagate_root_cases}
use vocdoni.StateDb.Trees.{Arbo, TreeUpdate, no_subs, propagate_root, tree_of, tree_update}
use vocdoni.StateDb.Versions.{HasRoot, commit_none-HasRoot, commit_root-HasRoot}

module _ (D : Database) (A : Arbo) where
  -- `t.openSubs = sync.Map{}`
  unfoldable pub closed : TreeUpdate A → TreeUpdate A
  closed (tree_update dirty t cfg path subs) = tree_update dirty t cfg path no_subs

  -- `Commit`, where the leaves of the trees and the versions are apart.
  unfoldable pub commit_tree : ℕ → TreeUpdate A → D.Data → Result (TreeUpdate A × D.Data)
  unfolding closed
  commit_tree version u stored = elim (propagate_root A u) [
    | err e ↦ err e
    | ok (root, v) ↦ elim (commit_version D root version stored) [
      | err e ↦ err e
      | ok after ↦ ok (closed v, after)
    ]
  ]

  commit_tree_inv :
      (version : ℕ) (u : TreeUpdate A) (stored : D.Data) {w : TreeUpdate A} {after : D.Data}
      → commit_tree version u stored ≡ ok (w, after)
      → (root : Option Bytes) × (v : TreeUpdate A) × (propagate_root A u ≡ ok (root, v))
        × (commit_version D root version stored ≡ ok after)
        × (w ≡ closed v)
  unfolding commit_tree
  commit_tree_inv version u stored {w} {after} h = by_root (propagate_root A u) refl h
    where
      by_commit :
          (root : Option Bytes) (v : TreeUpdate A)
          → propagate_root A u ≡ ok (root, v)
          → (x : Result D.Data) → commit_version D root version stored ≡ x
          → (elim x as (λ _. Result (TreeUpdate A × D.Data)) [
            | err e ↦ err e
            | ok stored' ↦ ok (closed v, stored')
          ])
            ≡ ok (w, after)
          → (root : Option Bytes) × (v : TreeUpdate A) × (propagate_root A u ≡ ok (root, v))
            × (commit_version D root version stored ≡ ok after)
            × (w ≡ closed v)
      by_commit root v gathered (err e) done made = absurd (ground arith)
      by_commit root v gathered (ok stored') done made =
          let back = ok_inj made in
          (
            root,
            v,
            gathered,
            done ∙ ap (λ (y : TreeUpdate A × D.Data). ok (y.1)) back,
            sym (ap (λ (y : TreeUpdate A × D.Data). y.0) back),
          )

      by_root :
          (x : Result (Option Bytes × TreeUpdate A))
          → propagate_root A u ≡ x
          → (elim x as (λ _. Result (TreeUpdate A × D.Data)) [
            | err e ↦ err e
            | ok (root, v) ↦ elim (commit_version D root version stored) [
              | err e ↦ err e
              | ok stored' ↦ ok (closed v, stored')
            ]
          ])
            ≡ ok (w, after)
          → (root : Option Bytes) × (v : TreeUpdate A) × (propagate_root A u ≡ ok (root, v))
            × (commit_version D root version stored ≡ ok after)
            × (w ≡ closed v)
      by_root (err e) gathered made = absurd (ground arith)
      by_root (ok (root, v)) gathered made =
          by_commit root v gathered (commit_version D root version stored) refl made

  root_of_closed : (v : TreeUpdate A) → tree_of A (closed v) ≡ tree_of A v
  unfolding closed tree_of
  root_of_closed (tree_update dirty t cfg path subs) = refl

  module _ (D_lawful : IsLawful D) where
    -- A commit of the open transaction, with a version of 32 bits, where it gives no error: the version
    -- is the current one, and the other versions have their roots as before. If neither the main tree
    -- nor one opened below it was written, the hash is the one from before; else it is the root of the
    -- main tree after the roots were propagated.
    pub commit_tree-HasRoot :
        (version : ℕ) (u w : TreeUpdate A) (stored after : D.Data)
        → version < u32_mod
        → commit_tree version u stored ≡ ok (w, after)
        → (r : Bytes) × HasRoot D D_lawful version r stored after
          × (AllClean A u → get_root D stored ≡ ok r)
          × (¬ AllClean A u → A.root (tree_of A w) ≡ ok r)
    commit_tree-HasRoot version u w stored after small h =
        let (o, v, gathered, done, same) = commit_tree_inv version u stored h in
        by_option o v gathered done same
      where
        by_option :
            (o : Option Bytes) (v : TreeUpdate A)
            → propagate_root A u ≡ ok (o, v)
            → commit_version D o version stored ≡ ok after
            → w ≡ closed v
            → (r : Bytes) × HasRoot D D_lawful version r stored after
              × (AllClean A u → get_root D stored ≡ ok r)
              × (¬ AllClean A u → A.root (tree_of A w) ≡ ok r)
        by_option none v gathered done same =
            let (r, before, rooted) = commit_none-HasRoot D D_lawful version stored small done in
            (
              r,
              rooted,
              λ clean. before,
              λ written. absurd (written ((propagate_root_cases A u v none gathered).0.0 refl)),
            )
        by_option (some root) v gathered done same =
            let ((_, idle), taken) = propagate_root_cases A u v (some root) gathered in
            (
              root,
              commit_root-HasRoot D D_lawful root version stored small done,
              λ clean. let bad = idle clean in absurd (ground arith),
              λ written.
                  ap (λ (x : TreeUpdate A). A.root (tree_of A x)) same
                  ∙ ap A.root (root_of_closed v)
                  ∙ taken root refl,
            )
