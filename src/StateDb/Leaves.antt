-- ===== src/StateDb/Leaves.antt =====
-- statedb/treeupdate.go: what `propagateRoot` makes of the leaves of a tree.
use vocdoni.Base.{
  Bool, Bool-cases, Bytes, List, Option, [], ap, arith, bytes_eq, eq_of_bytes_eq, if◌then◌else◌,
  inl, inr, refl, sym, ◌∙◌, ◌∷◌, ◌≡◌,
}
use vocdoni.Action.{Result, err, ok, ok_inj}
use vocdoni.StateDb.Clean.{apply_inv}
use vocdoni.StateDb.Groups.{
  Absent, AreSingle, asked, by_key-AreSingle, group_at, group_at-by_key, group_at-nil,
}
use vocdoni.StateDb.Trees.{
  Arbo, Subs, TreeUpdate, Update, apply_updates, by_key, gather_updates, propagate_root, subs_of,
  tree_of, tree_update, update_leaf, update_leaves,
}
use mathlib.Core.Path.{subst}

-- A leaf that was set is read back, and the other leaves are as before.
pub record IsStore (A : Arbo) : Type 0 where
  pub get-set :
      (t t' : A.Tree) (key leaf j : Bytes)
      → A.set key leaf t ≡ ok t'
      → A.get t' j ≡ (if bytes_eq key j then ok leaf else A.get t j)

module _ (A : Arbo) where
  -- The leaf of a key, after a list of updates.
  unfoldable pub leaf_after : List Update → Result Bytes → Result Bytes
  leaf_after us (err e) = err e
  leaf_after us (ok leaf) = update_leaf A us leaf

  leaf_after_nil : (x : Result Bytes) → x ≡ leaf_after [] x
  unfolding leaf_after update_leaf
  leaf_after_nil (err e) = refl
  leaf_after_nil (ok leaf) = refl

  -- One leaf of the loop over the keys.
  update_leaves_inv :
      (key : Bytes) (us : List Update) (rest : List (Bytes × List Update)) (t : A.Tree)
      {t' : A.Tree}
      → update_leaves A ((key, us) ∷ rest) t ≡ ok t'
      → (leaf : Bytes) × (t1 : A.Tree) × (leaf_after us (A.get t key) ≡ ok leaf)
        × (A.set key leaf t ≡ ok t1)
        × (update_leaves A rest t1 ≡ ok t')
  unfolding update_leaves leaf_after
  update_leaves_inv key us rest t {t'} h = by_leaf (A.get t key) h
    where
      by_set :
          (leaf : Bytes) (x : Result A.Tree)
          → A.set key leaf t ≡ x
          → (elim x as (λ _. Result A.Tree) [ err e ↦ err e | ok t1 ↦ update_leaves A rest t1 ])
            ≡ ok t'
          → (t1 : A.Tree) × (A.set key leaf t ≡ ok t1) × (update_leaves A rest t1 ≡ ok t')
      by_set leaf (err e) is_set made = absurd (ground arith)
      by_set leaf (ok t1) is_set made = (t1, is_set, made)

      by_update :
          (x : Result Bytes)
          → (elim x as (λ _. Result A.Tree) [
            | err e ↦ err e
            | ok leaf ↦ elim (A.set key leaf t) [ err e ↦ err e | ok t1 ↦ update_leaves A rest t1 ]
          ])
            ≡ ok t'
          → (leaf : Bytes) × (t1 : A.Tree) × (x ≡ ok leaf)
            × (A.set key leaf t ≡ ok t1)
            × (update_leaves A rest t1 ≡ ok t')
      by_update (err e) made = absurd (ground arith)
      by_update (ok leaf) made =
          let (t1, is_set, done) = by_set leaf (A.set key leaf t) refl made in
          (leaf, t1, refl, is_set, done)

      by_leaf :
          (x : Result Bytes)
          → (elim x as (λ _. Result A.Tree) [
            | err e ↦ err e
            | ok leaf ↦ elim (update_leaf A us leaf) [
              | err e ↦ err e
              | ok leaf' ↦ elim (A.set key leaf' t) [
                | err e ↦ err e
                | ok t1 ↦ update_leaves A rest t1
              ]
            ]
          ])
            ≡ ok t'
          → (leaf : Bytes) × (t1 : A.Tree) × (leaf_after us x ≡ ok leaf)
            × (A.set key leaf t ≡ ok t1)
            × (update_leaves A rest t1 ≡ ok t')
      by_leaf (err e) made = absurd (ground arith)
      by_leaf (ok leaf) made = by_update (update_leaf A us leaf) made

  module _ (store_law : IsStore A) where
    update_leaves-group_at :
        (j : Bytes) (g : List (Bytes × List Update)) (t : A.Tree) {t' : A.Tree}
        → AreSingle g
        → update_leaves A g t ≡ ok t'
        → A.get t' j ≡ leaf_after (group_at j g) (A.get t j)
    unfolding update_leaves group_at AreSingle
    update_leaves-group_at j [] t apart h =
        ap (λ (x : A.Tree). A.get x j) (sym (ok_inj h)) ∙ leaf_after_nil (A.get t j)
    update_leaves-group_at j ((key, us) ∷ rest) t {t'} (absent, apart) h =
        let (leaf, t1, is_leaf, is_set, done) = update_leaves_inv key us rest t h in
        let later = update_leaves-group_at j rest t1 apart done in
        let read = store_law.get-set t t1 key leaf j is_set in
        elim (Bool-cases (bytes_eq key j)) [
          | inl same ↦
              let e = eq_of_bytes_eq key j same in
              rw same (
                later
                ∙ ap (λ (us' : List Update). leaf_after us' (A.get t1 j))
                    (group_at-nil j rest (subst (λ (x : Bytes). Absent x rest) e absent))
                ∙ sym (leaf_after_nil (A.get t1 j))
                ∙ read
                ∙ ap (λ (b : Bool). if b then ok leaf else A.get t j) same
                ∙ sym is_leaf
                ∙ ap (λ (x : Bytes). leaf_after us (A.get t x)) e)
          | inr other ↦ rw other (
              later
              ∙ ap (leaf_after (group_at j rest))
                  (read ∙ ap (λ (b : Bool). if b then ok leaf else A.get t j) other))
        ]

    -- Where it gives no error, `propagateRoot` makes of the leaf with a key the one that all the updates
    -- with this key make of it, one after the other, in the order of the opened trees; a leaf without
    -- updates is as before. The tree library is assumed to read back the leaf that was set, and the
    -- others as before.
    pub leaf_after-propagate_root :
        (u v : TreeUpdate A) (o : Option Bytes)
        → propagate_root A u ≡ ok (o, v)
        → (updates : List Update) × (gather_updates A (subs_of A u) ≡ ok (updates, subs_of A v))
          × ((key : Bytes)
              → A.get (tree_of A v) key ≡ leaf_after (asked key updates) (A.get (tree_of A u) key))
    unfolding propagate_root apply_updates tree_of subs_of AreSingle asked group_at
    leaf_after-propagate_root (tree_update dirty t cfg path subs) v o h =
        by_gathered (gather_updates A subs) refl h
      where
        by_gathered :
            (x : Result (List Update × Subs A))
            → gather_updates A subs ≡ x
            → apply_updates A dirty t cfg path x ≡ ok (o, v)
            → (updates : List Update) × (gather_updates A subs ≡ ok (updates, subs_of A v))
              × ((key : Bytes)
                  → A.get (tree_of A v) key ≡ leaf_after (asked key updates) (A.get t key))
        by_gathered (err e) gathered made = absurd (ground arith)
        by_gathered (ok (updates, subs')) gathered made =
            elim (apply_inv A dirty t cfg path updates subs' made) [
              | inl (idle, _, _, same) ↦ (
                updates,
                gathered ∙ ap (λ (x : TreeUpdate A). ok (updates, subs_of A x)) (sym same),
                λ key.
                    ap (λ (x : TreeUpdate A). A.get (tree_of A x) key) same
                    ∙ leaf_after_nil (A.get t key)
                    ∙ ap (λ (us : List Update). leaf_after (asked key us) (A.get t key)) (sym idle),
              )
              | inr (r, t', done, _, _, same) ↦ (
                updates,
                gathered ∙ ap (λ (x : TreeUpdate A). ok (updates, subs_of A x)) (sym same),
                λ key.
                    ap (λ (x : TreeUpdate A). A.get (tree_of A x) key) same
                    ∙ update_leaves-group_at key (by_key A updates []) t
                        (by_key-AreSingle A updates [] tt) done
                    ∙ ap (λ (us : List Update). leaf_after us (A.get t key))
                        (group_at-by_key A key updates []),
              )
            ]
