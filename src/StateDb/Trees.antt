-- ===== src/StateDb/Trees.antt =====
-- statedb/treeupdate.go: the trees that a transaction has opened, each with the trees opened below it,
-- and how their roots are propagated upwards. A merkle tree is one of arbo, by tree/tree.go.
use vocdoni.Base.{
  Bool, Bytes, List, Option, [], bytes_eq, false, if◌then◌else◌, none, not, some, true, ◌&&◌, ◌++◌,
  ◌∷◌,
}
use vocdoni.Action.{Action, Result, err, ok}
use vocdoni.Processes.{is_empty}

pub record Arbo : Type 1 where
  pub Tree : Type 0
  pub get : Tree → Bytes → Result Bytes
  pub add : Bytes → Bytes → Tree → Result Tree
  pub set : Bytes → Bytes → Tree → Result Tree
  pub root : Tree → Result Bytes
  pub set_root : Bytes → Tree → Result Tree

pub record TreeConfig : Type 0 where
  pub parent_leaf_key : Bytes
  pub prefix : Bytes
  pub parent_leaf_get_root : Bytes → Result Bytes
  pub parent_leaf_set_root : Bytes → Bytes → Result Bytes

mutual
  -- `dirtyTree`, `tree`, `cfg`, the prefixes above in place of `tx`, and `openSubs` in an order of `Range`
  pub data TreeUpdate (A : Arbo) : Type 0 where
    tree_update : Bool → A.Tree → TreeConfig → List Bytes → Subs A → TreeUpdate A

  pub data Subs (A : Arbo) : Type 0 where
    no_subs : Subs A
    and_sub : TreeUpdate A → Subs A → Subs A

-- `update`, with the key of the leaf
pub record Update : Type 0 where
  pub key : Bytes
  pub set_root : Bytes → Bytes → Result Bytes
  pub root : Bytes

module _ (A : Arbo) where
  unfoldable pub tree_of : TreeUpdate A → A.Tree
  tree_of (tree_update dirty t cfg path subs) = t

  unfoldable pub cfg_of : TreeUpdate A → TreeConfig
  cfg_of (tree_update dirty t cfg path subs) = cfg

  unfoldable pub subs_of : TreeUpdate A → Subs A
  subs_of (tree_update dirty t cfg path subs) = subs

  -- `Get`, `Add` and `Set`; a tree is dirty also when the call gives an error.
  unfoldable pub tree_get : Bytes → Action (TreeUpdate A) Bytes
  unfolding tree_of
  tree_get key u = (A.get (tree_of u) key, u)

  unfoldable pub changed : Result A.Tree → TreeUpdate A → Result Unit × TreeUpdate A
  changed (err e) (tree_update dirty t cfg path subs) = (err e, tree_update true t cfg path subs)
  changed (ok t') (tree_update dirty t cfg path subs) = (ok tt, tree_update true t' cfg path subs)

  unfoldable pub tree_add : Bytes → Bytes → Action (TreeUpdate A) Unit
  unfolding changed tree_of
  tree_add key leaf u = changed (A.add key leaf (tree_of u)) u

  unfoldable pub tree_set : Bytes → Bytes → Action (TreeUpdate A) Unit
  unfolding changed tree_of
  tree_set key leaf u = changed (A.set key leaf (tree_of u)) u

  -- The opened tree with a prefix.
  unfoldable pub load : Bytes → Subs A → Option (TreeUpdate A)
  unfolding cfg_of
  load prefix no_subs = none
  load prefix (and_sub sub rest) =
      if bytes_eq (cfg_of sub).prefix prefix then some sub else load prefix rest

  unfoldable pub store : TreeUpdate A → Subs A → Subs A
  unfolding cfg_of
  store new no_subs = and_sub new no_subs
  store new (and_sub sub rest) =
      if bytes_eq (cfg_of sub).prefix (cfg_of new).prefix
      then and_sub new rest
      else and_sub sub (store new rest)

  -- `tree.New` on the database below a path of prefixes, as the last commits left it.
  module _ (last : List Bytes → Result A.Tree) where
    -- A tree that is opened at the root that its parent's leaf has.
    unfoldable pub open_at : Bytes → A.Tree → Result A.Tree
    open_at root t = elim (A.root t) [
      | err e ↦ err e
      | ok last_root ↦ if bytes_eq root last_root then ok t else A.set_root root t
    ]

    unfoldable pub open_sub : TreeConfig → A.Tree → List Bytes → Result (TreeUpdate A)
    unfolding open_at
    open_sub cfg t path = elim (A.get t cfg.parent_leaf_key) [
      | err e ↦ err e
      | ok leaf ↦ elim (cfg.parent_leaf_get_root leaf) [
        | err e ↦ err e
        | ok root ↦
            let below = path ++ cfg.prefix ∷ [] in
            elim (last below) [
              | err e ↦ err e
              | ok made ↦ elim (open_at root made) [
                | err e ↦ err e
                | ok t' ↦ ok (tree_update false t' cfg below no_subs)
              ]
            ]
      ]
    ]

    -- `SubTree`, and a call on what it returns.
    unfoldable pub sub_tree :
        {X : Type 0} → TreeConfig → Action (TreeUpdate A) X → Action (TreeUpdate A) X
    unfolding load store open_sub
    sub_tree {X} cfg call (tree_update dirty t own path subs) = elim (load cfg.prefix subs) [
      | some sub ↦ let (r, sub') = call sub in (r, tree_update dirty t own path (store sub' subs))
      | none ↦ elim (open_sub cfg t path) [
        | err e ↦ (err e, tree_update dirty t own path subs)
        | ok sub ↦ let (r, sub') = call sub in (r, tree_update dirty t own path (store sub' subs))
      ]
    ]

    -- `DeepSubTree`, and `DeepGet`, `DeepAdd` and `DeepSet`
    unfoldable pub deep_sub_tree :
        {X : Type 0} → List TreeConfig → Action (TreeUpdate A) X → Action (TreeUpdate A) X
    unfolding sub_tree
    deep_sub_tree [] call = call
    deep_sub_tree (cfg ∷ rest) call = sub_tree cfg (deep_sub_tree rest call)

    unfoldable pub deep_get : Bytes → List TreeConfig → Action (TreeUpdate A) Bytes
    unfolding deep_sub_tree tree_get
    deep_get key cfgs = deep_sub_tree cfgs (tree_get key)

    unfoldable pub deep_add : Bytes → Bytes → List TreeConfig → Action (TreeUpdate A) Unit
    unfolding deep_sub_tree tree_add
    deep_add key leaf cfgs = deep_sub_tree cfgs (tree_add key leaf)

    unfoldable pub deep_set : Bytes → Bytes → List TreeConfig → Action (TreeUpdate A) Unit
    unfolding deep_sub_tree tree_set
    deep_set key leaf cfgs = deep_sub_tree cfgs (tree_set key leaf)

  -- `updatesByKey[key] = append(…)`; its keys are in the order in which they first come.
  unfoldable pub add_update : Update → List (Bytes × List Update) → List (Bytes × List Update)
  add_update u [] = (u.key, u ∷ []) ∷ []
  add_update u ((key, us) ∷ rest) =
      if bytes_eq u.key key then (key, us ++ u ∷ []) ∷ rest else (key, us) ∷ add_update u rest

  unfoldable pub by_key : List Update → List (Bytes × List Update) → List (Bytes × List Update)
  unfolding add_update
  by_key [] groups = groups
  by_key (u ∷ rest) groups = by_key rest (add_update u groups)

  -- The updates of a leaf, and then of the leaves of a tree.
  unfoldable pub update_leaf : List Update → Bytes → Result Bytes
  update_leaf [] leaf = ok leaf
  update_leaf (u ∷ rest) leaf = elim (u.set_root leaf u.root) [
    | err e ↦ err e
    | ok leaf' ↦ update_leaf rest leaf'
  ]

  unfoldable pub update_leaves : List (Bytes × List Update) → A.Tree → Result A.Tree
  unfolding update_leaf
  update_leaves [] t = ok t
  update_leaves ((key, us) ∷ rest) t = elim (A.get t key) [
    | err e ↦ err e
    | ok leaf ↦ elim (update_leaf us leaf) [
      | err e ↦ err e
      | ok leaf' ↦ elim (A.set key leaf' t) [ err e ↦ err e | ok t' ↦ update_leaves rest t' ]
    ]
  ]

  -- The end of `propagateRoot`: the root of a tree that has changed.
  unfoldable pub with_root :
      Bool → TreeConfig → List Bytes → Subs A → A.Tree → Result (Option Bytes × TreeUpdate A)
  with_root dirty cfg path subs t = elim (A.root t) [
    | err e ↦ err e
    | ok root ↦ ok (some root, tree_update dirty t cfg path subs)
  ]

  -- `propagateRoot`, with the updates that the opened trees ask for.
  unfoldable pub apply_updates :
      Bool
      → A.Tree
      → TreeConfig
      → List Bytes
      → Result (List Update × Subs A)
      → Result (Option Bytes × TreeUpdate A)
  unfolding by_key update_leaves with_root
  apply_updates dirty t cfg path (err e) = err e
  apply_updates dirty t cfg path (ok (updates, subs)) =
      if is_empty updates && not dirty
      then ok (none, tree_update dirty t cfg path subs)
      else elim (update_leaves (by_key updates []) t) [
        | err e ↦ err e
        | ok t' ↦ with_root dirty cfg path subs t'
      ]

  -- What an opened tree adds to the updates: nothing, where its root is nil.
  unfoldable pub join_updates :
      Result (Option Bytes × TreeUpdate A)
      → Result (List Update × Subs A)
      → Result (List Update × Subs A)
  unfolding cfg_of
  join_updates (err e) later = err e
  join_updates (ok x) (err e) = err e
  join_updates (ok (none, sub)) (ok (updates, subs)) = ok (updates, and_sub sub subs)
  join_updates (ok (some root, sub)) (ok (updates, subs)) = ok (
    record {
      key = (cfg_of sub).parent_leaf_key;
      set_root = (cfg_of sub).parent_leaf_set_root;
      root = root;
    }
        ∷ updates,
    and_sub sub subs,
  )

  unfoldable mutual
    unfolding apply_updates join_updates

    -- `propagateRoot`; a tree without opened trees is the case of no updates.
    pub propagate_root : TreeUpdate A → Result (Option Bytes × TreeUpdate A)
    propagate_root (tree_update dirty t cfg path subs) =
        apply_updates dirty t cfg path (gather_updates subs)

    pub gather_updates : Subs A → Result (List Update × Subs A)
    gather_updates no_subs = ok ([], no_subs)
    gather_updates (and_sub sub rest) = join_updates (propagate_root sub) (gather_updates rest)
