-- ===== src/KeyKeeper/Liveness.antt =====
-- A process whose keys wait to be revealed at a block is revealed there, where the node accepts it.
use vocdoni.Base.{
  Bool, Bytes, List, [], ap, bytes_eq_refl, false, if◌then◌else◌, inl, inr, none, refl, some, sym,
  true, ℕ, ◌++◌, ◌∙◌, ◌∷◌, ◌≡◌,
}
use vocdoni.Action.{modify, ok, ok_inj, pure, some_inj}
use vocdoni.Action.Preserve.{bind_ok}
use vocdoni.Database.{Database, IsLawful}
use vocdoni.KeyKeeper.{Keeper, Node, ProcessKeys, at_index, generate_keys}
use vocdoni.KeyKeeper.Handlers.{check_reveal_process, reveal_all, reveal_found}
use vocdoni.KeyKeeper.Reveal.{Extends, IsDue, IsRevealed, IsTaken, Signs, reveal_one_lem}
use vocdoni.KeyKeeper.Schedule.{IsListed, block_key}
use vocdoni.Models.{Process}
use vocdoni.Processes.{is_empty, process}
use vocdoni.State.{State}
use mathlib.Core.List.{append_assoc, append-nil}
use mathlib.Core.List.{Memᴰ}
use mathlib.Core.List.Memᴰ
use mathlib.Core.Path.{subst}

-- The keeper's key of a process is among its public keys.
pub record IsPublished (node : Node) (chain : State) (pid : Bytes) : Type 0 where
  pub p : Process
  pub key : Bytes
  pub found : (process pid chain).0 ≡ ok p
  pub slot : at_index p.encryption_public_keys node.my_index ≡ some key
  pub given : is_empty key ≡ false

due_lem :
    (node : Node) (chain : State) (pid : Bytes) (due : IsDue node chain pid)
    → IsPublished node chain pid
    → is_empty due.key ≡ false
due_lem node chain pid due h =
    let same_process : due.p ≡ h.p = ok_inj (sym due.found ∙ h.found) in
    let slot_of = λ (p : Process). at_index p.encryption_public_keys node.my_index in
    let same : due.key ≡ h.key = some_inj (sym due.slot ∙ ap slot_of same_process ∙ h.slot) in
    ap (λ (b : Bytes). is_empty b) same ∙ h.given

module _ (D : Database) (node : Node) (signs : Signs node) where
  -- Each process of a list that has a published key, and for which the keeper can make keys.
  AllRevealed : State → List Bytes → Keeper D → Type 0
  AllRevealed chain pids k =
      (pid : Bytes) (keys : ProcessKeys)
      → Memᴰ pid pids
      → IsPublished node chain pid
      → generate_keys node pid ≡ some keys
      → IsTaken D node pid
      → IsRevealed D node pid k

  extend_lem :
      (pid : Bytes) (k k' : Keeper D)
      → Extends D node k k'
      → IsRevealed D node pid k
      → IsRevealed D node pid k'
  unfolding Extends IsRevealed
  extend_lem pid k k' (more, longer) (keys, nonce, tx, before, after, made, s, sent, taken) = (
    keys,
    nonce,
    tx,
    before,
    after ++ more,
    made,
    s,
    longer ∙ ap (λ (l : List Bytes). l ++ more) sent ∙ append_assoc before (tx ∷ after) more,
    taken,
  )

  both : (k k₁ k₂ : Keeper D) → Extends D node k k₁ → Extends D node k₁ k₂ → Extends D node k k₂
  unfolding Extends
  both k k₁ k₂ (more, first) (later, second) = (
    more ++ later,
    second ∙ ap (λ (l : List Bytes). l ++ later) first ∙ append_assoc k.sent more later,
  )

  reveal_all_lem :
      (chain : State) (pids : List Bytes) (k : Keeper D)
      → ((pid : Bytes) → Memᴰ pid pids → IsDue node chain pid)
      → (k' : Keeper D) × (reveal_all D node chain pids k ≡ (ok true, k'))
        × Extends D node k k'
        × AllRevealed chain pids k'
  unfolding reveal_all AllRevealed Extends IsRevealed
  reveal_all_lem chain [] k due = (
    k,
    refl,
    ([], sym (append-nil k.sent)),
    λ pid keys m shown made taken. absurd (Memᴰ.not-nil m),
  )
  reveal_all_lem chain (pid ∷ rest) k due =
      let own = due pid (Memᴰ.head refl) in
      let (k₁, first, extends, is_revealed) = reveal_one_lem D node chain signs pid rest k own in
      let (k₂, later, extends_on, revealed) =
        reveal_all_lem chain rest k₁ (λ q m. due q (Memᴰ.tail m)) in
      (
        k₂,
        first ∙ later,
        both k k₁ k₂ extends extends_on,
        λ q keys m shown made taken. elim (Memᴰ.cases_cons m) [
          | inl e ↦ extend_lem q k₁ k₂ extends_on (
              subst (λ (x : Bytes). IsRevealed D node x k₁) (sym e)
                (is_revealed (due_lem node chain pid own (subst (IsPublished node chain) e shown))
                  keys (ap (generate_keys node) (sym e) ∙ made) (subst (IsTaken D node) e taken)))
          | inr m' ↦ revealed q keys m' shown made taken
        ],
      )

  -- A loop that comes to its end deletes the list.
  check_listed_lem :
      (chain : State) (height : ℕ) (k k₁ : Keeper D) {bytes : Bytes} {pids : List Bytes}
      → D.get k.storage (block_key height) ≡ some bytes
      → node.unmarshal_pids bytes ≡ (pids, true)
      → reveal_all D node chain pids k ≡ (ok true, k₁)
      → check_reveal_process D node chain height k
        ≡ (ok tt, record k₁ { storage = D.delete (block_key height) k₁.storage })
  unfolding check_reveal_process reveal_found
  check_listed_lem chain height k k₁ {bytes} {pids} found readable loop =
      rw (check_reveal_process, found, reveal_found, readable)
        (bind_ok (reveal_all D node chain pids)
          (λ (complete : Bool).
            if complete
            then modify (λ x. record x { storage = D.delete (block_key height) x.storage })
            else pure tt)
          k loop)

  -- The list of a block: the keys of a process on it are revealed, where `SendTx` accepts them, and the
  -- list is deleted.
  pub check_reveal_process_lem :
      (lawful : IsLawful D) (chain : State) (height : ℕ) (k : Keeper D)
      → ((pid : Bytes) → IsListed D node pid height k.storage → IsDue node chain pid)
      → (pid : Bytes) (keys : ProcessKeys) → IsListed D node pid height k.storage
      → IsPublished node chain pid
      → generate_keys node pid ≡ some keys
      → IsTaken D node pid
      → (k' : Keeper D) × (check_reveal_process D node chain height k ≡ (ok tt, k'))
        × (D.get k'.storage (block_key height) ≡ none)
        × IsRevealed D node pid k'
  unfolding IsListed AllRevealed Extends
  check_reveal_process_lem lawful chain height k due pid keys (bytes, pids, found, readable, m)
        shown made taken =
      let due_of = λ (q : Bytes) (n : Memᴰ q pids). due q (bytes, pids, found, readable, n) in
      let (k₁, loop, _, revealed) = reveal_all_lem chain pids k due_of in
      let deleted : Keeper D = record k₁ { storage = D.delete (block_key height) k₁.storage } in
      (
        deleted,
        check_listed_lem chain height k k₁ found readable loop,
        rw (
          lawful.get-delete k₁.storage (block_key height) (block_key height),
          bytes_eq_refl (block_key height),
        ),
        extend_lem pid k₁ deleted ([], sym (append-nil k₁.sent))
            (revealed pid keys m shown made taken),
      )
