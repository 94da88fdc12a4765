-- ===== src/Queue/Grouping.antt =====
-- Grouping the jobs by account, and the accounts by node, loses no job and invents none.
use scheduler.Prelude.{
  ℕ, ◌≡◌, refl, Bool, false, ◌||◌, none, List, [], ◌∷◌, ◌++◌, arith, ◌==◌, any, any-append, All,
  lookup, insert, lookup-insert,
}
use scheduler.Models.{Job}
use scheduler.Queue.{get_or, group_by_account, group_by_node, target_node}

-- Some job of some group passes the test, which is given the group's account too.
abbrev pub any_group : (ℕ → Job → Bool) → List (ℕ × List Job) → Bool
any_group p = any (λ g. any (p g.0) g.1)

any_group-append_job :
    (p : ℕ → Job → Bool) (a : ℕ) (j : Job) (m : List (ℕ × List Job))
    → any_group p (insert a (get_or (lookup a m) [] ++ j ∷ []) m) ≡ p a j || any_group p m
any_group-append_job p a j [] = ground arith
any_group-append_job p a j ((b, js) ∷ m) =
    ground (arith, any-append (p b) js (j ∷ []), any_group-append_job p a j m)

pub any_group-group_by_account :
    (p : ℕ → Job → Bool) (m : List (ℕ × List Job)) (js : List Job)
    → any_group p (group_by_account m js) ≡ any_group p m || any (λ j. p j.account_id j) js
unfolding group_by_account
any_group-group_by_account p m [] = ground arith
any_group-group_by_account p m (j ∷ js) = ground (
  arith,
  any_group-group_by_account p (insert j.account_id (get_or (lookup j.account_id m) [] ++ j ∷ []) m)
      js,
  any_group-append_job p j.account_id j m,
)

-- Each key of the map stands in it once.
abbrev pub IsDistinct {ℓ} : {V : Type ℓ} → List (ℕ × V) → Type ℓ
IsDistinct [] = Unit
IsDistinct ((k, v) ∷ m) = (lookup k m ≡ none) × IsDistinct m

insert-IsDistinct :
    (k : ℕ) (v : List Job) (m : List (ℕ × List Job)) → IsDistinct m → IsDistinct (insert k v m)
insert-IsDistinct k v [] d = (refl, tt)
insert-IsDistinct k v ((j, w) ∷ m) d =
    ground (arith, insert-IsDistinct k v m, lookup-insert k j v m)

pub group_by_account-IsDistinct :
    (m : List (ℕ × List Job)) (js : List Job) → IsDistinct m → IsDistinct (group_by_account m js)
unfolding group_by_account
group_by_account-IsDistinct m [] d = d
group_by_account-IsDistinct m (j ∷ js) d =
    group_by_account-IsDistinct
      (insert j.account_id (get_or (lookup j.account_id m) [] ++ j ∷ []) m) js
      (insert-IsDistinct j.account_id _ m d)

abbrev pub NodeMap : Type 0
NodeMap = List (ℕ × List (ℕ × List Job))

abbrev pub any_node : (ℕ → ℕ → List Job → Bool) → NodeMap → Bool
any_node p = any (λ g. any (λ h. p g.0 h.0 h.1) g.1)

-- The account has no entry at any node.
abbrev IsAbsent : ℕ → NodeMap → Type 0
IsAbsent a m = (n : ℕ) → lookup a (get_or (lookup n m) []) ≡ none

any-insert_fresh {ℓ} :
    {V : Type ℓ} (p : ℕ × V → Bool) (k : ℕ) (v : V) (m : List (ℕ × V))
    → lookup k m ≡ none
    → any p (insert k v m) ≡ p (k, v) || any p m
any-insert_fresh p k v [] h = refl
any-insert_fresh p k v ((j, w) ∷ m) h = ground (arith, any-insert_fresh p k v m)

any_node-insert :
    (p : ℕ → ℕ → List Job → Bool) (n a : ℕ) (js : List Job) (m : NodeMap)
    → lookup a (get_or (lookup n m) []) ≡ none
    → any_node p (insert n (insert a js (get_or (lookup n m) [])) m) ≡ p n a js || any_node p m
any_node-insert p n a js [] h = ground arith
any_node-insert p n a js ((k, inner) ∷ m) h = ground (
  arith,
  any-insert_fresh (λ (h : ℕ × List Job). p k h.0 h.1) a js inner,
  any_node-insert p n a js m,
)

IsAbsent-insert :
    (n a b : ℕ) (js : List Job) (m : NodeMap)
    → (a == b) ≡ false
    → IsAbsent b m
    → IsAbsent b (insert n (insert a js (get_or (lookup n m) [])) m)
IsAbsent-insert n a b js m ne h k = ground (
  arith,
  lookup-insert n k (insert a js (get_or (lookup n m) [])) m,
  lookup-insert a b js (get_or (lookup n m) []),
  h n,
  h k,
)

IsAbsent-step :
    (n a : ℕ) (js : List Job) (m : NodeMap) (groups : List (ℕ × List Job))
    → lookup a groups ≡ none
    → All (λ g. IsAbsent g.0 m) groups
    → All (λ g. IsAbsent g.0 (insert n (insert a js (get_or (lookup n m) [])) m)) groups
IsAbsent-step n a js m [] h s = tt
IsAbsent-step n a js m ((b, w) ∷ groups) h s = (
  IsAbsent-insert n a b js m (ground arith) s.0,
  IsAbsent-step n a js m groups (ground arith) s.1,
)

pub any_node-group_by_node :
    (p : ℕ → ℕ → List Job → Bool) (ws : List ℕ) (m : NodeMap) (groups : List (ℕ × List Job))
    → IsDistinct groups
    → All (λ g. IsAbsent g.0 m) groups
    → any_node p (group_by_node ws m groups)
      ≡ any_node p m || any (λ g. p (target_node ws g.0) g.0 g.1) groups
unfolding group_by_node
any_node-group_by_node p ws m [] d s = ground arith
any_node-group_by_node p ws m ((a, js) ∷ groups) d s =
    let n = target_node ws a in
    ground (
      arith,
      any_node-group_by_node p ws (insert n (insert a js (get_or (lookup n m) [])) m) groups d.1
          (IsAbsent-step n a js m groups d.0 s.1),
      any_node-insert p n a js m (s.0 n),
    )

-- Over an empty map nothing is overwritten.
pub any_node-group_by_node_empty :
    (p : ℕ → ℕ → List Job → Bool) (ws : List ℕ) (groups : List (ℕ × List Job))
    → IsDistinct groups
    → any_node p (group_by_node ws [] groups) ≡ any (λ g. p (target_node ws g.0) g.0 g.1) groups
any_node-group_by_node_empty p ws groups d = any_node-group_by_node p ws [] groups d (absent groups)
  where
    absent : (gs : List (ℕ × List Job)) → All (λ g. IsAbsent g.0 []) gs
    absent [] = tt
    absent (g ∷ gs) = ((λ n. refl), absent gs)
