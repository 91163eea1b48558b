-- ===== src/DatabasePool/Closing.antt =====
-- `DatabasePool::init` and the destructor: which handles they close.
use mini_server.Prelude.{
  ℕ, zero, suc, ◌+◌, ◌≡◌, refl, ap, inl, inr, Bool, true, false, some, List, [], ◌∷◌, ◌++◌, arith,
  count, some_eq,
}
use mini_server.DatabasePool.{
  DatabasePool, Connect, init_failed, refused, connected, connect_loop, init, init_schema,
  with_schema, finish_init, acquire, acquire_from, destroy_lease, release, database_pool,
  destroy_pool,
}
use mini_server.DatabasePool.Init.{Connect-cases}
use mini_server.DatabasePool.Conservation.{count-snoc}

-- The handles that the loop of `init` gets from `mysql_init`, and those that it closes itself: the one
-- whose connection is refused.
unfoldable pub handles_made : ℕ → (ℕ → Connect) → ℕ → List ℕ
handles_made zero attempt n = []
handles_made (suc i) attempt n = elim (attempt n) [
  | init_failed ↦ []
  | refused db ↦ db ∷ []
  | connected db ↦ db ∷ handles_made i attempt (n + 1)
]

unfoldable pub closed_by_loop : ℕ → (ℕ → Connect) → ℕ → List ℕ
closed_by_loop zero attempt n = []
closed_by_loop (suc i) attempt n = elim (attempt n) [
  | init_failed ↦ []
  | refused db ↦ db ∷ []
  | connected db ↦ closed_by_loop i attempt (n + 1)
]

connect_loop-all :
    (i : ℕ) (attempt : ℕ → Connect) (n : ℕ) (p : DatabasePool) (a : ℕ)
    → count a (connect_loop i attempt n p).1.all + count a (closed_by_loop i attempt n)
      ≡ count a p.all + count a (handles_made i attempt n)
unfolding connect_loop handles_made closed_by_loop
connect_loop-all zero attempt n p a = refl
connect_loop-all (suc i) attempt n p a = elim (Connect-cases (attempt n)) [
  | inl (db, k) ↦
      let further =
        connect_loop-all i attempt (n + 1)
          (record p { all = p.all ++ db ∷ []; available = p.available ++ db ∷ [] }) a in
      rw (k, connect_loop, handles_made, closed_by_loop)
        (omega (arith, further, count-snoc a db p.all))
  | inr (inl k) ↦ rw (k, connect_loop, handles_made, closed_by_loop) refl
  | inr (inr (db, k)) ↦ rw (k, connect_loop, handles_made, closed_by_loop) refl
]

with_schema-all :
    (ok : Bool) (p : DatabasePool) (xs : List ℕ) (r : Bool × DatabasePool)
    → with_schema ok (acquire_from p xs) ≡ some r
    → p.all ≡ r.1.all
unfolding with_schema destroy_lease release
with_schema-all ok p [] r h = cc
with_schema-all ok p (x ∷ xs) r h = ap (λ (q : Bool × DatabasePool). q.1.all) (some_eq h)

finish_init-all :
    (ok : Bool) (q r : Bool × DatabasePool) → finish_init ok q ≡ some r → q.1.all ≡ r.1.all
unfolding init_schema acquire
finish_init-all ok (true, p) r h = with_schema-all ok p p.available r h
finish_init-all ok (false, p) r h = ap (λ (q : Bool × DatabasePool). q.1.all) (some_eq h)

-- When `init` returns, whatever its result, each handle that `mysql_init` gave it has been closed by
-- `init` or is closed by the pool's destructor, once in all.
pub init-destroy_pool :
    (n : ℕ) (attempt : ℕ → Connect) (ok : Bool) (r : Bool × DatabasePool)
    → init attempt ok (database_pool n) ≡ some r
    → (a : ℕ)
    → count a (handles_made n attempt 0)
      ≡ count a (closed_by_loop n attempt 0) + count a (destroy_pool r.1)
unfolding init destroy_pool
init-destroy_pool n attempt ok r h a =
    let same = ap (count a) (finish_init-all ok (connect_loop n attempt 0 (database_pool n)) r h) in
    omega (arith, connect_loop-all n attempt 0 (database_pool n) a)
