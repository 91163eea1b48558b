-- ===== src/DatabasePool/Init.antt =====
-- `DatabasePool::init`: the handles that it makes, its results, and when it returns.
use mini_server.Prelude.{
  ℕ, zero, suc, ◌+◌, ◌<◌, ◌≡◌, refl, sym, ap, ◌∙◌, subst, ◌⊎◌, inl, inr, Bool, true, false, none,
  some, List, [], ◌∷◌, ◌++◌, arith, count, length, length-append, some_eq,
}
use mini_server.DatabasePool.{
  DatabasePool, acquire, acquire_from, destroy_lease, Connect, init_failed, refused, connected,
  connect_loop, init_schema, with_schema, init, database_pool, finish_init,
}
use mini_server.DatabasePool.Slots.{System}
use mini_server.DatabasePool.Conservation.{count-snoc, IsConserved}

pub Connect-cases :
    (k : Connect)
    → ((b : ℕ) × (k ≡ connected b)) ⊎ ((k ≡ init_failed) ⊎ ((b : ℕ) × (k ≡ refused b)))
Connect-cases init_failed = inr (inl refl)
Connect-cases (refused b) = inr (inr (b, refl))
Connect-cases (connected b) = inl (b, refl)

length-snoc : (xs : List ℕ) (x : ℕ) → length (xs ++ x ∷ []) ≡ suc (length xs)
length-snoc xs x = omega (arith, length-append xs (x ∷ []))

-- The loop of `init` puts each handle into both containers, one a round.
connect_loop_fills :
    (i : ℕ) (attempt : ℕ → Connect) (n : ℕ) (p : DatabasePool)
    → p.available ≡ p.all
    → let r = connect_loop i attempt n p in
      (r.1.available ≡ r.1.all) × (r.0 ≡ true → length r.1.all ≡ length p.all + i)
unfolding connect_loop
connect_loop_fills zero attempt n p e = (e, λ _. omega arith)
connect_loop_fills (suc i) attempt n p e = elim (Connect-cases (attempt n)) [
  | inl (db, k) ↦
      let (same, size) =
        connect_loop_fills i attempt (n + 1)
          (record p { all = p.all ++ db ∷ []; available = p.available ++ db ∷ [] })
          (ap (λ xs. xs ++ db ∷ []) e) in
      rw (k, connect_loop) (same, λ t. size t ∙ omega (arith, length-snoc p.all db))
  | inr (inl k) ↦ rw (k, connect_loop) (e, λ t. cc)
  | inr (inr (db, k)) ↦ rw (k, connect_loop) (e, λ t. cc)
]

-- The pool with no lease on it.
abbrev unleased : DatabasePool → System
unleased p = record { pool = p; leases = [] }

-- What `init` promises of its result and the pool that it leaves.
abbrev pub Ready : ℕ → Bool × DatabasePool → Type 0
Ready n (b, p) = IsConserved (unleased p) × (b ≡ true → length p.all ≡ n)

with_schema-Ready :
    (n : ℕ) (ok : Bool) (p : DatabasePool) (xs : List ℕ) (r : Bool × DatabasePool)
    → p.all ≡ xs
    → length p.all ≡ n
    → with_schema ok (acquire_from p xs) ≡ some r
    → Ready n r
unfolding with_schema destroy_lease
with_schema-Ready n ok p [] r e size h = cc
with_schema-Ready n ok p (x ∷ xs) r e size h =
    subst (Ready n) (some_eq h) (λ a. omega (arith, count-snoc a x xs, ap (count a) e), λ t. size)

finish_init-Ready :
    (n : ℕ) (ok : Bool) (r q : Bool × DatabasePool)
    → r.1.available ≡ r.1.all
    → (r.0 ≡ true → length r.1.all ≡ n)
    → finish_init ok r ≡ some q
    → Ready n q
unfolding init_schema acquire
finish_init-Ready n ok (true, p) q same size h =
    with_schema-Ready n ok p p.available q (sym same) (size refl) h
finish_init-Ready n ok (false, p) q same size h =
    subst (Ready n) (some_eq h) (λ a. omega (arith, ap (count a) same), λ t. cc)

-- When `init` returns, on every path, the pool holds all its handles and no lease is left over; if it
-- returns true they are as many as the configured size.
pub init-Ready :
    (n : ℕ) (attempt : ℕ → Connect) (ok : Bool) (r : Bool × DatabasePool)
    → init attempt ok (database_pool n) ≡ some r
    → Ready n r
unfolding init
init-Ready n attempt ok r h =
    let (same, size) = connect_loop_fills n attempt 0 (database_pool n) refl in
    finish_init-Ready n ok (connect_loop n attempt 0 (database_pool n)) r same
      (λ t. size t ∙ omega arith) h

with_schema_returns :
    (ok : Bool) (p : DatabasePool) (xs : List ℕ)
    → 0 < length xs
    → (r : Bool × DatabasePool) × (with_schema ok (acquire_from p xs) ≡ some r)
unfolding with_schema
with_schema_returns ok p [] h = absurd (omega arith)
with_schema_returns ok p (x ∷ xs) h = (_, refl)

finish_init-returns :
    (ok : Bool) (p : DatabasePool) (b : Bool)
    → p.available ≡ p.all
    → (b ≡ true → 0 < length p.all)
    → (r : Bool × DatabasePool) × (finish_init ok (b, p) ≡ some r)
unfolding init_schema acquire
finish_init-returns ok p true same some_handle =
    with_schema_returns ok p p.available (rw same (some_handle refl))
finish_init-returns ok p false same some_handle = ((false, p), refl)

init-suc_returns :
    (n : ℕ) (attempt : ℕ → Connect) (ok : Bool)
    → (r : Bool × DatabasePool) × (init attempt ok (database_pool (suc n)) ≡ some r)
unfolding init
init-suc_returns n attempt ok =
    let (same, size) = connect_loop_fills (suc n) attempt 0 (database_pool (suc n)) refl in
    let r = connect_loop (suc n) attempt 0 (database_pool (suc n)) in
    finish_init-returns ok r.1 r.0 same (λ t. omega (arith, size t))

-- `init` of a pool of at least one handle returns, whatever the server answers; of a pool of size 0 it
-- waits for ever.
pub init_returns :
    (n : ℕ) (attempt : ℕ → Connect) (ok : Bool)
    → ((r : Bool × DatabasePool) × (init attempt ok (database_pool (suc n)) ≡ some r))
      × (init attempt ok (database_pool 0) ≡ none)
unfolding init connect_loop init_schema acquire with_schema
init_returns n attempt ok = (init-suc_returns n attempt ok, refl)
