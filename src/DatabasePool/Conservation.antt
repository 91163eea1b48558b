-- ===== src/DatabasePool/Conservation.antt =====
-- The handles of the pool, however leases are taken, moved and ended.
use mathlib.Core.Path.{subst₂}
use mini_server.Prelude.{
  ℕ, ◌+◌, ◌≤◌, ◌≡◌, refl, sym, ap, ◌∙◌, subst, inl, inr, Bool, true, false, Option, none, some,
  List, [], ◌∷◌, ◌++◌, arith, Bool-cases, Option-cases, count, count-append, get_elem?,
  get_elem?-set_ne, one_if, set, sum, sum-set, ◌==◌,
}
use mini_server.DatabasePool.{
  DatabasePool, Lease, no_lease, acquire, release, release_held, acquire_from, destroy_lease,
  move_construct, move_assign,
}
use mini_server.DatabasePool.Slots.{
  System, Action, acquires, destroys, moves_new, moves_into, with_lease, destroy_at, move_new_from,
  assign, step, run,
}

-- How often a lease holds the handle, and how often all of them do.
abbrev held_by : ℕ → Bool → Option ℕ → ℕ
held_by a true (some db) = one_if (db == a)
held_by a _ _ = 0

abbrev pub held : ℕ → Lease → ℕ
held a l = held_by a l.has_pool l.db

abbrev pub held_all : ℕ → List Lease → ℕ
held_all a = sum (held a)

pub count-snoc : (a x : ℕ) (xs : List ℕ) → count a (xs ++ x ∷ []) ≡ count a xs + one_if (x == a)
count-snoc a x xs = omega (arith, count-append a xs (x ∷ []))

-- The handle `a` in the pool and in leases.
abbrev owned : ℕ → System → ℕ
owned a s = count a s.pool.available + held_all a s.leases

-- Every handle of the pool is where it can be used, as often as `init` made it.
abbrev pub IsConserved : System → Type 0
IsConserved s = (a : ℕ) → owned a s ≡ count a s.pool.all

release_held-count :
    (a : ℕ) (b : Bool) (o : Option ℕ) (p : DatabasePool)
    → (count a (release_held b o p).available ≡ count a p.available + held_by a b o)
      × ((release_held b o p).all ≡ p.all)
unfolding release
release_held-count a true (some db) p = (count-snoc a db p.available, refl)
release_held-count a true none p = (omega arith, refl)
release_held-count a false _ p = (omega arith, refl)

-- What one action keeps.
record Keeps (a : ℕ) (s t : System) : Type 0 where
  total : owned a t ≡ owned a s
  same_all : t.pool.all ≡ s.pool.all

Keeps-refl : (a : ℕ) (s : System) → Keeps a s s
Keeps-refl a s = record { total = refl; same_all = refl }

acquire_from-Keeps :
    (a : ℕ) (s : System) (xs : List ℕ)
    → s.pool.available ≡ xs
    → Keeps a s (with_lease (acquire_from s.pool xs) s)
acquire_from-Keeps a s [] e = Keeps-refl a s
acquire_from-Keeps a s (x ∷ xs) e = record {
  total = omega (arith, ap (count a) e);
  same_all = refl;
}

acquire-Keeps : (a : ℕ) (s : System) → Keeps a s (with_lease (acquire s.pool) s)
unfolding acquire
acquire-Keeps a s = acquire_from-Keeps a s s.pool.available refl

destroy_at-Keeps :
    (a i : ℕ) (s : System) (l : Lease)
    → get_elem? s.leases i ≡ some l
    → Keeps a s (destroy_at i (some l) s)
unfolding destroy_lease
destroy_at-Keeps a i s l e =
    let (c, same) = release_held-count a l.has_pool l.db s.pool in
    record { total = omega (arith, sum-set (held a) s.leases i l no_lease e); same_all = same }

move_new_from-Keeps :
    (a i : ℕ) (s : System) (l : Lease)
    → get_elem? s.leases i ≡ some l
    → Keeps a s (move_new_from i (some l) s)
unfolding move_construct
move_new_from-Keeps a i s l e = record {
  total = omega (arith, sum-set (held a) s.leases i l no_lease e);
  same_all = refl;
}

assign-Keeps :
    (a i j : ℕ) (s : System) (this other : Lease)
    → (i == j) ≡ false
    → get_elem? s.leases i ≡ some this
    → get_elem? s.leases j ≡ some other
    → Keeps a s (assign i j (some this) (some other) s)
unfolding move_assign
assign-Keeps a i j s this other ne ei ej =
    let (c, same) = release_held-count a this.has_pool this.db s.pool in
    record {
      total = omega (
        arith,
        sum-set (held a) s.leases i this other ei,
        sum-set (held a) (set s.leases i other) j other no_lease
            (get_elem?-set_ne i j s.leases other ne ∙ ej),
      );
      same_all = same;
    }

step-Keeps : (a : ℕ) (s : System) (act : Action) → Keeps a s (step s act)
unfolding step
step-Keeps a s acquires = acquire-Keeps a s
step-Keeps a s (destroys i) = elim (Option-cases (get_elem? s.leases i)) [
  | inl e ↦ rw e (Keeps-refl a s)
  | inr (l, e) ↦ subst (λ o. Keeps a s (destroy_at i o s)) (sym e) (destroy_at-Keeps a i s l e)
]
step-Keeps a s (moves_new i) = elim (Option-cases (get_elem? s.leases i)) [
  | inl e ↦ rw e (Keeps-refl a s)
  | inr (l, e) ↦
      subst (λ o. Keeps a s (move_new_from i o s)) (sym e) (move_new_from-Keeps a i s l e)
]
step-Keeps a s (moves_into i j) = elim (Bool-cases (i == j)) [
  | inl same ↦ rw same (Keeps-refl a s)
  | inr ne ↦ rw ne (elim (Option-cases (get_elem? s.leases i)) [
    | inl e ↦
        subst (λ o. Keeps a s (assign i j o (get_elem? s.leases j) s)) (sym e) (Keeps-refl a s)
    | inr (this, ei) ↦ elim (Option-cases (get_elem? s.leases j)) [
      | inl e ↦ subst₂ (λ o o'. Keeps a s (assign i j o o' s)) (sym ei) (sym e) (Keeps-refl a s)
      | inr (other, ej) ↦
          subst₂ (λ o o'. Keeps a s (assign i j o o' s)) (sym ei) (sym ej)
            (assign-Keeps a i j s this other ne ei ej)
    ]
  ])
]

-- Whatever leases are taken, moved, assigned and ended, every handle is in the pool or in a lease, as
-- often as `init` made it: none is lost, made up or given back twice.
pub run-IsConserved : (s : System) (acts : List Action) → IsConserved s → IsConserved (run s acts)
unfolding run
run-IsConserved s [] c = c
run-IsConserved s (act ∷ acts) c =
    run-IsConserved (step s act) acts
      λ a. let k = step-Keeps a s act in k.total ∙ c a ∙ ap (count a) (sym k.same_all)

run-same_all : (s : System) (acts : List Action) → (run s acts).pool.all ≡ s.pool.all
unfolding run
run-same_all s [] = refl
run-same_all s (act ∷ acts) = run-same_all (step s act) acts ∙ (step-Keeps 0 s act).same_all

-- If no handle was made twice, then after any sequence of actions on the leases none is in the pool
-- and in a lease, or in two leases.
pub run_exclusive :
    (s : System) (acts : List Action)
    → IsConserved s
    → ((a : ℕ) → count a s.pool.all ≤ 1)
    → (a : ℕ) → count a (run s acts).pool.available + held_all a (run s acts).leases ≤ 1
run_exclusive s acts c d a =
    rw (run-IsConserved s acts c a, ap (count a) (run-same_all s acts)) (d a)
