-- ===== src/DatabasePool/Slots.antt =====
-- The lease objects of the program, numbered, over the one pool: every way in which a lease can come,
-- go and move.
use mini_server.Prelude.{ℕ, Option, none, some, List, [], ◌∷◌, get_elem?, if◌then◌else◌, set, ◌==◌}
use mini_server.DatabasePool.{
  DatabasePool, Lease, no_lease, acquire, destroy_lease, move_construct, move_assign,
}

pub record System : Type 0 where
  pub pool : DatabasePool
  pub leases : List Lease

-- What the program does with leases. `moves_into i j` is `lease_i = std::move(lease_j)`.
pub data Action : Type 0 where
  acquires : Action
  destroys : ℕ → Action
  moves_new : ℕ → Action
  moves_into : ℕ → ℕ → Action

abbrev pub with_lease : Option (DatabasePool × Lease) → System → System
with_lease none s = s
with_lease (some (p, l)) s = record { pool = p; leases = l ∷ s.leases }

-- A destroyed object stays in its place as an empty lease.
abbrev pub destroy_at : ℕ → Option Lease → System → System
destroy_at i none s = s
destroy_at i (some l) s = record { pool = destroy_lease l s.pool; leases = set s.leases i no_lease }

abbrev pub move_new_from : ℕ → Option Lease → System → System
move_new_from i none s = s
move_new_from i (some l) s =
    let (fresh, left) = move_construct l in record s { leases = fresh ∷ set s.leases i left }

abbrev pub assign : ℕ → ℕ → Option Lease → Option Lease → System → System
assign i j (some this) (some other) s =
    let (p, this', other') = move_assign this other s.pool in
    record { pool = p; leases = set (set s.leases i this') j other' }
assign i j _ _ s = s

-- `this != &other`
unfoldable pub step : System → Action → System
step s acquires = with_lease (acquire s.pool) s
step s (destroys i) = destroy_at i (get_elem? s.leases i) s
step s (moves_new i) = move_new_from i (get_elem? s.leases i) s
step s (moves_into i j) =
    if i == j then s else assign i j (get_elem? s.leases i) (get_elem? s.leases j) s

unfoldable pub run : System → List Action → System
run s [] = s
run s (a ∷ rest) = run (step s a) rest
