-- ===== src/TimerHeap.antt =====
-- timer_heap.h and timer_heap.cpp: expiry times of connections, with lazy deletion.
-- `std::priority_queue` with `Later` is the list of its nodes, earliest first; among nodes that expire
-- together the newest comes first (the library leaves that order open, and no theorem turns on it).
-- The unordered map `latest_` is an association list, time points are numbers.
pub mod Latest
pub mod Tracking
pub mod Expiry
pub mod History
mod Tests
use mini_server.Prelude.{
  ℕ, ◌+◌, ◌%◌, ◌^◌, Bool, false, ◌&&◌, Option, none, some, List, [], ◌∷◌, if◌then◌else◌, leb,
  length, ◌==◌,
}

pub record Node : Type 0 where
  pub expires_at : ℕ
  pub fd : ℕ
  pub version : ℕ

pub record Entry : Type 0 where
  pub expires_at : ℕ
  pub version : ℕ

pub record TimerHeap : Type 0 where
  pub heap : List Node
  pub latest : List (ℕ × Entry)

abbrev version_mod : ℕ
version_mod = 2 ^ 64

-- latest_.find(fd)
unfoldable pub find : ℕ → List (ℕ × Entry) → Option Entry
find fd [] = none
find fd ((k, e) ∷ m) = if k == fd then some e else find fd m

-- latest_.erase(fd)
unfoldable pub erase : ℕ → List (ℕ × Entry) → List (ℕ × Entry)
erase fd [] = []
erase fd ((k, e) ∷ m) = if k == fd then erase fd m else (k, e) ∷ erase fd m

-- latest_[fd] = e
unfoldable pub put : ℕ → Entry → List (ℕ × Entry) → List (ℕ × Entry)
put fd e m = (fd, e) ∷ erase fd m

-- heap_.push(n)
unfoldable pub push : Node → List Node → List Node
push n [] = n ∷ []
push n (m ∷ ns) = if leb n.expires_at m.expires_at then n ∷ m ∷ ns else m ∷ push n ns

-- The version that an entry takes: one more than the last, as a `std::size_t`.
unfoldable pub next_version : Option Entry → ℕ
next_version none = 1
next_version (some e) = (e.version + 1) % version_mod

unfoldable pub add_or_update : ℕ → ℕ → TimerHeap → TimerHeap
add_or_update fd expires_at t =
    let version = next_version (find fd t.latest) in
    record {
      heap = push (record { expires_at = expires_at; fd = fd; version = version }) t.heap;
      latest = put fd (record { expires_at = expires_at; version = version }) t.latest;
    }

unfoldable pub remove : ℕ → TimerHeap → TimerHeap
remove fd t = record t { latest = erase fd t.latest }

-- The node is the one that its descriptor's entry was made with.
unfoldable pub is_current : Node → Option Entry → Bool
is_current n none = false
is_current n (some e) = e.version == n.version && e.expires_at == n.expires_at

pub record Popped : Type 0 where
  pub expired : List ℕ
  pub timers : TimerHeap

abbrev pub also_expired : ℕ → Popped → Popped
also_expired fd p = record p { expired = fd ∷ p.expired }

-- The loop of `popExpired` over the nodes in order; a stale node is dropped.
unfoldable pub pop_loop : ℕ → List Node → List (ℕ × Entry) → Popped
pop_loop now [] latest = record { expired = []; timers = record { heap = []; latest = latest } }
pop_loop now (n ∷ ns) latest =
    let stale = pop_loop now ns latest in
    let current = also_expired n.fd (pop_loop now ns (erase n.fd latest)) in
    if leb n.expires_at now
    then (if is_current n (find n.fd latest) then current else stale)
    else record { expired = []; timers = record { heap = n ∷ ns; latest = latest } }

unfoldable pub pop_expired : ℕ → TimerHeap → Popped
unfolding pop_loop
pop_expired now t = pop_loop now t.heap t.latest

abbrev pub empty : TimerHeap
empty = record { heap = []; latest = [] }

-- TimerHeap::empty and TimerHeap::size
unfoldable pub is_empty : TimerHeap → Bool
is_empty t = length t.latest == 0

abbrev pub size : TimerHeap → ℕ
size t = length t.latest
