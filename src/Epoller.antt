-- ===== src/Epoller.antt =====
-- epoller.h and epoller.cpp: an epoll instance, what is registered with it, and the non-blocking flag.
-- The registrations are a function of the descriptor; what `epoll_create1` and `fcntl` answer are
-- arguments. `none` is the descriptor -1.
use mini_server.Prelude.{
  ℕ, ◌+◌, ◌/◌, ◌%◌, ◌^◌, Bool, true, false, Option, none, some, List, [], ◌∷◌, if◌then◌else◌, ◌==◌,
}

-- What a descriptor is registered for. With EPOLLONESHOT an event that is delivered disarms it.
pub data Interest : Type 0 where
  absent : Interest
  disarmed : Interest
  readable_once : Interest
  writable_once : Interest

pub record Epoller : Type 0 where
  pub epfd : Option ℕ

-- Epoller(), for the answer of `epoll_create1`.
abbrev pub epoller : Option ℕ → Epoller
epoller answer = record { epfd = answer }

unfoldable pub valid : Epoller → Bool
valid e = elim e.epfd [ none ↦ false | some _ ↦ true ]

-- ~Epoller(): the descriptors that it closes.
unfoldable pub destroy_epoller : Epoller → List ℕ
destroy_epoller e = elim e.epfd [ none ↦ [] | some fd ↦ fd ∷ [] ]

abbrev pub set_at {ℓ} : {A : Type ℓ} → ℕ → A → (ℕ → A) → ℕ → A
set_at k v m j = if k == j then v else m j

-- epoll_ctl: EPOLL_CTL_ADD of a new descriptor, EPOLL_CTL_MOD of a registered one; else an error, which
-- the callers ignore.
abbrev pub added : Interest → Interest → Interest
added wanted absent = wanted
added wanted old = old

abbrev pub modified : Interest → Interest → Interest
modified wanted absent = absent
modified wanted _ = wanted

unfoldable pub epoll_add : ℕ → Interest → (ℕ → Interest) → ℕ → Interest
epoll_add fd wanted m = set_at fd (added wanted (m fd)) m

unfoldable pub epoll_mod : ℕ → Interest → (ℕ → Interest) → ℕ → Interest
epoll_mod fd wanted m = set_at fd (modified wanted (m fd)) m

-- EPOLL_CTL_DEL, of a descriptor that may not be registered.
abbrev pub epoll_del : ℕ → (ℕ → Interest) → ℕ → Interest
epoll_del fd m = set_at fd absent m

-- `O_NONBLOCK` is one bit of the flags of a file.
abbrev pub nonblock_bit : ℕ
nonblock_bit = 2 ^ 11

abbrev pub is_nonblocking : ℕ → Bool
is_nonblocking flags = (flags / nonblock_bit) % 2 == 1

-- flags | O_NONBLOCK
unfoldable pub or_nonblock : ℕ → ℕ
or_nonblock flags = if is_nonblocking flags then flags else flags + nonblock_bit

-- `set_nonblocking`: its result, and the flags that it asks for. `F_GETFL` gives the flags or fails,
-- `F_SETFL` succeeds or not.
unfoldable pub set_nonblocking : Option ℕ → Bool → Bool × Option ℕ
set_nonblocking none accepted = (false, none)
set_nonblocking (some flags) accepted = (accepted, some (or_nonblock flags))
