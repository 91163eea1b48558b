-- ===== src/HttpServer/Listening/Opened.antt =====
-- What `initListenSocket` leaves open, and how a socket that listens was set up.
use mini_server.Prelude.{
  ℕ, ◌+◌, ◌≡◌, refl, inl, inr, true, false, Option, none, some, List, [], ◌∷◌, arith, Bool-cases,
  Option-cases, count,
}
use mini_server.Epoller.{set_nonblocking, is_nonblocking, or_nonblock}
use mini_server.HttpServer.Listening.{
  Call, creates, reuses_address, binds, listens, sets_flags, closes, Network, Listening,
  port_number, after_socket, init_listen_socket, held,
}

-- The descriptors that the calls make and those that they close.
abbrev pub created : List Call → List ℕ
created [] = []
created (creates fd ∷ calls) = fd ∷ created calls
created (_ ∷ calls) = created calls

abbrev pub closed_by : List Call → List ℕ
closed_by [] = []
closed_by (closes fd ∷ calls) = fd ∷ closed_by calls
closed_by (_ ∷ calls) = closed_by calls

-- Every socket that was made is closed, once, or is held as the listening one.
abbrev pub NoneLeaks : List Call → Option ℕ → Type 0
NoneLeaks calls listen_fd =
    (a : ℕ) → count a (created calls) ≡ count a (closed_by calls) + count a (held listen_fd)

-- The calls of a socket that listens.
abbrev pub listening_calls : ℕ → ℕ → ℕ → List Call
listening_calls port fd flags =
    creates fd
    ∷ reuses_address fd
    ∷ binds fd (port_number port)
    ∷ listens fd 128
    ∷ sets_flags fd flags
    ∷ []

abbrev pub IsListening : ℕ → Network → Listening → Type 0
IsListening port net r =
    NoneLeaks r.calls r.listen_fd
    × (r.ok ≡ false → r.listen_fd ≡ none)
    × (r.ok ≡ true
        → (fd : ℕ) × (flags : ℕ) × (net.socket ≡ some fd)
          × (r.listen_fd ≡ some fd)
          × (is_nonblocking flags ≡ true)
          × (r.calls ≡ listening_calls port fd flags))

or_nonblock_lem : (flags : ℕ) → is_nonblocking (or_nonblock flags) ≡ true
unfolding or_nonblock
or_nonblock_lem flags = elim (Bool-cases (is_nonblocking flags)) [
  | inl already ↦ rw already already
  | inr unset ↦ rw unset (ground arith)
]

after_socket-IsListening :
    (port : ℕ) (net : Network) (fd : ℕ)
    → net.socket ≡ some fd
    → IsListening port net (after_socket port net fd)
unfolding after_socket set_nonblocking
after_socket-IsListening port net fd e = elim (Bool-cases net.bound) [
  | inr unbound ↦ rw unbound (λ a. omega arith, λ f. refl, λ t. cc)
  | inl bound ↦ elim (Bool-cases net.listening) [
    | inr deaf ↦ rw (bound, deaf) (λ a. omega arith, λ f. refl, λ t. cc)
    | inl listening ↦ elim (Option-cases net.flags) [
      | inl unknown ↦ rw (bound, listening, unknown) (λ a. omega arith, λ f. refl, λ t. cc)
      | inr (flags, known) ↦ elim (Bool-cases net.flags_set) [
        | inr refused ↦ rw (bound, listening, known, refused) (λ a. omega arith, λ f. refl, λ t. cc)
        | inl taken ↦
            rw (bound, listening, known, taken)
              (
                λ a. omega arith,
                λ f. cc,
                λ t. (fd, or_nonblock flags, e, refl, or_nonblock_lem flags, refl),
              )
      ]
    ]
  ]
]

-- Whatever the kernel answers, the socket that `initListenSocket` makes is closed again or is the
-- listening one; if it returns false there is no listening one; and if it returns true that one was made
-- reusable, bound to the port modulo 2^16, set to listen and made non-blocking, in this order.
pub init_listen_socket-IsListening :
    (port : ℕ) (net : Network) → IsListening port net (init_listen_socket port net)
unfolding init_listen_socket
init_listen_socket-IsListening port net = elim (Option-cases net.socket) [
  | inl none_made ↦ rw none_made (λ a. omega arith, λ f. refl, λ t. cc)
  | inr (fd, made) ↦ rw made (rw made at (after_socket-IsListening port net fd made))
]
