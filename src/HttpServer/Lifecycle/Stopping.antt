-- ===== src/HttpServer/Lifecycle/Stopping.antt =====
-- The closings that `HttpServer::stop` makes.

use mini_server.Prelude.{
  ℕ, ◌+◌, ◌≡◌, refl, ap, Bool, true, false, Option, none, some, List, [], ◌∷◌, ◌++◌, arith, count,
  count-append, one_if,
}
use mini_server.HttpServer.{HttpServer}
use mini_server.HttpServer.Steps.{Work}
use mini_server.HttpServer.Listening.{Call, creates, closes, held}
use mini_server.HttpServer.Listening.Opened.{closed_by, created}
use mini_server.HttpServer.Lifecycle.{join_workers, closings, Lifecycle, stop_running, held}

closed_by-append : (xs ys : List Call) → closed_by (xs ++ ys) ≡ closed_by xs ++ closed_by ys
closed_by-append [] ys = refl
closed_by-append (creates fd ∷ xs) ys = closed_by-append xs ys
closed_by-append (closes fd ∷ xs) ys = ap (◌∷◌ fd) (closed_by-append xs ys)
closed_by-append (_ ∷ xs) ys = closed_by-append xs ys

closed_by-closings : (fds : List ℕ) → closed_by (closings fds) ≡ fds
closed_by-closings [] = refl
closed_by-closings (fd ∷ fds) = ap (◌∷◌ fd) (closed_by-closings fds)

abbrev pub is_some {ℓ} : {A : Type ℓ} → Option A → Bool
is_some none = false
is_some (some a) = true

-- The order meets each descriptor with a connection once, and no other.
abbrev pub Lists : List ℕ → HttpServer → Type 0
Lists order s = (a : ℕ) → count a order ≡ one_if (is_some (s.connections a))

module _ (work : ℕ → Work) (order : List ℕ) (l : Lifecycle) where
  abbrev pub joined : HttpServer
  joined = join_workers work l.threads l.server

  pub closings-once :
      (a : ℕ)
      → Lists order joined
      → count a (closed_by (stop_running work order l).calls)
        ≡ count a (closed_by l.calls)
          + (one_if (is_some (joined.connections a)) + count a (held l.listen_fd))
  closings-once a listed =
      let fds = order ++ held l.listen_fd in
      omega (
        arith,
        ap (count a) (closed_by-append l.calls (closings order ++ closings (held l.listen_fd))),
        count-append a (closed_by l.calls)
            (closed_by (closings order ++ closings (held l.listen_fd))),
        ap (count a) (closed_by-append (closings order) (closings (held l.listen_fd))),
        count-append a (closed_by (closings order)) (closed_by (closings (held l.listen_fd))),
        ap (count a) (closed_by-closings order),
        ap (count a) (closed_by-closings (held l.listen_fd)),
        listed a,
      )

pub created-append : (xs ys : List Call) → created (xs ++ ys) ≡ created xs ++ created ys
created-append [] ys = refl
created-append (creates fd ∷ xs) ys = ap (◌∷◌ fd) (created-append xs ys)
created-append (closes fd ∷ xs) ys = created-append xs ys
created-append (_ ∷ xs) ys = created-append xs ys

pub created-closings : (fds : List ℕ) → created (closings fds) ≡ []
created-closings [] = refl
created-closings (fd ∷ fds) = created-closings fds
