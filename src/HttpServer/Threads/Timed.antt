-- ===== src/HttpServer/Threads/Timed.antt =====
-- Every connection of the table has a timer, however the steps of the threads fall: the idle sweep misses
-- none.
pub mod Swept
use mini_server.Prelude.{
  ℕ, ◌≡◌, refl, sym, ◌∙◌, ◌≢◌, ◌⊎◌, inl, inr, Bool, true, false, Option, none, some, List, [], ◌∷◌,
  arith, ==-refl, Bool-cases, if_either, ne→==, ◌==◌,
}
use mini_server.Epoller.{set_at}
use mini_server.TimerHeap.{TimerHeap, find, add_or_update, remove, pop_expired, Entry}
use mini_server.TimerHeap.Latest.{find-erase, find-put}
use mini_server.TimerHeap.Expiry.{contains, is_due, pop_expired-IsExpiry}
use mini_server.TimerHeap.Tracking.{add_or_update-IsTracking, remove-IsTracking}
use mini_server.TimerHeap.History.{IsSound}
use mini_server.HttpServer.Handlers.{returned}
use mini_server.HttpServer.Phases.{set_at_self, set_at_ne}
use mini_server.HttpServer.Threads.{at}
use mini_server.HttpServer.Threads.Owned.{split_at}
use mini_server.HttpServer.Threads.System.{
  Loop, closing_each, marking_first, deleting_first, shutting_first,
}

abbrev pub has_timer : Option Entry → Bool
has_timer none = false
has_timer (some e) = true

-- The descriptors that the loop has still to close.
abbrev pub to_close : Loop → List ℕ
to_close (closing_each fds) = fds
to_close (marking_first fd fds) = fds
to_close (deleting_first fd fds) = fds
to_close (shutting_first fd fds) = fds
to_close _ = []

-- The connection at `fd`, if there is one, has a timer, or the loop is about to close it.
abbrev pub IsTimed : List ℕ → (ℕ → Bool) → TimerHeap → ℕ → Type 0
IsTimed fds table t fd =
    table fd ≡ true → (has_timer (find fd t.latest) ≡ true) ⊎ (contains fd fds ≡ true)

abbrev pub AreTimed : List ℕ → (ℕ → Bool) → TimerHeap → Type 0
AreTimed fds table t = IsSound t × ((fd : ℕ) → IsTimed fds table t fd)

contains_ne : (fds : List ℕ) (k j : ℕ) → k ≢ j → contains j (k ∷ fds) ≡ true → contains j fds ≡ true
contains_ne fds k j n h = rw (ne→== k j n) at h

module _ (fds : List ℕ) (table : ℕ → Bool) (t : TimerHeap) (k : ℕ) where
  find-add :
      (x j : ℕ)
      → has_timer (find j t.latest) ≡ true
      → has_timer (find j (add_or_update k x t).latest) ≡ true
  unfolding add_or_update
  find-add x j h =
      rw (find-put k j _ t.latest) (if_either (λ o. has_timer o ≡ true) (k == j) _ _ refl h)

  find-add_own : (x : ℕ) → has_timer (find k (add_or_update k x t).latest) ≡ true
  unfolding add_or_update
  find-add_own x = rw (find-put k k _ t.latest, ==-refl k) refl

  pub added-AreTimed : (x : ℕ) → AreTimed fds table t → AreTimed fds table (add_or_update k x t)
  added-AreTimed x (s, h) = (
    add_or_update-IsTracking k x t s,
    λ j e. elim (h j e) [ inl a ↦ inl (find-add x j a) | inr b ↦ inr b ],
  )

  pub stored-AreTimed :
      (x : ℕ) → AreTimed fds table t → AreTimed fds (set_at k true table) (add_or_update k x t)
  stored-AreTimed x (s, h) = (
    add_or_update-IsTracking k x t s,
    split_at k (IsTimed fds (set_at k true table) (add_or_update k x t)) (λ e. inl (find-add_own x))
        (λ j n e. (added-AreTimed x (s, h)).1 j (sym (set_at_ne k true table j n) ∙ e)),
  )

  pub removed-AreTimed :
      AreTimed (k ∷ fds) table t → AreTimed fds (set_at k false table) (remove k t)
  unfolding remove
  removed-AreTimed (s, h) = (
    remove-IsTracking k t s,
    split_at k (IsTimed fds (set_at k false table) (remove k t))
        (λ e. cc (e, set_at_self k false table))
        (λ j n e. elim (h j (sym (set_at_ne k false table j n) ∙ e)) [
          | inl a ↦ inl (rw (find-erase k j t.latest, ne→== k j n) a)
          | inr b ↦ inr (contains_ne fds k j n b)
        ]),
  )

  pub more-AreTimed : AreTimed fds table t → AreTimed (k ∷ fds) table t
  more-AreTimed (s, h) = (s, λ j e. elim (h j e) [ inl a ↦ inl a | inr b ↦ inr (ground arith) ])

  pub gone-AreTimed : table k ≡ false → AreTimed (k ∷ fds) table t → AreTimed fds table t
  gone-AreTimed out (s, h) = (
    s,
    split_at k (IsTimed fds table t) (λ e. cc (e, out))
        (λ j n e. elim (h j e) [ inl a ↦ inl a | inr b ↦ inr (contains_ne fds k j n b) ]),
  )

pub swept-AreTimed :
    (now : ℕ) (table : ℕ → Bool) (t : TimerHeap)
    → AreTimed [] table t
    → AreTimed (pop_expired now t).expired table (pop_expired now t).timers
swept-AreTimed now table t (s, h) =
    let x = pop_expired-IsExpiry now t s in
    (
      x.tracking,
      λ j e. elim (Bool-cases (is_due now (find j t.latest))) [
        | inl due ↦ inr (x.returned j ∙ due)
        | inr late ↦ elim (h j e) [ inl a ↦ inl (rw (x.kept j, late) a) | inr b ↦ cc b ]
      ],
    )
