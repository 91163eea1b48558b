-- ===== src/TimerHeap/History.antt =====
-- The timers over a history of calls, against the abstract view: one deadline for each descriptor.
use mathlib.Core.Path.{fun_ext}
use mini_server.Prelude.{
  ℕ, ◌≡◌, refl, sym, ap, ◌∙◌, Bool, true, false, Option, none, some, List, [], ◌∷◌, if◌then◌else◌,
  leb, ◌==◌,
}
use mini_server.TimerHeap.{
  Entry, TimerHeap, find, next_version, add_or_update, remove, pop_expired, empty,
}
use mini_server.TimerHeap.Latest.{find-erase, find-put}
use mini_server.TimerHeap.Expiry.{contains, is_due, Distinct, pop_expired-IsExpiry}
use mini_server.TimerHeap.Tracking.{IsTracking, add_or_update-IsTracking, remove-IsTracking}

pub data Call : Type 0 where
  adds : ℕ → ℕ → Call
  removes : ℕ → Call
  pops : ℕ → Call

abbrev pub step : TimerHeap → Call → TimerHeap
step t (adds fd expires_at) = add_or_update fd expires_at t
step t (removes fd) = remove fd t
step t (pops now) = (pop_expired now t).timers

unfoldable pub run : TimerHeap → List Call → TimerHeap
run t [] = t
run t (c ∷ cs) = run (step t c) cs

-- The abstract timers: the deadline of each descriptor that has one.
abbrev Deadlines : Type 0
Deadlines = ℕ → Option ℕ

abbrev deadline_of : Option Entry → Option ℕ
deadline_of none = none
deadline_of (some e) = some e.expires_at

abbrev pub deadlines : TimerHeap → Deadlines
deadlines t fd = deadline_of (find fd t.latest)

abbrev pub has_passed : ℕ → Option ℕ → Bool
has_passed now none = false
has_passed now (some d) = leb d now

abbrev spec_step : Deadlines → Call → Deadlines
spec_step d (adds k expires_at) fd = if k == fd then some expires_at else d fd
spec_step d (removes k) fd = if k == fd then none else d fd
spec_step d (pops now) fd = if has_passed now (d fd) then none else d fd

abbrev pub spec_run : Deadlines → List Call → Deadlines
spec_run d [] = d
spec_run d (c ∷ cs) = spec_run (spec_step d c) cs

abbrev pub IsSound : TimerHeap → Type 0
IsSound t = IsTracking t.heap t.latest

step-IsSound : (t : TimerHeap) (c : Call) → IsSound t → IsSound (step t c)
step-IsSound t (adds fd expires_at) k = add_or_update-IsTracking fd expires_at t k
step-IsSound t (removes fd) k = remove-IsTracking fd t k
step-IsSound t (pops now) k = (pop_expired-IsExpiry now t k).tracking

has_passed-deadline_of :
    (now : ℕ) (o : Option Entry) → has_passed now (deadline_of o) ≡ is_due now o
has_passed-deadline_of now none = refl
has_passed-deadline_of now (some e) = refl

deadline_of-if :
    (b : Bool) (x y : Option Entry)
    → deadline_of (if b then x else y) ≡ (if b then deadline_of x else deadline_of y)
deadline_of-if true x y = refl
deadline_of-if false x y = refl

step-refines :
    (t : TimerHeap) (c : Call)
    → IsSound t
    → (fd : ℕ) → deadlines (step t c) fd ≡ spec_step (deadlines t) c fd
unfolding add_or_update remove
step-refines t (adds k expires_at) s fd =
    let new : Entry = record {
      expires_at = expires_at;
      version = next_version (find k t.latest);
    } in
    ap deadline_of (find-put k fd new t.latest)
    ∙ deadline_of-if (k == fd) (some new) (find fd t.latest)
step-refines t (removes k) s fd =
    ap deadline_of (find-erase k fd t.latest) ∙ deadline_of-if (k == fd) none (find fd t.latest)
step-refines t (pops now) s fd =
    let old = find fd t.latest in
    ap deadline_of ((pop_expired-IsExpiry now t s).kept fd)
    ∙ deadline_of-if (is_due now old) none old
    ∙ ap (λ b. if b then none else deadline_of old) (sym (has_passed-deadline_of now old))

-- After any history of calls the timers hold the deadlines of the abstract ones.
pub run-refines :
    (t : TimerHeap) (cs : List Call) → IsSound t → deadlines (run t cs) ≡ spec_run (deadlines t) cs
unfolding run
run-refines t [] s = refl
run-refines t (c ∷ cs) s =
    run-refines (step t c) cs (step-IsSound t c s)
    ∙ ap (λ d. spec_run d cs) (fun_ext (step-refines t c s))

pub run-IsSound : (t : TimerHeap) (cs : List Call) → IsSound t → IsSound (run t cs)
unfolding run
run-IsSound t [] s = s
run-IsSound t (c ∷ cs) s = run-IsSound (step t c) cs (step-IsSound t c s)

pub empty-IsSound : IsSound empty
unfolding find
empty-IsSound = record { ordered = tt; tracked = λ fd e h. cc }

-- A sweep after any history returns exactly the descriptors whose abstract deadline has passed, each
-- once.
pub pop_expired-run :
    (cs : List Call) (now : ℕ)
    → let p = pop_expired now (run empty cs) in
      ((fd : ℕ) → contains fd p.expired ≡ has_passed now (spec_run (λ k. none) cs fd))
      × Distinct p.expired
unfolding find
pop_expired-run cs now =
    let x = pop_expired-IsExpiry now (run empty cs) (run-IsSound empty cs empty-IsSound) in
    (
      λ fd.
          x.returned fd
          ∙ sym (has_passed-deadline_of now (find fd (run empty cs).latest))
          ∙ ap (λ (d : Deadlines). has_passed now (d fd)) (run-refines empty cs empty-IsSound),
      x.distinct,
    )
