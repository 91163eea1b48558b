-- ===== src/Logger/Order.antt =====
-- The lines of the logger, from the call to the output.
use mathlib.Core.List.{append-nil, append_assoc}
use mathlib.Core.Path.{ap₂}
use mini_server.Prelude.{
  ℕ, All, length, ◌≡◌, refl, sym, ap, ◌∙◌, subst, ◌⊎◌, inl, inr, Bool, true, false, ◌||◌, List, [],
  ◌∷◌, ◌++◌, if_either, if◌then◌else◌,
}
use mini_server.Bytes.{Bytes}
use mini_server.Logger.{
  finished, written, Logger, Writer, not_started, idle, writing, returned, logger, init,
  request_shutdown, enqueue, take_batch, work_as, join_writer, Event, inits, logs, shuts_down,
  works, step,
}

-- The batch of the thread.
abbrev pub in_hand : Writer → List Bytes
in_hand (writing batch) = batch
in_hand _ = []

abbrev pub logged : Event → List Bytes
logged (logs line) = line ∷ []
logged _ = []

unfoldable pub run : Logger → List Event → Logger
run l [] = l
run l (e ∷ es) = run (step l e) es

unfoldable pub all_logged : List Event → List Bytes
all_logged [] = []
all_logged (e ∷ es) = logged e ++ all_logged es

-- The lines that the logger has been given, where they are now.
abbrev pub kept : Logger → List Bytes
kept l = finished l.batches ++ (in_hand l.writer ++ l.queue)

pub finished-append :
    (bs : List (Bool × List Bytes)) (opened : Bool) (batch : List Bytes)
    → finished (bs ++ (opened, batch) ∷ []) ≡ finished bs ++ batch
unfolding finished
finished-append [] opened batch = append-nil batch
finished-append ((o, b) ∷ bs) opened batch =
    ap (◌++◌ b) (finished-append bs opened batch) ∙ sym (append_assoc b (finished bs) batch)

-- The files of all batches were open.
abbrev pub AllOpen : List (Bool × List Bytes) → Type 0
AllOpen bs = All (λ b. b.0 ≡ true) bs

pub AllOpen-written : (bs : List (Bool × List Bytes)) → AllOpen bs → written bs ≡ finished bs
unfolding written finished
AllOpen-written [] h = refl
AllOpen-written ((o, b) ∷ bs) h = rw (h.0, AllOpen-written bs h.1) refl

joined-in_hand : (w : Writer) → join_writer w ≡ true → in_hand w ≡ []
joined-in_hand not_started h = refl
joined-in_hand idle h = cc
joined-in_hand (writing batch) h = cc
joined-in_hand returned h = refl

if_true : (b : Bool) (x y : Logger) → b ≡ true → (if b then x else y) ≡ x
if_true true x y h = refl
if_true false x y h = cc

init-kept :
    (path : Bytes) (l : Logger)
    → (l.running ≡ true) ⊎ (in_hand l.writer ≡ [])
    → kept (init path l) ≡ kept l
unfolding init
init-kept path l (inl on) = ap kept (
    if_true l.running (record l { filepath = path })
      (record l { filepath = path; running = true; writer = idle }) on)
init-kept path l (inr none_left) =
    if_either (λ t. kept t ≡ kept l) l.running (record l { filepath = path })
      (record l { filepath = path; running = true; writer = idle }) refl
      (ap (λ held. finished l.batches ++ (held ++ l.queue)) (sym none_left))

take_batch-kept :
    (b : Bool) (q : List Bytes) (l : Logger)
    → l.writer ≡ idle
    → l.queue ≡ q
    → kept (take_batch b q l) ≡ finished l.batches ++ q
unfolding take_batch
take_batch-kept true [] l w e = rw (w, e) refl
take_batch-kept false [] l w e = rw e refl
take_batch-kept true (x ∷ q) l w e = ap (◌++◌ (finished l.batches)) (append-nil (x ∷ q))
take_batch-kept false (x ∷ q) l w e = ap (◌++◌ (finished l.batches)) (append-nil (x ∷ q))

pub work-kept : (w : Writer) (l : Logger) → l.writer ≡ w → kept (work_as w l) ≡ kept l
work-kept not_started l e = refl
work-kept returned l e = refl
work-kept idle l e = take_batch-kept l.running l.queue l e refl ∙ rw e refl
work-kept (writing batch) l e =
    ap (λ f. f ++ l.queue) (finished-append l.batches (l.opens (length l.batches)) batch)
    ∙ append_assoc (finished l.batches) batch l.queue
    ∙ rw e refl

guarded_init-kept :
    (b : Bool) (path : Bytes) (l : Logger)
    → (b ≡ true → (l.running ≡ true) ⊎ (in_hand l.writer ≡ []))
    → kept (if b then init path l else l) ≡ kept l
guarded_init-kept true path l h = init-kept path l (h refl)
guarded_init-kept false path l h = refl

may_init :
    (j r : Bool) (w : Writer)
    → (j ≡ true → in_hand w ≡ [])
    → (j || r) ≡ true
    → (r ≡ true) ⊎ (in_hand w ≡ [])
may_init true r w h k = inr (h refl)
may_init false r w h k = inl k

step-kept : (l : Logger) (e : Event) → kept (step l e) ≡ kept l ++ logged e
unfolding step enqueue request_shutdown
step-kept l (inits path) =
    guarded_init-kept (join_writer l.writer || l.running) path l
      (may_init (join_writer l.writer) l.running l.writer (joined-in_hand l.writer))
    ∙ sym (append-nil (kept l))
step-kept l (logs line) =
    ap (◌++◌ (finished l.batches)) (sym (append_assoc (in_hand l.writer) l.queue (line ∷ [])))
    ∙ sym (append_assoc (finished l.batches) (in_hand l.writer ++ l.queue) (line ∷ []))
step-kept l shuts_down = sym (append-nil (kept l))
step-kept l works = work-kept l.writer l refl ∙ sym (append-nil (kept l))

pub run-kept : (l : Logger) (es : List Event) → kept (run l es) ≡ kept l ++ all_logged es
unfolding run all_logged
run-kept l [] = sym (append-nil (kept l))
run-kept l (e ∷ es) =
    run-kept (step l e) es
    ∙ ap (λ k. k ++ all_logged es) (step-kept l e)
    ∙ append_assoc (kept l) (logged e) (all_logged es)

returns_empty :
    (b : Bool) (q : List Bytes) (l : Logger)
    → l.writer ≡ idle
    → (take_batch b q l).writer ≡ returned
    → q ≡ []
unfolding take_batch
returns_empty b [] l w h = refl
returns_empty true (x ∷ q) l w h = cc
returns_empty false (x ∷ q) l w h = cc

-- After any calls and steps of the thread, whatever files open: the lines that were given to a file, those
-- of the batch in hand and those in the queue are together every line that was logged, once and in that
-- order; those in the files are the lines of the batches whose file was open, which are all of them if
-- every file was; and when the thread returns from its wait, every line logged so far has been given to
-- a file.
pub logger-keeps_lines :
    (opens : ℕ → Bool) (es : List Event)
    → let l = run (logger opens) es in
      (finished l.batches ++ (in_hand l.writer ++ l.queue) ≡ all_logged es)
      × (AllOpen l.batches → written l.batches ++ (in_hand l.writer ++ l.queue) ≡ all_logged es)
      × (l.writer ≡ idle → (step l works).writer ≡ returned → finished l.batches ≡ all_logged es)
unfolding step all_logged finished
logger-keeps_lines opens es =
    let l = run (logger opens) es in
    let all = run-kept (logger opens) es in
    (
      all,
      λ h. ap (λ w. w ++ (in_hand l.writer ++ l.queue)) (AllOpen-written l.batches h) ∙ all,
      λ w r.
          let gone =
            returns_empty l.running l.queue l w
              (subst (λ x. (work_as x l).writer ≡ returned) w r) in
          sym (append-nil (finished l.batches))
          ∙ ap₂ (λ x y. finished l.batches ++ (in_hand x ++ y)) (sym w) (sym gone)
          ∙ all,
    )
