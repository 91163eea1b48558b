-- ===== src/HttpServer/Threads/Local.antt =====
-- A worker's step and the descriptors that it is not at.
use mini_server.Prelude.{ℕ, ◌≡◌, refl, ap, true, false, Option, none, some, if_either}
use mini_server.Bytes.{Bytes}
use mini_server.Connection.{Connection}
use mini_server.Epoller.{Interest, absent, set_at, epoll_mod}
use mini_server.HttpServer.{Outside, extract_open}
use mini_server.HttpServer.Handlers.{WriteAnswer, returned, would_block, write_failed}
use mini_server.HttpServer.Phases.{set_at_ne}
use mini_server.HttpServer.Threads.{
  Stage, getting_to_read, reading, renewing, getting_to_process, extracting, answering, answered,
  getting_to_write, testing, sending, consuming, blocked, clearing, settled, finishing, arming,
  closing, marking, deleting, shutting, Shared, Answer, ReadAnswer, chunk, no_more, ended, on_read,
  on_extracted, on_write, work_at, set_object, forget,
}
use mini_server.HttpServer.Threads.Ownership.{OnlyAt}

module _ (fd : ℕ) where
  pub OnlyAt-refl : (s : Shared) → OnlyAt fd s s
  OnlyAt-refl s = record {
    other_object = λ j n. refl;
    other_interest = λ j n. refl;
    same_tasks = refl;
  }

  pub object-OnlyAt : (c : Connection) (s : Shared) → OnlyAt fd s (set_object fd c s)
  object-OnlyAt c s = record {
    other_object = λ j n. set_at_ne fd c s.objects j n;
    other_interest = λ j n. refl;
    same_tasks = refl;
  }

  -- Any write to the registration of this descriptor.
  pub interest-OnlyAt :
      (i : Interest) (c : Connection) (s : Shared)
      → OnlyAt fd s
          (record s { objects = set_at fd c s.objects; interest = set_at fd i s.interest })
  interest-OnlyAt i c s = record {
    other_object = λ j n. set_at_ne fd c s.objects j n;
    other_interest = λ j n. set_at_ne fd i s.interest j n;
    same_tasks = refl;
  }

  pub only_interest-OnlyAt :
      (i : Interest) (s : Shared) → OnlyAt fd s (record s { interest = set_at fd i s.interest })
  only_interest-OnlyAt i s = record {
    other_object = λ j n. refl;
    other_interest = λ j n. set_at_ne fd i s.interest j n;
    same_tasks = refl;
  }

  -- Timers and the table are no part of it.
  pub aside-OnlyAt :
      (s t : Shared)
      → t.objects ≡ s.objects
      → t.interest ≡ s.interest
      → t.tasks ≡ s.tasks
      → OnlyAt fd s t
  aside-OnlyAt s t o i q = record {
    other_object = λ j n. ap (λ f. f j) o;
    other_interest = λ j n. ap (λ f. f j) i;
    same_tasks = q;
  }

  module _ (o : Outside) (a : Answer) (s : Shared) where
    on_read-OnlyAt : (r : ReadAnswer) → OnlyAt fd s (on_read r a.now fd s).1
    on_read-OnlyAt (chunk b) = object-OnlyAt _ s
    on_read-OnlyAt no_more = OnlyAt-refl s
    on_read-OnlyAt ended = OnlyAt-refl s

    on_extracted-OnlyAt : (p : Connection × Option Bytes) → OnlyAt fd s (on_extracted p fd s).1
    unfolding epoll_mod
    on_extracted-OnlyAt (c, none) = interest-OnlyAt _ _ s
    on_extracted-OnlyAt (c, some raw) = object-OnlyAt c s

    on_write-OnlyAt : (r : WriteAnswer) → OnlyAt fd s (on_write r fd s).1
    on_write-OnlyAt (returned n) = OnlyAt-refl s
    on_write-OnlyAt would_block = OnlyAt-refl s
    on_write-OnlyAt write_failed = OnlyAt-refl s

    pub work_at-OnlyAt : (stage : Stage) → OnlyAt fd s (work_at o a fd stage s).1
    unfolding work_at epoll_mod
    work_at-OnlyAt getting_to_read = OnlyAt-refl s
    work_at-OnlyAt reading = on_read-OnlyAt a.read
    work_at-OnlyAt renewing = aside-OnlyAt s _ refl refl refl
    work_at-OnlyAt getting_to_process = OnlyAt-refl s
    work_at-OnlyAt extracting = on_extracted-OnlyAt (extract_open (s.objects fd))
    work_at-OnlyAt (answering raw) = object-OnlyAt _ s
    work_at-OnlyAt answered = object-OnlyAt _ s
    work_at-OnlyAt getting_to_write = OnlyAt-refl s
    work_at-OnlyAt testing = OnlyAt-refl s
    work_at-OnlyAt sending = on_write-OnlyAt a.write
    work_at-OnlyAt (consuming n) = object-OnlyAt _ s
    work_at-OnlyAt blocked = object-OnlyAt _ s
    work_at-OnlyAt clearing = object-OnlyAt _ s
    work_at-OnlyAt (settled true pending) = OnlyAt-refl s
    work_at-OnlyAt (settled false pending) = aside-OnlyAt s _ refl refl refl
    work_at-OnlyAt finishing = object-OnlyAt _ s
    work_at-OnlyAt (arming wanted) = only_interest-OnlyAt _ s
    work_at-OnlyAt closing =
        if_either (OnlyAt fd s) (s.table fd) (forget fd s) s (aside-OnlyAt s _ refl refl refl)
          (OnlyAt-refl s)
    work_at-OnlyAt marking = object-OnlyAt _ s
    work_at-OnlyAt deleting = only_interest-OnlyAt absent s
    work_at-OnlyAt shutting = OnlyAt-refl s
