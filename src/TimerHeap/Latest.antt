-- ===== src/TimerHeap/Latest.antt =====
-- The map from descriptors to their latest entry.
use mini_server.Prelude.{ℕ, ◌≡◌, none, some, List, [], ◌∷◌, arith, if◌then◌else◌, ◌==◌}
use mini_server.TimerHeap.{Entry, find, erase, put}

pub find-erase :
    (k fd : ℕ) (m : List (ℕ × Entry)) → find fd (erase k m) ≡ (if k == fd then none else find fd m)
unfolding find erase
find-erase k fd [] = ground arith
find-erase k fd ((j, e) ∷ m) = ground (arith, find-erase k fd m)

pub find-put :
    (k fd : ℕ) (e : Entry) (m : List (ℕ × Entry))
    → find fd (put k e m) ≡ (if k == fd then some e else find fd m)
unfolding find put
find-put k fd e m = ground (arith, find-erase k fd m)
