-- ===== src/TimerHeap/Tracking.antt =====
-- The heap beside the table of entries.
use mini_server.Prelude.{
  ℕ, ◌≤◌, ◌≡◌, ap, ◌⊎◌, inl, inr, false, some, List, [], ◌∷◌, arith, ==→eq, Bool-cases, some_eq,
  ◌==◌,
}
use mini_server.TimerHeap.{
  Node, Entry, TimerHeap, find, erase, put, push, next_version, add_or_update, remove,
}
use mini_server.TimerHeap.Latest.{find-erase, find-put}

-- A node for `fd` made with the entry `e` stands in the heap.
abbrev pub HasNode : ℕ → Entry → List Node → Type 0
HasNode fd e [] = ⊥
HasNode fd e (n ∷ ns) =
    ((n.fd ≡ fd) × (n.expires_at ≡ e.expires_at) × (n.version ≡ e.version)) ⊎ HasNode fd e ns

-- Every node expires no earlier than `t`, and the list is in order.
abbrev pub IsOrdered : ℕ → List Node → Type 0
IsOrdered t [] = Unit {0}
IsOrdered t (n ∷ ns) = (t ≤ n.expires_at) × IsOrdered n.expires_at ns

-- The heap is in order, and holds the node of every latest entry.
pub record IsTracking (heap : List Node) (latest : List (ℕ × Entry)) : Type 0 where
  pub ordered : IsOrdered 0 heap
  pub tracked : (fd : ℕ) (e : Entry) → find fd latest ≡ some e → HasNode fd e heap

pub IsOrdered-mono : (s t : ℕ) (ns : List Node) → s ≤ t → IsOrdered t ns → IsOrdered s ns
IsOrdered-mono s t [] h o = tt
IsOrdered-mono s t (n ∷ ns) h o = (omega arith, o.1)

push-IsOrdered :
    (t : ℕ) (n : Node) (ns : List Node)
    → t ≤ n.expires_at
    → IsOrdered t ns
    → IsOrdered t (push n ns)
unfolding push
push-IsOrdered t n [] h o = (h, tt)
push-IsOrdered t n (m ∷ ns) h o = ground (arith, push-IsOrdered m.expires_at n ns)

push-HasNode :
    (fd : ℕ) (e : Entry) (n : Node) (ns : List Node) → HasNode fd e ns → HasNode fd e (push n ns)
unfolding push
push-HasNode fd e n [] h = absurd h
push-HasNode fd e n (m ∷ ns) h = ground (arith, push-HasNode fd e n ns)

push-HasNode_self :
    (fd : ℕ) (e : Entry) (n : Node) (ns : List Node)
    → n.fd ≡ fd
    → n.expires_at ≡ e.expires_at
    → n.version ≡ e.version
    → HasNode fd e (push n ns)
unfolding push
push-HasNode_self fd e n [] p q r = inl (p, q, r)
push-HasNode_self fd e n (m ∷ ns) p q r = ground (arith, push-HasNode_self fd e n ns p q r)

abbrev pub node : ℕ → Entry → Node
node fd e = record { expires_at = e.expires_at; fd = fd; version = e.version }

put-HasNode :
    (fd j : ℕ) (new e : Entry) (heap : List Node) (latest : List (ℕ × Entry))
    → ((k : ℕ) (d : Entry) → find k latest ≡ some d → HasNode k d heap)
    → find j (put fd new latest) ≡ some e
    → HasNode j e (push (node fd new) heap)
put-HasNode fd j new e heap latest tracked h = elim (Bool-cases (fd == j)) [
  | inl same ↦
      let e_is : new ≡ e = some_eq (rw (find-put fd j new latest, same) at h) in
      push-HasNode_self j e (node fd new) heap (==→eq fd j same) (ap (λ d. d.expires_at) e_is)
        (ap (λ d. d.version) e_is)
  | inr other ↦
      push-HasNode j e (node fd new) heap (tracked j e (rw (find-put fd j new latest, other) at h))
]

pub find-erase-some :
    (k fd : ℕ) (e : Entry) (m : List (ℕ × Entry))
    → find fd (erase k m) ≡ some e
    → ((k == fd) ≡ false) × (find fd m ≡ some e)
find-erase-some k fd e m h = ground (arith, find-erase k fd m)

pub add_or_update-IsTracking :
    (fd expires_at : ℕ) (t : TimerHeap)
    → IsTracking t.heap t.latest
    → IsTracking (add_or_update fd expires_at t).heap (add_or_update fd expires_at t).latest
unfolding add_or_update
add_or_update-IsTracking fd expires_at t k = record {
  ordered = push-IsOrdered 0 _ t.heap (omega arith) k.ordered;
  tracked = λ j e h.
      put-HasNode fd j
        (record { expires_at = expires_at; version = next_version (find fd t.latest) }) e t.heap
        t.latest k.tracked h;
}

pub remove-IsTracking :
    (fd : ℕ) (t : TimerHeap)
    → IsTracking t.heap t.latest
    → IsTracking (remove fd t).heap (remove fd t).latest
unfolding remove
remove-IsTracking fd t k = record {
  ordered = k.ordered;
  tracked = λ j e h. k.tracked j e (find-erase-some fd j e t.latest h).1;
}
