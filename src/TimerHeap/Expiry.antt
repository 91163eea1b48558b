-- ===== src/TimerHeap/Expiry.antt =====
-- `popExpired`: the descriptors that it returns.
use mini_server.TimerHeap.Tracking.{HasNode, IsOrdered, IsTracking, IsOrdered-mono, find-erase-some}
use mini_server.Prelude.{
  ℕ, ◌≤◌, ◌≡◌, refl, sym, ap, ◌∙◌, inl, inr, Bool, true, false, ◌||◌, Option, none, some, List, [],
  ◌∷◌, arith, ==-refl, ==→eq, Bool-cases, Option-cases, if◌then◌else◌, leb, ◌==◌,
}
use mini_server.TimerHeap.{
  Node, Entry, TimerHeap, Popped, find, erase, is_current, also_expired, pop_loop, pop_expired,
}
use mini_server.TimerHeap.Latest.{find-erase}

abbrev pub contains : ℕ → List ℕ → Bool
contains x [] = false
contains x (y ∷ ys) = y == x || contains x ys

abbrev pub Distinct : List ℕ → Type 0
Distinct [] = Unit {0}
Distinct (x ∷ xs) = (contains x xs ≡ false) × Distinct xs

-- The entry's time has come.
abbrev pub is_due : ℕ → Option Entry → Bool
is_due now none = false
is_due now (some e) = leb e.expires_at now

-- What `popExpired` owes at `now`, from the entries `latest`.
pub record IsExpiry (now : ℕ) (latest : List (ℕ × Entry)) (p : Popped) : Type 0 where
  pub returned : (fd : ℕ) → contains fd p.expired ≡ is_due now (find fd latest)
  pub distinct : Distinct p.expired
  pub kept :
      (fd : ℕ)
      → find fd p.timers.latest ≡ (if is_due now (find fd latest) then none else find fd latest)
  pub tracking : IsTracking p.timers.heap p.timers.latest

HasNode-le :
    (t fd : ℕ) (e : Entry) (ns : List Node) → IsOrdered t ns → HasNode fd e ns → t ≤ e.expires_at
HasNode-le t fd e [] o h = absurd h
HasNode-le t fd e (n ∷ ns) o (inl h) = omega arith
HasNode-le t fd e (n ∷ ns) o (inr h) = let b = HasNode-le n.expires_at fd e ns o.1 h in omega arith

-- No entry is due: nothing is popped.
none_due-IsExpiry :
    (now : ℕ) (heap : List Node) (latest : List (ℕ × Entry))
    → IsTracking heap latest
    → ((fd : ℕ) → is_due now (find fd latest) ≡ false)
    → IsExpiry now latest
        (record { expired = []; timers = record { heap = heap; latest = latest } })
none_due-IsExpiry now heap latest k d = record {
  returned = λ fd. sym (d fd);
  distinct = tt;
  kept = λ fd. rw (d fd);
  tracking = k;
}

-- The first node has not expired, so no entry is due.
not_due :
    (now : ℕ) (n : Node) (ns : List Node) (latest : List (ℕ × Entry))
    → IsTracking (n ∷ ns) latest
    → leb n.expires_at now ≡ false
    → (fd : ℕ) → is_due now (find fd latest) ≡ false
not_due now n ns latest k late fd = elim (Option-cases (find fd latest)) [
  | inl e ↦ rw e
  | inr (e, found) ↦
      let b =
        HasNode-le n.expires_at fd e (n ∷ ns) (omega arith, k.ordered.1) (k.tracked fd e found) in
      rw found (ground arith)
]

is_current-some :
    (n : Node) (o : Option Entry)
    → is_current n o ≡ true
    → (e : Entry) × (o ≡ some e) × (e.expires_at ≡ n.expires_at)
unfolding is_current
is_current-some n none h = cc
is_current-some n (some e) h = (e, refl, ground arith)

HasNode-is_current :
    (n : Node) (e : Entry)
    → (n.fd ≡ n.fd) × (n.expires_at ≡ e.expires_at) × (n.version ≡ e.version)
    → is_current n (some e) ≡ true
unfolding is_current
HasNode-is_current n e h = ground arith

-- Behind a stale node the entries still have their nodes.
stale-IsTracking :
    (n : Node) (ns : List Node) (latest : List (ℕ × Entry))
    → IsTracking (n ∷ ns) latest
    → is_current n (find n.fd latest) ≡ false
    → IsTracking ns latest
stale-IsTracking n ns latest k stale = record {
  ordered = IsOrdered-mono 0 n.expires_at ns (omega arith) k.ordered.1;
  tracked = λ fd e found. elim (k.tracked fd e found) [
    | inl (p, q, r) ↦
        cc (stale, HasNode-is_current n e (refl, q, r), ap (λ d. find d latest) p, found)
    | inr h ↦ h
  ];
}

-- So they have behind a current node, when its own entry is erased.
current-IsTracking :
    (n : Node) (ns : List Node) (latest : List (ℕ × Entry))
    → IsTracking (n ∷ ns) latest
    → IsTracking ns (erase n.fd latest)
current-IsTracking n ns latest k = record {
  ordered = IsOrdered-mono 0 n.expires_at ns (omega arith) k.ordered.1;
  tracked = λ fd e found.
      let (other, found') = find-erase-some n.fd fd e latest found in
      elim (k.tracked fd e found') [ inl (p, q, r) ↦ absurd (ground arith) | inr h ↦ h ];
}

module _ (now k fd : ℕ) (latest : List (ℕ × Entry)) where
  current_returned :
      (old : Bool)
      → is_due now (find k latest) ≡ true
      → old ≡ is_due now (find fd (erase k latest))
      → (k == fd || old) ≡ is_due now (find fd latest)
  current_returned old due h = elim (Bool-cases (k == fd)) [
    | inl same ↦ rw same (sym (ap (λ d. is_due now (find d latest)) (sym (==→eq k fd same)) ∙ due))
    | inr other ↦ rw other (rw (find-erase k fd latest, other) at h)
  ]

  current_kept :
      is_due now (find k latest) ≡ true
      → (if is_due now (find fd (erase k latest)) then none else find fd (erase k latest))
        ≡ (if is_due now (find fd latest) then none else find fd latest)
  current_kept due = elim (Bool-cases (k == fd)) [
    | inl same ↦ rw (find-erase k fd latest, same, ← ==→eq k fd same, due)
    | inr other ↦ rw (find-erase k fd latest, other)
  ]

-- A current node is returned and its entry erased; the loop does the rest.
current-IsExpiry :
    (now : ℕ) (n : Node) (latest : List (ℕ × Entry)) (p : Popped)
    → is_due now (find n.fd latest) ≡ true
    → IsExpiry now (erase n.fd latest) p
    → IsExpiry now latest (also_expired n.fd p)
current-IsExpiry now n latest p due x = record {
  returned = λ fd. current_returned now n.fd fd latest (contains fd p.expired) due (x.returned fd);
  distinct = (x.returned n.fd ∙ rw (find-erase n.fd n.fd latest, ==-refl n.fd), x.distinct);
  kept = λ fd. x.kept fd ∙ current_kept now n.fd fd latest due;
  tracking = x.tracking;
}

pop_loop-IsExpiry :
    (now : ℕ) (heap : List Node) (latest : List (ℕ × Entry))
    → IsTracking heap latest
    → IsExpiry now latest (pop_loop now heap latest)
unfolding pop_loop
pop_loop-IsExpiry now [] latest k = none_due-IsExpiry now [] latest k (λ fd.
    elim (Option-cases (find fd latest)) [
      | inl e ↦ rw e
      | inr (e, found) ↦ absurd (k.tracked fd e found)
    ])
pop_loop-IsExpiry now (n ∷ ns) latest k = elim (Bool-cases (leb n.expires_at now)) [
  | inl passed ↦ elim (Bool-cases (is_current n (find n.fd latest))) [
    | inl current ↦
        let (e, found, same) = is_current-some n (find n.fd latest) current in
        rw (passed, current)
          (current-IsExpiry now n latest _ (rw found (ground arith))
            (pop_loop-IsExpiry now ns (erase n.fd latest) (current-IsTracking n ns latest k)))
    | inr stale ↦
        rw (passed, stale) (pop_loop-IsExpiry now ns latest (stale-IsTracking n ns latest k stale))
  ]
  | inr late ↦ rw late (none_due-IsExpiry now (n ∷ ns) latest k (not_due now n ns latest k late))
]

-- `popExpired` returns each descriptor whose latest expiry time has come, once, and no other. It
-- erases exactly those, and the heap still holds a node for every entry that is left.
pub pop_expired-IsExpiry :
    (now : ℕ) (t : TimerHeap)
    → IsTracking t.heap t.latest
    → IsExpiry now t.latest (pop_expired now t)
unfolding pop_expired
pop_expired-IsExpiry now t k = pop_loop-IsExpiry now t.heap t.latest k
