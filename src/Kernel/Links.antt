-- ===== src/Kernel/Links.antt =====
-- The pointers of the list nodes `run_list`, read off a queue (struct list_head).
use cs356_project.Prelude.{
  ℕ, Bool, true, false, List, [], ◌∷◌, ◌≡◌, ◌==◌, if◌then◌else◌, arith, elem, Distinct, ◌==◌,
  length, leb,
}

-- Where a list node's `next` or `prev` points.
pub data Link : Type 0 where
  head : Link
  entry : ℕ → Link

abbrev pub same_link : Link → Link → Bool
same_link head head = true
same_link (entry p) (entry q) = p == q
same_link _ _ = false

abbrev pub first_link : List ℕ → Link
first_link [] = head
first_link (p ∷ _) = entry p

-- `run_list.next` and `run_list.prev` of a task; a node that is in no list points to itself.
abbrev pub next_link : ℕ → List ℕ → Link
next_link p [] = entry p
next_link p (x ∷ q) = if p == x then first_link q else next_link p q

abbrev prev_from : Link → ℕ → List ℕ → Link
prev_from l p [] = entry p
prev_from l p (x ∷ q) = if p == x then l else prev_from (entry x) p q

abbrev pub prev_link : ℕ → List ℕ → Link
prev_link = prev_from head

next_ne_entry :
    (a p : ℕ) (q : List ℕ)
    → elem p q ≡ true
    → elem a q ≡ false
    → Distinct q
    → same_link (entry a) (next_link p q) ≡ false
next_ne_entry a p [] m h d = ground arith
next_ne_entry a p (x ∷ []) m h d = ground arith
next_ne_entry a p (x ∷ y ∷ q) m h d = ground (arith, next_ne_entry a p (y ∷ q))

prev_from_ne :
    (a p : ℕ) (q : List ℕ)
    → elem p q ≡ true
    → elem a q ≡ false
    → Distinct q
    → same_link (prev_from (entry a) p q) (next_link p q) ≡ false
prev_from_ne a p [] m h d = ground arith
prev_from_ne a p (x ∷ []) m h d = ground arith
prev_from_ne a p (x ∷ y ∷ q) m h d =
    ground (arith, prev_from_ne x p (y ∷ q), next_ne_entry a p (x ∷ y ∷ q))

-- A queued task's neighbours are one and the same node only if it is alone in the queue.
pub prev-next-alone :
    (p : ℕ) (q : List ℕ)
    → Distinct q
    → elem p q ≡ true
    → same_link (prev_link p q) (next_link p q) ≡ leb (length q) 1
prev-next-alone p [] d m = ground arith
prev-next-alone p (x ∷ []) d m = ground arith
prev-next-alone p (x ∷ y ∷ q) d m = ground (arith, prev_from_ne x p (y ∷ q))
