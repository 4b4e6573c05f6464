-- ===== src/Worker/Queue.antt =====
-- The queue of a worker, `srmwqueue`: many writers, one reader.
-- Requests are known by their addresses. What a critical section does is one function here.
use zapps.Prelude.{
  ℕ, ◌+◌, Bool, true, false, List, [], ◌∷◌, ◌++◌, Option, none, some, length, drop, get_elem?, ◌==◌,
  leb, ◌&&◌, ◌||◌, Result, ok, deref, ◌>>=◌, if◌then◌else◌,
}
use zapps.Worker.{WorkingState, undef}

pub record Queue : Type 0 where
  pub owner : Option ℕ
  pub for_writers : List ℕ
  pub for_readers : List ℕ
  pub read_pos : ℕ
  pub empty : Bool
  pub my_ws : WorkingState
  pub loops : ℕ
  pub thres : ℕ

unfoldable pub new_queue : Queue
new_queue = record {
  owner = none;
  for_writers = [];
  for_readers = [];
  read_pos = 0;
  empty = true;
  my_ws = undef;
  loops = 0;
  thres = 0;
}

unfoldable pub setqueue : Queue → WorkingState → ℕ → ℕ → ℕ → Queue
setqueue q aws owner loops thres = record q {
  my_ws = aws;
  owner = some owner;
  loops = loops;
  thres = thres;
}

unfoldable pub at_end : Queue → Bool
at_end q = q.read_pos == length q.for_readers

unfoldable pub is_empty : Queue → Bool
unfolding at_end
is_empty q = at_end q && q.empty

-- The critical section of `push`.
unfoldable pub push_back : Queue → ℕ → Queue
push_back q a = record q { for_writers = q.for_writers ++ (a ∷ []); empty = false }

-- Whether the owner is to be woken, after the critical section.
unfoldable pub reaches_thres : Queue → Bool → Bool
reaches_thres q wake = leb q.thres (length q.for_writers) || wake

-- The end of `wait_for_input`: the lists are swapped, and the new one is read from its beginning.
unfoldable pub swap : Queue → Queue
swap q = record q { for_readers = q.for_writers; for_writers = []; empty = true; read_pos = 0 }

-- `*(_read_pos++)`
unfoldable pub next : Queue → Result (ℕ × Queue)
next q = do
  a ← deref (get_elem? q.for_readers q.read_pos)
  ok (a, record q { read_pos = q.read_pos + 1 })

unfoldable pub clear : Queue → Bool → Queue
clear q remove_owner = record q {
  owner = if remove_owner then none else q.owner;
  for_writers = [];
  for_readers = [];
  read_pos = 0;
  empty = true;
}

-- The requests that were pushed and not popped, the oldest first.
unfoldable pub contents : Queue → List ℕ
contents q = drop q.read_pos q.for_readers ++ q.for_writers
