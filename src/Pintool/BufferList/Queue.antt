-- ===== src/Pintool/BufferList/Queue.antt =====
-- BUFFER_LIST_MANAGER of src/pintool/buffer_manager.cpp as a queue: what its threads do to the list,
-- seen from outside.
use bullet_time.Prelude.{◌≡◌, refl, ap, ◌∙◌, Option, Bool, List, [], ◌∷◌, ◌++◌, append-nil}
use bullet_time.Pintool.BufferList.{Element}
use bullet_time.Pintool.BufferList.Threads.{
  System, Step, put_push, get_pop, get_pop_last, Reach, here, next,
}

pub data Action : Type 0 where
  put take : Element → Action

-- A first-in, first-out queue, and its histories, the newest action last.
pub data Move : List Element → Action → List Element → Type 0 where
  put_last : {q r : List Element} (e : Element) → r ≡ q ++ e ∷ [] → Move q (put e) r
  take_first : {q r : List Element} (e : Element) → q ≡ e ∷ r → Move q (take e) r

pub data History : List Action → List Element → Type 0 where
  empty : History [] []
  then_move :
      {xs : List Action} {q r : List Element} {a : Action}
      → History xs q
      → Move q a r
      → History (xs ++ a ∷ []) r

-- What was put, and what was taken.
abbrev pub puts : List Action → List Element
puts [] = []
puts (put e ∷ xs) = e ∷ puts xs
puts (take e ∷ xs) = puts xs

abbrev pub takes : List Action → List Element
takes [] = []
takes (put e ∷ xs) = takes xs
takes (take e ∷ xs) = e ∷ takes xs

puts-append : (xs bs : List Action) → puts (xs ++ bs) ≡ puts xs ++ puts bs
puts-append [] bs = refl
puts-append (put e ∷ xs) bs = rw (puts-append xs bs)
puts-append (take e ∷ xs) bs = puts-append xs bs

takes-append : (xs bs : List Action) → takes (xs ++ bs) ≡ takes xs ++ takes bs
takes-append [] bs = refl
takes-append (put e ∷ xs) bs = takes-append xs bs
takes-append (take e ∷ xs) bs = rw (takes-append xs bs)

-- What the threads have put and taken so far is a history of the queue that the list is.
pub record IsQueue (s : System) : Type 0 where
  pub actions : List Action
  pub history : History actions s.buffers
  pub puts_lem : puts actions ≡ s.accepted
  pub takes_lem : takes actions ≡ s.delivered

Step-IsQueue : {s t : System} → Step s t → IsQueue s → IsQueue t
Step-IsQueue (put_push i e p free) v = record {
  actions = v.actions ++ put e ∷ [];
  history = then_move v.history (put_last e refl);
  puts_lem = puts-append v.actions (put e ∷ []) ∙ ap (λ es. es ++ e ∷ []) v.puts_lem;
  takes_lem = takes-append v.actions (put e ∷ []) ∙ append-nil (takes v.actions) ∙ v.takes_lem;
}
Step-IsQueue (get_pop i e f rest p free q) v = record {
  actions = v.actions ++ take e ∷ [];
  history = then_move v.history (take_first e q);
  puts_lem = puts-append v.actions (take e ∷ []) ∙ append-nil (puts v.actions) ∙ v.puts_lem;
  takes_lem = takes-append v.actions (take e ∷ []) ∙ ap (λ es. es ++ e ∷ []) v.takes_lem;
}
Step-IsQueue (get_pop_last i e p free q) v = record {
  actions = v.actions ++ take e ∷ [];
  history = then_move v.history (take_first e q);
  puts_lem = puts-append v.actions (take e ∷ []) ∙ append-nil (puts v.actions) ∙ v.puts_lem;
  takes_lem = takes-append v.actions (take e ∷ []) ∙ ap (λ es. es ++ e ∷ []) v.takes_lem;
}
Step-IsQueue st v = record {
  actions = v.actions;
  history = v.history;
  puts_lem = v.puts_lem;
  takes_lem = v.takes_lem;
}

-- The manager refines a first-in, first-out queue: under any interleaving the buffers that its threads
-- have put and taken, in the order in which they did, are those of a history of the queue, and the list
-- is what that history leaves.
pub Reach-IsQueue : {x : Option Bool} {s : System} → Reach x s → IsQueue s
Reach-IsQueue here = record { actions = []; history = empty; puts_lem = refl; takes_lem = refl }
Reach-IsQueue (next r st) = Step-IsQueue st (Reach-IsQueue r)
