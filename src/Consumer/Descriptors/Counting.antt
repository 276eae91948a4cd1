-- ===== src/Consumer/Descriptors/Counting.antt =====
-- Which counters run and which descriptors are open after a constructor of src/consumer/cpu_monitor.cpp
-- or kernel_monitor.cpp, whatever its calls answer.
use bullet_time.Prelude.{
  ℕ, ◌≡◌, refl, ap, Bool, true, List, [], ◌∷◌, ◌++◌, Option, none, some, arith, append-nil,
  Bool-cases, inl, inr,
}
use bullet_time.Consumer.Descriptors.{
  EventAttr, Call, perf_event_open, ioctl_reset, ioctl_enable, close, setup_counters, enable_all,
  close_all, Constructed, ready, thrown, construct,
}

abbrev pub keep {ℓ} : {A : Type ℓ} → Option A → List A → List A
keep none xs = xs
keep (some x) xs = x ∷ xs

-- What `f` finds in the calls, in their order.
abbrev pub select {ℓ} : {A : Type ℓ} → (Call → Option A) → List Call → List A
select f [] = []
select f (c ∷ calls) = keep (f c) (select f calls)

abbrev pub opened : Call → Option ℕ
opened (perf_event_open a fd) = some fd
opened _ = none

abbrev pub asked : Call → Option EventAttr
asked (perf_event_open a fd) = some a
asked _ = none

abbrev pub reset : Call → Option ℕ
reset (ioctl_reset fd) = some fd
reset _ = none

abbrev pub enabled : Call → Option ℕ
enabled (ioctl_enable fd) = some fd
enabled _ = none

abbrev pub closed : Call → Option ℕ
closed (close fd) = some fd
closed _ = none

-- What a constructor with these counters has done.
abbrev pub Says : List EventAttr → Constructed → Type 0
Says attrs (ready members calls) =
    (select asked calls ≡ attrs)
    × (select reset calls ≡ select opened calls)
    × (select enabled calls ≡ select opened calls)
    × (select closed calls ≡ [])
    × (select closed (close_all members) ≡ select opened calls)
Says attrs (thrown calls) =
    (select closed calls ≡ select opened calls) × (select enabled calls ≡ [])

keep-append {ℓ} : {A : Type ℓ} (o : Option A) (xs ys : List A) → keep o (xs ++ ys) ≡ keep o xs ++ ys
keep-append none xs ys = refl
keep-append (some x) xs ys = refl

select-append {ℓ} :
    {A : Type ℓ} (f : Call → Option A) (xs ys : List Call)
    → select f (xs ++ ys) ≡ select f xs ++ select f ys
select-append f [] ys = refl
select-append f (c ∷ xs) ys =
    rw (select-append f xs ys) (keep-append (f c) (select f xs) (select f ys))

abbrev fds : List (Option ℕ) → List ℕ
fds [] = []
fds (m ∷ members) = keep m (fds members)

record IsSetUp (attrs : List EventAttr) (members : List (Option ℕ)) (calls : List Call)
    (done : Bool) : Type 0 where
  opens : select opened calls ≡ fds members
  asks : done ≡ true → select asked calls ≡ attrs
  no_reset : select reset calls ≡ []
  no_enabled : select enabled calls ≡ []
  no_closed : select closed calls ≡ []

setup_counters-IsSetUp :
    (attrs : List EventAttr) (answers : List (Option ℕ))
    → let (members, calls, done) = setup_counters attrs answers in IsSetUp attrs members calls done
unfolding setup_counters
setup_counters-IsSetUp [] answers = ground arith
setup_counters-IsSetUp (a ∷ attrs) [] = ground arith
setup_counters-IsSetUp (a ∷ attrs) (none ∷ answers) = ground arith
setup_counters-IsSetUp (a ∷ attrs) (some fd ∷ answers) =
    let v = setup_counters-IsSetUp attrs answers in
    record {
      opens = ap (λ l. fd ∷ l) v.opens;
      asks = λ h. ap (λ l. a ∷ l) (v.asks h);
      no_reset = v.no_reset;
      no_enabled = v.no_enabled;
      no_closed = v.no_closed;
    }

enable_all-select :
    (members : List (Option ℕ))
    → (select reset (enable_all members) ≡ fds members)
      × (select enabled (enable_all members) ≡ fds members)
      × (select opened (enable_all members) ≡ [])
      × (select asked (enable_all members) ≡ [])
      × (select closed (enable_all members) ≡ [])
unfolding enable_all
enable_all-select [] = ground arith
enable_all-select (none ∷ members) = enable_all-select members
enable_all-select (some fd ∷ members) = ground (arith, enable_all-select members)

close_all-select :
    (members : List (Option ℕ))
    → (select closed (close_all members) ≡ fds members)
      × (select opened (close_all members) ≡ [])
      × (select enabled (close_all members) ≡ [])
unfolding close_all
close_all-select [] = ground arith
close_all-select (none ∷ members) = close_all-select members
close_all-select (some fd ∷ members) = ground (arith, close_all-select members)

-- Whatever the calls answer: a constructor that returns has opened just the counters asked for, in
-- their order, and has set each to 0, enabled each and closed none, and the destructor then closes just
-- these. One that throws has enabled none and closed just the descriptors that it opened.
pub construct-Says :
    (attrs : List EventAttr) (answers : List (Option ℕ)) → Says attrs (construct attrs answers)
unfolding construct
construct-Says attrs answers =
    let (members, calls, done) = setup_counters attrs answers in
    let v = setup_counters-IsSetUp attrs answers in
    let (r, en, eo, ea, ec) = enable_all-select members in
    let (ends, co, ce) = close_all-select members in
    elim (Bool-cases done) [
      | inl all_set ↦ rw all_set (
        simp (select-append, v.asks all_set, ea, append-nil),
        simp (select-append, v.no_reset, v.opens, r, eo, append-nil),
        simp (select-append, v.no_enabled, v.opens, en, eo, append-nil),
        simp (select-append, v.no_closed, ec),
        simp (select-append, v.opens, eo, ends, append-nil),
      )
      | inr broken ↦ rw broken (
        simp (select-append, v.no_closed, v.opens, co, ends, append-nil),
        simp (select-append, v.no_enabled, ce),
      )
    ]
