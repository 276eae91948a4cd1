-- ===== src/Consumer/Receiver/Name.antt =====
-- The name that ThreadStart of src/pintool/bullettime.cpp gives to a thread's file, read by
-- ReceiverThread of src/consumer/consumer.cpp.
use bullet_time.Prelude.{
  take_front, ℕ, ◌+◌, ◌-◌, ◌<◌, ◌≡◌, ◌≢◌, refl, sym, ap, ◌∙◌, true, false, ◌∷◌, ◌++◌, append_assoc,
  some, arith, All-append, length, drop, length-append, ltb, lt→ltb,
}
use bullet_time.Prelude.Text.{
  Text, find_last_of, find_last_of-append, drop_front, substr, stoi, IsDecimal, stoi-IsDecimal,
  IsDecimal-Lacks,
}
use bullet_time.Pintool.ThreadFile.{thread_file, out_name}
use bullet_time.Consumer.Receiver.{numbers, at_marks, parse_thread_name}

-- The last dash stands before the last period, with the text `a` between them and `b` behind.
at_marks_lem :
    (p a b : Text) (n t : ℕ)
    → stoi a ≡ some (false, n)
    → stoi b ≡ some (false, t)
    → at_marks (p ++ b'-' ∷ (a ++ b'.' ∷ b)) (some (length (p ++ b'-' ∷ a))) (some (length p))
      ≡ numbers (false, n) (false, t)
at_marks_lem p a b n t en et =
    let name = p ++ b'-' ∷ (a ++ b'.' ∷ b) in
    let mark : length (p ++ b'-' ∷ a) ≡ length p + 1 + length a =
      omega (arith, length-append p (b'-' ∷ a)) in
    let count : length (p ++ b'-' ∷ a) - length p - 1 ≡ length a = omega (arith, mark) in
    let before : ltb (length p) (length (p ++ b'-' ∷ a)) ≡ true =
      lt→ltb _ _ (omega (arith, mark)) in
    let first : substr (length p + 1) (length a) name ≡ a =
      rw (drop_front (length p + 1) p b'-' (a ++ b'.' ∷ b) refl)
        (take_front (length a) a (b'.' ∷ b) refl) in
    let second : drop (length (p ++ b'-' ∷ a) + 1) name ≡ b =
      rw (← append_assoc p (b'-' ∷ a) (b'.' ∷ b))
        (drop_front (length (p ++ b'-' ∷ a) + 1) (p ++ b'-' ∷ a) b'.' b refl) in
    rw (before, count, first, second, en, et) refl

parse_lem :
    (p a b : Text) (n t : ℕ)
    → IsDecimal a n
    → IsDecimal b t
    → n < 2147483648
    → t < 2147483648
    → parse_thread_name (p ++ b'-' ∷ (a ++ b'.' ∷ b)) ≡ numbers (false, n) (false, t)
unfolding parse_thread_name
parse_lem p a b n t ha hb small_n small_t =
    let period : find_last_of b'.' (p ++ b'-' ∷ (a ++ b'.' ∷ b)) ≡ some (length (p ++ b'-' ∷ a)) =
      ap (find_last_of b'.') (sym (append_assoc p (b'-' ∷ a) (b'.' ∷ b)))
      ∙ find_last_of-append b'.' (p ++ b'-' ∷ a) b (IsDecimal-Lacks b'.' b t hb (omega arith)) in
    let dash : find_last_of b'-' (p ++ b'-' ∷ (a ++ b'.' ∷ b)) ≡ some (length p) =
      find_last_of-append b'-' p (a ++ b'.' ∷ b) (
        All-append (λ x. x ≢ b'-') a (b'.' ∷ b) (IsDecimal-Lacks b'-' a n ha (omega arith))
          ((λ e. absurd (omega (arith, e))), IsDecimal-Lacks b'-' b t hb (omega arith))) in
    rw (period, dash)
      (at_marks_lem p a b n t (stoi-IsDecimal a n ha small_n) (stoi-IsDecimal b t hb small_t))

-- Let `decstr` give the decimal digits of two numbers below 2 ^ 31. Then the receiver reads back just
-- these numbers from the name of the thread's file, whatever the prefix, also if that has dashes and
-- periods.
pub parse-thread_file :
    (decstr : ℕ → Text) (outprefix : Text) (native_tid tid : ℕ)
    → IsDecimal (decstr native_tid) native_tid
    → IsDecimal (decstr tid) tid
    → native_tid < 2147483648
    → tid < 2147483648
    → parse_thread_name (thread_file decstr outprefix native_tid tid)
      ≡ numbers (false, native_tid) (false, tid)
unfolding thread_file
parse-thread_file decstr outprefix native_tid tid hp ht small_p small_t =
    parse_lem (out_name outprefix) (decstr native_tid) (decstr tid) native_tid tid hp ht small_p
      small_t
