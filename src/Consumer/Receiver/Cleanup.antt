-- ===== src/Consumer/Receiver/Cleanup.antt =====
-- What ReceiverThread of src/consumer/consumer.cpp still holds at its end.
use bullet_time.Prelude.{◌≡◌, Bool, true, false, List, [], ◌∷◌, arith, if◌then◌else◌}
use bullet_time.Consumer.Receiver.{
  Resource, out_file, shm_file, shm_map, out_map, rdy_sock, size_sock, rdy_conn, size_conn, Effect,
  take, give, Answers, receiver, all_succeed, ListenEnd, left_early, left_reopened,
}

abbrev pub same_resource : Resource → Resource → Bool
same_resource out_file out_file = true
same_resource shm_file shm_file = true
same_resource shm_map shm_map = true
same_resource out_map out_map = true
same_resource rdy_sock rdy_sock = true
same_resource size_sock size_sock = true
same_resource rdy_conn rdy_conn = true
same_resource size_conn size_conn = true
same_resource _ _ = false

-- What has been taken, and is not given back later.
abbrev pub given_later : Resource → List Effect → Bool
given_later r [] = false
given_later r (take q ∷ es) = given_later r es
given_later r (give q ∷ es) = if same_resource r q then true else given_later r es

abbrev pub left_over : List Effect → List Resource
left_over [] = []
left_over (take r ∷ es) = if given_later r es then left_over es else r ∷ left_over es
left_over (give r ∷ es) = left_over es

abbrev pub taken : List Effect → List Resource
taken [] = []
taken (take r ∷ es) = r ∷ taken es
taken (give r ∷ es) = taken es

-- Whether `Listen` leaves the output file open.
abbrev pub leaves_open : (use_compression : Bool) → ListenEnd → Bool
leaves_open use_compression left_early = true
leaves_open true left_reopened = true
leaves_open _ _ = false

-- If a call before `Listen` fails, the thread keeps all that it took before. Otherwise it keeps the
-- output file just if `Listen` returns early, before it closes the file or after it has opened it again
-- to append; and nothing if `Listen` comes to its end, or cannot open the file again.
pub receiver-left_over :
    (use_compression : Bool) (ans : Answers)
    → let es = receiver use_compression ans in
      left_over es ≡ (
        if all_succeed use_compression ans
        then if leaves_open use_compression ans.listen_end then out_file ∷ [] else []
        else taken es)
unfolding receiver
receiver-left_over use_compression ans = ground arith
