-- ===== src/Consumer/SharedTests.antt =====
-- The theorems on the shared peak at runs of two listeners: the first to count owns the highest ratio, and
-- the other one is delayed.
use bullet_time.Prelude.{true, false, ltb, ◌≡◌, ◌⊎◌, ℕ, ◌*◌, refl, false, [], ◌∷◌, some}
use bullet_time.Pintool.Representative.Handoff.{SendData}
use bullet_time.Consumer.CpuMonitor.{CpuCounts}
use bullet_time.Consumer.Quarters.{quarters, quarters-IsOrdered}
use bullet_time.Consumer.Control.{skip_overhead_balancing}
use bullet_time.Consumer.Balance.{
  Peak, Delay, count_block, balance, raise, delay_for, ratio_of, work_of, offset_ins,
}
use bullet_time.Consumer.Shared.{
  Member, Shared, no_members, new_member, count_member, balance_member, put, delaying, Reach, first,
  next, start, count, settle, move,
}
use bullet_time.Consumer.Shared.Peaks.{Moves, none_yet, then, Moves-peak}
use bullet_time.Consumer.Shared.Sound.{Follows}
use bullet_time.Consumer.Shared.Delays.{Reach-Follows}

abbrev block : ℕ → SendData
block ins = record {
  num_bytes = 4096;
  time = 10;
  work = 0;
  ins_executed = ins;
  mem_ins_executed = 5;
  fcalls_executed = 1;
  pin_wait_us = 3;
}

abbrev counts : CpuCounts
counts = record {
  user_instructions = 100;
  user_cycles = 100;
  kernel_instructions = 60000;
  kernel_cycles = 60000;
  multiplexing_detected = false;
}

abbrev of_signed : ℕ → ℕ
of_signed n = n * 4

abbrev counting : (ins : ℕ) → Peak quarters → Member quarters
counting ins peak =
    count_member quarters of_signed 2 20 (block ins) counts peak (new_member quarters)

abbrev no_peak : Peak quarters
no_peak = (no_members quarters).peak

abbrev high_peak : Peak quarters
high_peak = record {
  max_buffer_work_ratio = 4;
  max_ratio_owner = some 1;
  peak_work_whole_execution = 4;
}

-- One instruction in the buffer of the second thread, four in that of the first.
abbrev two : Shared quarters
two = record (no_members quarters) { members = new_member quarters ∷ new_member quarters ∷ [] }

abbrev second_counted : Shared quarters
second_counted = put quarters 1 (counting 1 no_peak) no_peak two

abbrev second_settled : Shared quarters
second_settled =
    balance_member quarters 4096 1 (counting 1 no_peak).entry no_peak (counting 1 no_peak)
      second_counted

abbrev first_counted : Shared quarters
first_counted = put quarters 0 (counting 4 high_peak) high_peak second_settled

abbrev first_settled : Shared quarters
first_settled =
    balance_member quarters 4096 0 (counting 4 high_peak).entry high_peak (counting 4 high_peak)
      first_counted

abbrev delay : Delay quarters
delay = record { extra_buffers = 12; extra_io = 12288; ratio_owner = some 1 }

two-Reach : Reach quarters of_signed 4096 two
two-Reach = next _ two (next (no_members quarters) _ first (move _ start)) (move _ start)

second-Reach : Reach quarters of_signed 4096 second_settled
second-Reach =
    next second_counted _
      (next two _ two-Reach
        (move _ (count 1 (new_member quarters) 2 20 (block 1) counts refl refl refl)))
      (move _ (settle 1 (counting 1 no_peak) (counting 1 no_peak).entry no_peak refl refl))

first-Reach : Reach quarters of_signed 4096 first_settled
unfolding balance_member count_block work_of offset_ins balance raise skip_overhead_balancing
first-Reach =
    next first_counted _
      (next second_settled _ second-Reach
        (move _ (count 0 (new_member quarters) 2 20 (block 4) counts refl refl refl)))
      (move _ (settle 0 (counting 4 high_peak) (counting 4 high_peak).entry high_peak refl refl))

Reach-Follows_example : Follows quarters 2 1 delay
unfolding balance_member count_block work_of offset_ins balance raise delay_for
    skip_overhead_balancing
Reach-Follows_example =
    Reach-Follows quarters of_signed 4096 quarters-IsOrdered first_settled 0
      (record (counting 4 high_peak) { turn = delaying 1 delay }) 1 delay first-Reach refl refl

two-Moves : Moves quarters of_signed 4096 two second_settled
two-Moves =
    then second_counted _
      (then two _ none_yet (count 1 (new_member quarters) 2 20 (block 1) counts refl refl refl))
      (settle 1 (counting 1 no_peak) (counting 1 no_peak).entry no_peak refl refl)

-- The first thread has read the entries and the peak before the second one raises it.
Moves-peak_example :
    (ltb 4 (ratio_of quarters (counting 4 no_peak).entry) ≡ false)
    × ((◌≡◌ {A = ℕ} 4 0) ⊎ (ltb 0 4 ≡ true))
unfolding balance_member count_block work_of offset_ins balance raise delay_for
    skip_overhead_balancing
Moves-peak_example =
    Moves-peak quarters of_signed 4096 quarters-IsOrdered two second_settled 0 (counting 4 no_peak)
      (counting 4 no_peak).entry two-Moves refl
