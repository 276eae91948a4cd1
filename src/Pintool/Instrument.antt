-- ===== src/Pintool/Instrument.antt =====
-- Trace of src/pintool/bullettime.cpp: the calls that it inserts into traced code, and what the code
-- then does. Pin's traces are the argument: a trace is a list of basic blocks, a block a list of
-- instructions.
pub mod Advances
pub mod Counts
pub mod Notes
use bullet_time.Prelude.{
  ℕ, Bool, true, false, ◌&&◌, ◌||◌, List, [], ◌∷◌, ◌++◌, Option, none, some, leb, if◌then◌else◌,
  map, ◌>>=◌,
}
use bullet_time.Prelude.Words.{add64}
use bullet_time.Prelude.Text.{Text, codes, contains}
use bullet_time.Pintool.Representative.{AppThread}
use bullet_time.Pintool.Callbacks.{
  After, failed, left_alone, changed, record_frequency, record_ins_executed, thread_pause,
}

-- MEMREF; the size and `is_read` are 32-bit numbers.
pub record Memref : Type 0 where
  pub pc : ℕ
  pub ea : ℕ
  pub sz : ℕ
  pub is_read : ℕ

-- What Pin tells of an instruction.
pub record Ins : Type 0 where
  pub address : ℕ
  pub is_memory_read : Bool
  pub is_memory_write : Bool
  pub disassembly : Text

-- The operands of one execution.
pub record Operands : Type 0 where
  pub read_ea : ℕ
  pub read_size : ℕ
  pub write_ea : ℕ
  pub write_size : ℕ

-- A call before an instruction.
pub data Call : Type 0 where
  frequency : (pc : ℕ) → Call
  pause fill_read fill_write : Call

-- Whether -record_file is given, and whether -prof_sync is 1.
pub record Knobs : Type 0 where
  pub record_freq : Bool
  pub prof_sync : Bool

abbrev pub accesses_memory : Ins → Bool
accesses_memory i = i.is_memory_read || i.is_memory_write

abbrev pub only {ℓ} : {A : Type ℓ} → Bool → A → List A
only b a = if b then a ∷ [] else []

-- What the inner loop inserts for one instruction.
unfoldable pub ins_calls : Knobs → Ins → List Call
ins_calls k i =
    only (accesses_memory i && k.record_freq) (frequency i.address)
    ++ only (k.prof_sync && contains (codes "pause") i.disassembly) pause
    ++ only i.is_memory_read fill_read
    ++ only i.is_memory_write fill_write

-- The inner loop: the calls, `num_ins` and `num_mem_ins`.
unfoldable pub scan_bbl : Knobs → List Ins → (num_ins num_mem_ins : ℕ) → List (List Call) × ℕ × ℕ
unfolding ins_calls
scan_bbl k [] num_ins num_mem_ins = ([], num_ins, num_mem_ins)
scan_bbl k (i ∷ rest) num_ins num_mem_ins =
    let (calls, ins, mem_ins) =
      scan_bbl k rest (add64 num_ins 1)
        (if accesses_memory i then add64 num_mem_ins 1 else num_mem_ins) in
    (ins_calls k i ∷ calls, ins, mem_ins)

-- A block with its calls.
pub record Inserted : Type 0 where
  pub calls : List (List Call)
  pub num_ins : ℕ
  pub num_mem_ins : ℕ

-- One turn of the outer loop; `none` where its ASSERTX fails.
unfoldable pub instrument_bbl : Knobs → List Ins → Option Inserted
unfolding scan_bbl
instrument_bbl k bbl =
    let (calls, num_ins, num_mem_ins) = scan_bbl k bbl 0 0 in
    if leb num_mem_ins num_ins
    then some (record { calls = calls; num_ins = num_ins; num_mem_ins = num_mem_ins })
    else none

-- The thread that runs, and the records that it has put in its buffer so far, those that were handed
-- off included.
pub record Traced : Type 0 where
  pub thread : AppThread
  pub memrefs : List Memref

abbrev pub after : After → Traced → Option Traced
after failed s = none
after left_alone s = some s
after (changed a) s = some (record s { thread = a })

abbrev pub memref_of : Ins → Operands → Bool → Memref
memref_of i o true = record { pc = i.address; ea = o.read_ea; sz = o.read_size; is_read = 1 }
memref_of i o false = record { pc = i.address; ea = o.write_ea; sz = o.write_size; is_read = 0 }

abbrev pub fill : Memref → Traced → Option Traced
fill m s = some (record s { memrefs = s.memrefs ++ m ∷ [] })

abbrev pub run_call : Ins → Operands → Call → Traced → Option Traced
unfolding record_frequency thread_pause
run_call i o (frequency pc) s = after (record_frequency pc (some s.thread)) s
run_call i o pause s = after (thread_pause (some s.thread)) s
run_call i o fill_read s = fill (memref_of i o true) s
run_call i o fill_write s = fill (memref_of i o false) s

abbrev pub run_calls : Ins → Operands → List Call → Traced → Option Traced
run_calls i o [] s = some s
run_calls i o (c ∷ cs) s = do s ← run_call i o c s; run_calls i o cs s

abbrev pub run_ins : List (Ins × Operands) → List (List Call) → Traced → Option Traced
run_ins [] calls s = some s
run_ins (x ∷ rest) [] s = some s
run_ins ((i, o) ∷ rest) (cs ∷ calls) s = do s ← run_calls i o cs s; run_ins rest calls s

-- IPOINT_ANYWHERE: Pin runs the call of a block before its instructions or behind them.
unfoldable pub run_bbl :
    (call_first : Bool) → List (Ins × Operands) → Inserted → Traced → Option Traced
unfolding record_ins_executed
run_bbl true executed n s = do
  s ← after (record_ins_executed n.num_ins n.num_mem_ins (some s.thread)) s
  run_ins executed n.calls s
run_bbl false executed n s = do
  s ← run_ins executed n.calls s
  after (record_ins_executed n.num_ins n.num_mem_ins (some s.thread)) s

-- An execution: basic blocks, each instrumented by Trace and then run.
unfoldable pub run : Knobs → List (Bool × List (Ins × Operands)) → Traced → Option Traced
unfolding instrument_bbl run_bbl
run k [] s = some s
run k ((call_first, executed) ∷ rest) s = do
  inserted ← instrument_bbl k (map (λ x. x.0) executed)
  s ← run_bbl call_first executed inserted s
  run k rest s
