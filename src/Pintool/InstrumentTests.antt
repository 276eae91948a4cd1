-- ===== src/Pintool/InstrumentTests.antt =====
-- The theorems on the instrumentation at inputs that meet their hypotheses.
use bullet_time.Prelude.{◌≤◌, ◌≡◌, ◌↔◌, Bool, true, false, List, [], ◌∷◌, some, arith}
use bullet_time.Prelude.Text.{Text, codes, Lacks}
use bullet_time.Pintool.Representative.{app_thread}
use bullet_time.Pintool.Instrument.{Ins, Operands, Knobs, Traced, run}
use bullet_time.Pintool.Instrument.Advances.{Advances, executed}
use bullet_time.Pintool.Instrument.Counts.{run-Advances}
use bullet_time.Pintool.Routines.{fcall_names, rtn_calls}
use bullet_time.Pintool.Routines.Matches.{AnyMatches, counted, rtn_calls-counted}

abbrev load : Ins
load = record {
  address = 64;
  is_memory_read = true;
  is_memory_write = false;
  disassembly = codes "mov eax, [rbx]";
}

abbrev exchange : Ins
exchange = record {
  address = 68;
  is_memory_read = true;
  is_memory_write = true;
  disassembly = codes "xchg eax, [rbx]";
}

abbrev spin : Ins
spin = record {
  address = 70;
  is_memory_read = false;
  is_memory_write = false;
  disassembly = codes "pause";
}

abbrev operands : Operands
operands = record { read_ea = 4096; read_size = 4; write_ea = 4096; write_size = 4 }

abbrev execution : List (Bool × List (Ins × Operands))
execution =
    (true, (load, operands) ∷ (spin, operands) ∷ [])
    ∷ (false, (exchange, operands) ∷ [])
    ∷ (true, (load, operands) ∷ (spin, operands) ∷ [])
    ∷ []

abbrev knobs : Knobs
knobs = record { record_freq = true; prof_sync = true }

abbrev initial : Traced
initial = record { thread = app_thread 1 77 4; memrefs = [] }

run-Advances_example :
    (s' : Traced) × (run knobs execution initial ≡ some s')
    × Advances knobs 5 3 (executed execution) initial s'
run-Advances_example =
    run-Advances knobs execution initial (omega arith, (omega arith, (omega arith, tt)))

abbrev names : List Text
names = codes "work" ∷ codes "step" ∷ []

work-Lacks : Lacks b',' (codes "work")
work-Lacks = (
  (λ e. absurd (omega (arith, e))),
  (
    (λ e. absurd (omega (arith, e))),
    ((λ e. absurd (omega (arith, e))), ((λ e. absurd (omega (arith, e))), tt)),
  ),
)

step-Lacks : Lacks b',' (codes "step")
step-Lacks = (
  (λ e. absurd (omega (arith, e))),
  (
    (λ e. absurd (omega (arith, e))),
    ((λ e. absurd (omega (arith, e))), ((λ e. absurd (omega (arith, e))), tt)),
  ),
)

rtn_calls-counted_example :
    let calls = rtn_calls true true false (fcall_names (codes "work,step")) (codes "do_work") in
    (counted calls ≤ 1) × ((counted calls ≡ 1) ↔ AnyMatches false names (codes "do_work"))
rtn_calls-counted_example =
    rtn_calls-counted true false names (codes "do_work") ((cc, work-Lacks), ((cc, step-Lacks), tt))
