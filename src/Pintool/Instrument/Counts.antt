-- ===== src/Pintool/Instrument/Counts.antt =====
-- What the code that Trace of src/pintool/bullettime.cpp has instrumented counts and records.
use bullet_time.Prelude.{
  ℕ, suc, ◌+◌, ◌^◌, ◌≤◌, ◌<◌, ◌≡◌, refl, sym, ap, ◌∙◌, Bool, true, false, ◌&&◌, List, [], ◌∷◌, ◌++◌,
  append-nil, append_assoc, some, map, length, length-append, All, if◌then◌else◌, arith,
}
use bullet_time.Prelude.Words.{add64}
use bullet_time.Prelude.Text.{contains, codes}
use bullet_time.Pintool.Statistics.{
  AppStatistics, increment_ins_freq, increment_ins_executed, inc_pause_instructions,
}
use bullet_time.Pintool.Statistics.InsFreqs.{count-add_count}
use bullet_time.Pintool.Callbacks.{
  record_frequency, record_ins_executed, thread_pause, with_statistics,
}
use bullet_time.Pintool.Instrument.{
  Ins, Operands, Knobs, accesses_memory, only, ins_calls, scan_bbl, instrument_bbl, Traced,
  memref_of, run_calls, run_ins, run_bbl, run,
}
use bullet_time.Pintool.Instrument.Advances.{mem_count, Advances, Advances-trans, executed}

module _ (k : Knobs) where
  -- One instruction with its calls.
  abbrev counted : Ins → AppStatistics → AppStatistics
  counted i t =
      let freqs =
        if accesses_memory i && k.record_freq then increment_ins_freq i.address t else t in
      if k.prof_sync && contains (codes "pause") i.disassembly
      then inc_pause_instructions freqs
      else freqs

  abbrev after_ins : Ins → Operands → Traced → Traced
  after_ins i o s = record {
    thread = with_statistics (counted i) s.thread;
    memrefs =
        (s.memrefs ++ only i.is_memory_read (memref_of i o true))
        ++ only i.is_memory_write (memref_of i o false);
  }

  run_calls_lem :
      (i : Ins) (o : Operands) (s : Traced)
      → run_calls i o (ins_calls k i) s ≡ some (after_ins i o s)
  unfolding ins_calls record_frequency thread_pause
  run_calls_lem i o s =
      ground (arith, append-nil s.memrefs, append-nil (s.memrefs ++ memref_of i o true ∷ []))

  after_ins-Advances :
      (i : Ins) (o : Operands) (s : Traced) → Advances k 0 0 ((i, o) ∷ []) s (after_ins i o s)
  unfolding increment_ins_freq inc_pause_instructions
  after_ins-Advances i o s = record {
    ins_executed = ground arith;
    mem_ins_executed = ground arith;
    memrefs = simp (append_assoc, append-nil) refl;
    frequency = λ pc. ground (arith, count-add_count pc i.address 1 s.thread.statistics.ins_freqs);
  }

  run_ins_lem :
      (xs : List (Ins × Operands)) (s : Traced)
      → (s' : Traced) × (run_ins xs (map (ins_calls k) (map (λ x. x.0) xs)) s ≡ some s')
        × Advances k 0 0 xs s s'
  run_ins_lem [] s = (
    s,
    refl,
    record {
      ins_executed = omega arith;
      mem_ins_executed = omega arith;
      memrefs = sym (append-nil s.memrefs);
      frequency = λ pc. ground arith;
    },
  )
  run_ins_lem ((i, o) ∷ xs) s =
      let (s', e, h) = run_ins_lem xs (after_ins i o s) in
      (s', rw (run_calls_lem i o s) e, Advances-trans k refl refl refl (after_ins-Advances i o s) h)

  scan_bbl_lem :
      (b : List Ins) (n m : ℕ)
      → n + length b < 2 ^ 64
      → m + length b < 2 ^ 64
      → scan_bbl k b n m ≡ (map (ins_calls k) b, n + length b, m + mem_count b)
  unfolding scan_bbl
  scan_bbl_lem [] n m hn hm = ground arith
  scan_bbl_lem (i ∷ rest) n m hn hm =
      let m' = if accesses_memory i then add64 m 1 else m in
      let en : add64 n 1 ≡ n + 1 = omega (arith, hn) in
      let em : m' ≡ m + (if accesses_memory i then 1 else 0) = ground (arith, hm) in
      let bound : m' + length rest < 2 ^ 64 = ground (arith, hm) in
      rw (scan_bbl_lem rest (add64 n 1) m' (omega (arith, hn)) bound) ground (arith, en, em)

  mem_count-le : (b : List Ins) → mem_count b ≤ length b
  mem_count-le [] = omega arith
  mem_count-le (i ∷ rest) = ground (arith, mem_count-le rest)

  -- The ASSERTX holds.
  instrument_bbl_lem :
      (b : List Ins)
      → length b < 2 ^ 64
      → instrument_bbl k b
        ≡ some
            (record { calls = map (ins_calls k) b; num_ins = length b; num_mem_ins = mem_count b })
  unfolding instrument_bbl
  instrument_bbl_lem b h =
      rw (scan_bbl_lem b 0 0 (omega (arith, h)) (omega (arith, h))) ground (arith, mem_count-le b)

  bbl_call-Advances :
      (n m : ℕ) (s : Traced)
      → Advances k n m [] s
          (record s { thread = with_statistics (increment_ins_executed n m) s.thread })
  unfolding increment_ins_executed
  bbl_call-Advances n m s = record {
    ins_executed = omega arith;
    mem_ins_executed = omega arith;
    memrefs = sym (append-nil s.memrefs);
    frequency = λ pc. ground arith;
  }

  run_bbl_lem :
      (call_first : Bool) (xs : List (Ins × Operands)) (n m : ℕ) (s : Traced)
      → (s' : Traced) × (run_bbl call_first xs
            (record { calls = map (ins_calls k) (map (λ x. x.0) xs); num_ins = n; num_mem_ins = m })
            s
          ≡ some s')
        × Advances k n m xs s s'
  unfolding run_bbl record_ins_executed
  run_bbl_lem true xs n m s =
      let s1 : Traced = record s {
        thread = with_statistics (increment_ins_executed n m) s.thread;
      } in
      let (s', e, h) = run_ins_lem xs s1 in
      (s', e, Advances-trans k (omega arith) (omega arith) refl (bbl_call-Advances n m s) h)
  run_bbl_lem false xs n m s =
      let (s', e, h) = run_ins_lem xs s in
      let s2 : Traced = record s' {
        thread = with_statistics (increment_ins_executed n m) s'.thread;
      } in
      (
        s2,
        rw (e) refl,
        Advances-trans k (omega arith) (omega arith) (sym (append-nil xs)) h
            (bbl_call-Advances n m s'),
      )

mem_count-append : (a b : List Ins) → mem_count (a ++ b) ≡ mem_count a + mem_count b
mem_count-append [] b = omega arith
mem_count-append (i ∷ a) b = omega (arith, mem_count-append a b)

firsts-append :
    (xs ys : List (Ins × Operands))
    → map (λ x. x.0) (xs ++ ys) ≡ map (λ x. x.0) xs ++ map (λ x. x.0) ys
firsts-append [] ys = refl
firsts-append (x ∷ xs) ys = ap (λ l. x.0 ∷ l) (firsts-append xs ys)

length-firsts : (xs : List (Ins × Operands)) → length (map (λ x. x.0) xs) ≡ length xs
length-firsts [] = refl
length-firsts (x ∷ xs) = ap suc (length-firsts xs)

-- When instrumented basic blocks of fewer than 2 ^ 64 instructions have run, no ASSERTX has failed, and
-- modulo 2 ^ 64 the thread's counters have gained the number of executed instructions and that of the
-- executed ones that access memory, the buffer has gained the references in order, and with
-- -record_file each address the number of its executions that accessed memory.
pub run-Advances :
    (k : Knobs) (es : List (Bool × List (Ins × Operands))) (s : Traced)
    → All (λ e. length e.1 < 2 ^ 64) es
    → (s' : Traced) × (run k es s ≡ some s')
      × Advances k
          (length (executed es))
          (mem_count (map (λ x. x.0) (executed es)))
          (executed es)
          s
          s'
unfolding run
run-Advances k [] s h = (
  s,
  refl,
  record {
    ins_executed = omega arith;
    mem_ins_executed = omega arith;
    memrefs = sym (append-nil s.memrefs);
    frequency = λ pc. ground arith;
  },
)
run-Advances k ((call_first, xs) ∷ rest) s (h, hs) =
    let b = map (λ x. x.0) xs in
    let (s1, e1, a1) = run_bbl_lem k call_first xs (length b) (mem_count b) s in
    let (s2, e2, a2) = run-Advances k rest s1 hs in
    (
      s2,
      rw (instrument_bbl_lem k b (omega (arith, length-firsts xs, h)), e1) e2,
      Advances-trans k (omega (arith, length-append xs (executed rest), length-firsts xs))
          (ap mem_count (firsts-append xs (executed rest))
            ∙ mem_count-append b (map (λ x. x.0) (executed rest)))
          refl a1 a2,
    )
