-- ===== src/Pintool/Instrument/Advances.antt =====
-- The measure of an execution of traced code, from its instructions alone.
use bullet_time.Prelude.{
  ℕ, ◌+◌, ◌%◌, ◌^◌, ◌≡◌, refl, sym, ap, ◌∙◌, Bool, true, false, ◌&&◌, List, [], ◌∷◌, ◌++◌,
  append_assoc, ◌==◌, if◌then◌else◌, arith,
}
use bullet_time.Pintool.Statistics.{count}
use bullet_time.Pintool.Instrument.{
  Memref, Ins, Operands, Knobs, accesses_memory, only, Traced, memref_of,
}

abbrev pub mem_count : List Ins → ℕ
mem_count [] = 0
mem_count (i ∷ rest) = (if accesses_memory i then 1 else 0) + mem_count rest

-- The references of an execution: of each instruction the read, then the write.
abbrev pub references : List (Ins × Operands) → List Memref
references [] = []
references ((i, o) ∷ rest) =
    only i.is_memory_read (memref_of i o true)
    ++ only i.is_memory_write (memref_of i o false)
    ++ references rest

-- How often the instruction at `pc` accessed memory.
abbrev pub hits : (pc : ℕ) → List (Ins × Operands) → ℕ
hits pc [] = 0
hits pc ((i, o) ∷ rest) = (if accesses_memory i && (i.address == pc) then 1 else 0) + hits pc rest

abbrev pub executed : List (Bool × List (Ins × Operands)) → List (Ins × Operands)
executed [] = []
executed ((_, xs) ∷ rest) = xs ++ executed rest

-- From `s` to `s'` the counters gain `ins` and `mem_ins`, and the instructions `xs` are recorded.
pub record Advances (k : Knobs) (ins mem_ins : ℕ) (xs : List (Ins × Operands)) (s s' : Traced)
    : Type 0 where
  pub ins_executed :
      s'.thread.statistics.ins_executed % 2 ^ 64 ≡ (s.thread.statistics.ins_executed + ins) % 2 ^ 64
  pub mem_ins_executed :
      s'.thread.statistics.mem_ins_executed % 2 ^ 64
      ≡ (s.thread.statistics.mem_ins_executed + mem_ins) % 2 ^ 64
  pub memrefs : s'.memrefs ≡ s.memrefs ++ references xs
  pub frequency :
      (pc : ℕ)
      → count pc s'.thread.statistics.ins_freqs % 2 ^ 64
        ≡ (count pc s.thread.statistics.ins_freqs + (if k.record_freq then hits pc xs else 0))
          % 2 ^ 64

references-append :
    (xs ys : List (Ins × Operands)) → references (xs ++ ys) ≡ references xs ++ references ys
references-append [] ys = refl
references-append ((i, o) ∷ xs) ys = rw (references-append xs ys) simp (append_assoc)

hits-append :
    (pc : ℕ) (xs ys : List (Ins × Operands)) → hits pc (xs ++ ys) ≡ hits pc xs + hits pc ys
hits-append pc [] ys = omega arith
hits-append pc (x ∷ xs) ys = omega (arith, hits-append pc xs ys)

module _ (k : Knobs) where
  pub Advances-trans :
      {a b c d p q : ℕ} {xs ys zs : List (Ins × Operands)} {s s' s'' : Traced}
      → p ≡ a + c
      → q ≡ b + d
      → zs ≡ xs ++ ys
      → Advances k a b xs s s'
      → Advances k c d ys s' s''
      → Advances k p q zs s s''
  Advances-trans {xs = xs} {ys = ys} {s = s} ep eq ez h g = record {
    ins_executed = omega (arith, ep, h.ins_executed, g.ins_executed);
    mem_ins_executed = omega (arith, eq, h.mem_ins_executed, g.mem_ins_executed);
    memrefs =
        g.memrefs
        ∙ ap (λ m. m ++ references ys) h.memrefs
        ∙ append_assoc s.memrefs (references xs) (references ys)
        ∙ ap (λ m. s.memrefs ++ m) (sym (references-append xs ys))
        ∙ ap (λ z. s.memrefs ++ references z) (sym ez);
    frequency = λ pc. rw (ez, hits-append pc xs ys) ground (arith, h.frequency pc, g.frequency pc);
  }
