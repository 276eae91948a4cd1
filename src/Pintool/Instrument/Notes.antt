-- ===== src/Pintool/Instrument/Notes.antt =====
-- What Trace of src/pintool/bullettime.cpp notes of each instruction for the table of Fini, with
-- -record_file, and the cells that Fini makes of it.
use bullet_time.Prelude.{
  ℕ, List, [], ◌∷◌, ◌++◌, Option, none, some, length, take, ltb, ◌==◌, if◌then◌else◌,
}
use bullet_time.Prelude.Words.{add64}
use bullet_time.Prelude.Text.{Text, codes}
use bullet_time.Pintool.Instrument.{Ins, accesses_memory}

-- `m[key] = value` and `m[key]` of a std::map; a missing key reads as `default`.
module _ {A : Type 0} where
  abbrev pub assign : ℕ → A → List (ℕ × A) → List (ℕ × A)
  assign key value [] = (key, value) ∷ []
  assign key value ((q, v) ∷ rest) =
      let more = assign key value rest in if q == key then (q, value) ∷ rest else (q, v) ∷ more

  abbrev pub lookup : (default : A) → ℕ → List (ℕ × A) → A
  lookup default key [] = default
  lookup default key ((q, v) ∷ rest) = if q == key then v else lookup default key rest

-- `div` divides two numbers as doubles, in `F`.
module _ {F : Type 0} (div : ℕ → ℕ → F) where
  pub record Notes : Type 0 where
    pub pc_ins_string : List (ℕ × Text)
    pub pc_ins_function : List (ℕ × Text)
    pub pc_ins_ratio : List (ℕ × F)

  -- The name of the trace's routine, where it has one.
  abbrev pub function_name : Option Text → Text
  function_name none = codes "unknown"
  function_name (some name) = name

  abbrev pub note_ins : (fname : Text) → Ins → Notes → Notes
  note_ins fname i n =
      if accesses_memory i
      then record n {
        pc_ins_string = assign i.address i.disassembly n.pc_ins_string;
        pc_ins_function = assign i.address fname n.pc_ins_function;
      }
      else n

  abbrev pub note_all : (fname : Text) → List Ins → Notes → Notes
  note_all fname [] n = n
  note_all fname (i ∷ rest) n = note_all fname rest (note_ins fname i n)

  abbrev pub trace_mem_ins : List Ins → ℕ
  trace_mem_ins [] = 0
  trace_mem_ins (i ∷ rest) =
      let m = trace_mem_ins rest in if accesses_memory i then add64 m 1 else m

  -- The second pass: every instruction of the trace takes the same ratio.
  abbrev pub note_ratios : F → List Ins → Notes → Notes
  note_ratios ratio [] n = n
  note_ratios ratio (i ∷ rest) n =
      note_ratios ratio rest (record n { pc_ins_ratio = assign i.address ratio n.pc_ins_ratio })

  -- `code` has the trace's instructions, block after block.
  unfoldable pub note_trace : (rtn_name : Option Text) → (code : List Ins) → Notes → Notes
  note_trace rtn_name code n =
      let m = trace_mem_ins code in
      note_ratios (div m m) code (note_all (function_name rtn_name) code n)

  abbrev pub capped : Text → Text
  capped fname = if ltb 50 (length fname) then take 50 fname ++ codes "..." else fname

  -- A row of Fini's table; `hexstr`, `to_string` and `fixed` write numbers.
  unfoldable pub hot_row :
      (hexstr to_string : ℕ → Text) (fixed : F → Text) (zero_ratio : F) → Notes → ℕ × ℕ → List Text
  hot_row hexstr to_string fixed zero_ratio n (pc, count) =
      hexstr pc
      ∷ to_string count
      ∷ capped (lookup [] pc n.pc_ins_function)
      ∷ fixed (lookup zero_ratio pc n.pc_ins_ratio)
      ∷ lookup [] pc n.pc_ins_string
      ∷ []
