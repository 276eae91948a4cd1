-- ===== src/Consumer/Listen/Stored.antt =====
-- Facts on parts of lists, and on `write` at the end of a file and anywhere in it.
use bullet_time.Prelude.{
  ℕ, zero, suc, ◌+◌, ◌≤◌, ◌≡◌, refl, List, [], ◌∷◌, ◌++◌, append-nil, arith, length, take, drop,
  length-append, length-take, length-drop,
}
use bullet_time.Consumer.Listen.{OutFile, write_bytes}

module _ {ℓ} {A : Type ℓ} where
  pub take_all : (n : ℕ) (xs : List A) → length xs ≤ n → take n xs ≡ xs
  take_all zero [] h = refl
  take_all zero (x ∷ xs) h = absurd (omega arith)
  take_all (suc n) [] h = refl
  take_all (suc n) (x ∷ xs) h = rw (take_all n xs (omega arith))

  pub drop_all : (n : ℕ) (xs : List A) → length xs ≤ n → drop n xs ≡ []
  drop_all zero [] h = refl
  drop_all zero (x ∷ xs) h = absurd (omega arith)
  drop_all (suc n) [] h = refl
  drop_all (suc n) (x ∷ xs) h = drop_all n xs (omega arith)

-- A write that is not cut off, at the end of the file, appends.
pub write_bytes_end :
    (bytes : List ℕ) (n : ℕ) (f : OutFile)
    → f.pos ≡ length f.content
    → n ≡ length bytes
    → write_bytes bytes n f
      ≡ record { content = f.content ++ bytes; pos = length f.content + length bytes }
unfolding write_bytes
write_bytes_end bytes n f e en = rw (
  take_all n bytes (omega arith),
  take_all f.pos f.content (omega arith),
  drop_all (f.pos + length bytes) f.content (omega arith),
  append-nil bytes,
  e,
)

-- No write makes a file shorter.
pub length-write_bytes :
    (bytes : List ℕ) (n : ℕ) (f : OutFile)
    → length f.content ≤ length (write_bytes bytes n f).content
unfolding write_bytes
length-write_bytes bytes n f =
    let done = take n bytes in
    omega (
      arith,
      length-append (take f.pos f.content) (done ++ drop (f.pos + length done) f.content),
      length-append done (drop (f.pos + length done) f.content),
      length-take f.pos f.content,
      length-drop (f.pos + length done) f.content,
    )
