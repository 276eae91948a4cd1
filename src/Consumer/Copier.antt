-- ===== src/Consumer/Copier.antt =====
-- A compressor for tests. It copies what fits, and fails where its input does not fit.
use bullet_time.Prelude.{ℕ, ◌≡◌, refl, [], arith, length, leb, ◌==◌, if◌then◌else◌}
use bullet_time.Consumer.Listen.{Sizes, Zstd}
use bullet_time.Consumer.Listen.Stored.{take_all}
use bullet_time.Consumer.Listen.Invariant.{IsStream}

abbrev pub copier : Zstd ℕ
copier = record {
  create = 0;
  compress = λ is_end room c x.
      if leb (length x) room
      then record { ctx = c; output = x; consumed = length x; remaining = 0 }
      else record { ctx = c; output = []; consumed = 0; remaining = 1 };
  is_error = λ r. r == 1;
}

pub copier-IsStream : (sz : Sizes) → IsStream sz copier (λ x. x)
copier-IsStream sz = record {
  Emits = λ c i o. i ≡ o;
  created = refl;
  flushed = λ c i o x room e fine. ground (arith, take_all (length x) x);
  flushed_all = λ c x room h h2 fine. ground arith;
  ended = λ c i o x e done. ground arith;
}
