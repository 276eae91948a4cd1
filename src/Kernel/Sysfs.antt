-- ===== src/Kernel/Sysfs.antt =====
-- The state of src/kernel_dilation/sleep_dilation.c and its sysfs attributes.
-- `kstrtouint` and `kstrtoint` belong to the kernel and are parameters.
use bullet_time.Prelude.{ℕ, ◌⊎◌, inl, inr}

-- The file's static variables.
pub record Settings : Type 0 where
  pub dilation_factor : ℕ
  pub target_pid : ℕ

-- DILATION_DENOMINATOR
abbrev pub dilation_denominator : ℕ
dilation_denominator = 1000

abbrev pub initial : Settings
initial = record { dilation_factor = 1000; target_pid = 0 }

-- What a `store` returns: the error code, or the count of bytes taken.
pub data Reply : Type 0 where
  error : ℕ → Reply
  accepted : ℕ → Reply

module _ {Text : Type 0} (kstrtouint : Text → ℕ ⊎ ℕ) where
  unfoldable pub dilation_factor_store : Text → ℕ → Settings → Reply × Settings
  dilation_factor_store buf count s = elim (kstrtouint buf) [
    | inl res ↦ (error res, s)
    | inr val ↦ (accepted count, record s { dilation_factor = val })
  ]

module _ {Text : Type 0} (kstrtoint : Text → ℕ ⊎ ℕ) where
  -- `kstrtoint` writes through its pointer only when it succeeds.
  unfoldable pub target_pid_store : Text → ℕ → Settings → Reply × Settings
  target_pid_store buf count s = elim (kstrtoint buf) [
    | inl res ↦ (error res, s)
    | inr val ↦ (accepted count, record s { target_pid = val })
  ]
