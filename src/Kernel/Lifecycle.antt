-- ===== src/Kernel/Lifecycle.antt =====
-- sleep_dilation_init and sleep_dilation_exit of src/kernel_dilation/sleep_dilation.c, as the
-- sequences of registrations and removals that they make.
use bullet_time.Prelude.{
  ℕ, ◌≡◌, Bool, true, false, List, [], ◌∷◌, ◌++◌, Option, none, some, arith, ◌==◌, if◌then◌else◌,
}

pub data Resource : Type 0 where
  kobject sysfs_group sched_timeout_probe hrtimer_nanosleep_probe : Resource

pub data Effect : Type 0 where
  add remove : Resource → Effect

-- How the kernel answers: `kobject_create_and_add`, and the error codes of the three other calls,
-- 0 for success. Of `register_kprobe` only a negative code is an error; codes are given by their
-- absolute value.
pub record Answers : Type 0 where
  pub kobject_created : Bool
  pub group_error : ℕ
  pub sched_error : ℕ
  pub hrtimer_error : ℕ

-- ENOMEM
abbrev pub no_memory : ℕ
no_memory = 12

-- The error code, and what was done.
unfoldable pub sleep_dilation_init : Answers → ℕ × List Effect
sleep_dilation_init a =
    if a.kobject_created
    then (if a.group_error == 0
        then (if a.sched_error == 0
            then (if a.hrtimer_error == 0
                then (
                  0,
                  add kobject
                      ∷ add sysfs_group
                      ∷ add sched_timeout_probe
                      ∷ add hrtimer_nanosleep_probe
                      ∷ [],
                )
                else (
                  a.hrtimer_error,
                  add kobject
                      ∷ add sysfs_group
                      ∷ add sched_timeout_probe
                      ∷ remove sched_timeout_probe
                      ∷ remove sysfs_group
                      ∷ remove kobject
                      ∷ [],
                ))
            else (
              a.sched_error,
              add kobject ∷ add sysfs_group ∷ remove sysfs_group ∷ remove kobject ∷ [],
            ))
        else (a.group_error, add kobject ∷ remove kobject ∷ []))
    else (no_memory, [])

unfoldable pub sleep_dilation_exit : List Effect
sleep_dilation_exit =
    remove hrtimer_nanosleep_probe
    ∷ remove sched_timeout_probe
    ∷ remove sysfs_group
    ∷ remove kobject
    ∷ []

abbrev same : Resource → Resource → Bool
same kobject kobject = true
same sysfs_group sysfs_group = true
same sched_timeout_probe sched_timeout_probe = true
same hrtimer_nanosleep_probe hrtimer_nanosleep_probe = true
same _ _ = false

-- The resources held, the newest first. A removal is in order if it takes the newest one.
abbrev pub perform : List Effect → List Resource → Option (List Resource)
perform [] held = some held
perform (add r ∷ es) held = perform es (r ∷ held)
perform (remove r ∷ es) [] = none
perform (remove r ∷ es) (h ∷ held) = if same r h then perform es held else none

-- `init`, and after it `exit` if `init` returned 0, remove always the newest resource that is held,
-- and leave none.
pub init-balanced :
    (a : Answers)
    → let (code, effects) = sleep_dilation_init a in
      perform (effects ++ (if code == 0 then sleep_dilation_exit else [])) [] ≡ some []
unfolding sleep_dilation_init sleep_dilation_exit
init-balanced a = ground arith

-- `init` ends with all four resources held exactly when it returns 0, and otherwise with none.
init-held :
    (a : Answers)
    → let (code, effects) = sleep_dilation_init a in
      perform effects []
      ≡ some (
          if code == 0
          then hrtimer_nanosleep_probe ∷ sched_timeout_probe ∷ sysfs_group ∷ kobject ∷ []
          else [])
unfolding sleep_dilation_init
init-held a = ground arith
