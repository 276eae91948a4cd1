-- ===== src/Consumer/OptionsTests.antt =====
-- The theorem on the options of main at inputs that meet its hypotheses.
use bullet_time.Prelude.{◌≡◌, refl, true, false, List, [], ◌∷◌, ◌++◌, arith}
use bullet_time.Prelude.Text.{codes, IsDecimal}
use bullet_time.Consumer.Options.{defaults, Flag, kernel_dilation, started, returned_1, main_start}
use bullet_time.Consumer.Options.Settings.{
  Setting, sleep_for, turn, flag_text, arguments, settled, main_start-settings,
}

abbrev settings : List Setting
settings = turn kernel_dilation true ∷ sleep_for (codes "10") 10 ∷ turn kernel_dilation false ∷ []

ten : IsDecimal (codes "10") 10
ten = record {
  digits = ((omega arith, omega arith), ((omega arith, omega arith), tt));
  some_digit = cc;
  value = refl;
}

main_start-settings_example :
    (main_start false (codes "/tmp/bt" ∷ arguments settings)
      ≡ started (codes "/tmp/bt") (settled settings defaults) true true)
    × ((f : Flag)
        → main_start false (codes "/tmp/bt" ∷ (arguments settings ++ flag_text f ∷ []))
          ≡ returned_1)
main_start-settings_example =
    main_start-settings false (codes "/tmp/bt") settings (tt, ((ten, omega arith), (tt, tt)))
