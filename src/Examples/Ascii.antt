-- ===== src/Examples/Ascii.antt =====
-- The conversion of strings.
use os_study.Prelude.{[], ◌∷◌, ◌≡◌, some, codes, arith}
use os_study.AsciiConvert.{Text, Output, main}
use os_study.AsciiConvert.RoundTrip.{main_decodes}

main_decodes_example :
    (code : Text) × (main (codes "-e" ∷ codes "Hi" ∷ []) ≡ some (Output.line code))
    × (main (codes "-d" ∷ code ∷ []) ≡ some (Output.line (codes "Hi")))
main_decodes_example = main_decodes (codes "Hi") [] (omega arith, (omega arith, tt))
