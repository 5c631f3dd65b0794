-- ===== src/Suppress/Tests.antt =====
-- Directives on concrete scripts, and the theorems on suppression at them.
use dbopt.Base.{◌≡◌, ◌↔◌, refl, true, false, none, some, ◌++◌, any}
use dbopt.Base.Bytes.{Bytes, codes, is_alnum}
use dbopt.Base.Text.{trim}
use dbopt.Tokens.{tokenize}
use dbopt.Tokens.Literals.{literal}
use dbopt.Suppress.{spec_matches, suppresses_nothing, directive_in, parse, covers}
use dbopt.Suppress.Refine.{says, directives, covers-parse}
use dbopt.Suppress.Names.{Names, spec_matches_iff}
use dbopt.Suppress.Inert.{
  tokens_behind, covers-literal, file_word, next_word, line_word, directive_in_misspelt,
}

abbrev nolock : Bytes
nolock = codes "hygiene.nolock"

abbrev star : Bytes
star = codes "hygiene.select_star"

spec_forms :
    (spec_matches nolock nolock ≡ true)
    × (spec_matches (codes "HYGIENE") nolock ≡ true)
    × (spec_matches (codes " hygiene.* ") nolock ≡ true)
    × (spec_matches (codes "*") nolock ≡ true)
    × (spec_matches (codes "hyg") nolock ≡ false)
unfolding spec_matches
spec_forms = (refl, refl, refl, refl, refl)

abbrev script : Bytes
script =
    codes
      "SELECT * FROM t;   -- dbopt-ignore hygiene.select_star\n-- dbopt-ignore-next-line hygiene.nolock\nSELECT 1 FROM t WITH (NOLOCK);\n"

same_line_and_next_line :
    (covers (parse script) star (some 1) ≡ true)
    × (covers (parse script) nolock (some 1) ≡ false)
    × (covers (parse script) nolock (some 3) ≡ true)
unfolding parse covers
same_line_and_next_line = (refl, refl, refl)

abbrev banner : Bytes
banner = codes "/*\n   Deployment note.\n   dbopt-ignore-file: hygiene\n*/\nSELECT * FROM Orders;\n"

later_line :
    (covers (parse banner) star (some 5) ≡ true)
    × (covers (parse banner) (codes "sarg.function_on_column") none ≡ false)
unfolding parse covers
later_line = (refl, refl)

misspelt :
    suppresses_nothing (parse (codes "-- dbopt-ignore-files hygiene\nSELECT * FROM t;\n")) ≡ true
unfolding parse
misspelt = refl

covers-parse_example :
    covers (parse script) nolock (some 3)
    ≡ any (says nolock (some 3)) (directives (tokenize script))
covers-parse_example = covers-parse script nolock (some 3)

spec_matches_iff_example :
    (spec_matches (codes "Hygiene") nolock ≡ true) ↔ Names (trim (codes "Hygiene")) nolock
unfolding trim
spec_matches_iff_example = spec_matches_iff (codes "Hygiene") nolock refl

abbrev stored : Bytes
stored = codes "how to silence a rule:\n-- dbopt-ignore-file\n"

covers-literal_example :
    covers (parse (literal stored ++ codes ";\n--dbopt-ignore\n")) nolock (some 4)
    ≡ any (says nolock (some 4)) (directives (tokens_behind stored (codes ";\n--dbopt-ignore\n")))
covers-literal_example = covers-literal stored (codes ";\n--dbopt-ignore\n") nolock (some 4) refl

covers-literal_run :
    (covers (parse (literal stored ++ codes ";\n--dbopt-ignore\n")) nolock (some 4) ≡ true)
    × (covers (parse (literal stored ++ codes ";\n--dbopt-ignore\n")) nolock (some 3) ≡ false)
unfolding parse covers
covers-literal_run = (refl, refl)

directive_in_misspelt_example :
    (directive_in 1 2 (file_word ++ codes "s hygiene") ≡ none)
    × (directive_in 1 2 (next_word ++ codes "s hygiene") ≡ none)
    × (directive_in 1 2 (line_word ++ codes "s hygiene") ≡ none)
unfolding is_alnum
directive_in_misspelt_example = directive_in_misspelt 1 2 b's' (codes " hygiene") refl
