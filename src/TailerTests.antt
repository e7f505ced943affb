-- ===== src/TailerTests.antt =====
-- A log of pkg/tailer that grows twice while it is read, two bytes at a time.
use mistry.Base.{◌≡◌, refl, some, List, [], ◌∷◌, ◌++◌, arith, nat_eq, list_eq}
use mistry.Base.Text.{Str, codes}
use mistry.Base.Int.{pos}
use mistry.Paths.{FilePath}
use mistry.System.{State, syscall}
use mistry.Files.{file, text, put_node, read_file}
use mistry.Tailer.{new_tailer, read_on}
use mistry.Tailer.Growing.{Grows, repeated, read_on-appended}
use mistry.Fixture.{calm, start_state, installed, pieces}

abbrev log_path : FilePath
log_path = pieces ("build" ∷ "out.log" ∷ [])

abbrev opened : State
opened = start_state (put_node log_path (some (file (text (codes "one")))) installed)

abbrev turns : List Str
turns = codes "one" ∷ codes "one two" ∷ codes "one two three" ∷ []

read_on-appended_example :
    codes "one"
      ++ read_on 20 2 (record { offset = 3 }) (turns ++ repeated 13 (codes "one two three"))
    ≡ codes "one two three"
unfolding new_tailer syscall read_file Grows
read_on-appended_example =
    read_on-appended (calm (pos 0)) log_path opened (record { offset = 3 }) (codes "one") turns 1 13
      20 refl refl (([], refl), ((codes " two", refl), ((codes " three", refl), tt))) (omega arith)
      (omega arith)
