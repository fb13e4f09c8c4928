-- ===== src/System/Tests.antt =====
-- A file that cannot be mapped, and a command that prints two lines.
use network_demo.Base.{◌≡◌, refl, [], ◌∷◌, ◌++◌, some, none}
use network_demo.Base.Text.{codes}
use network_demo.System.{
  opened, closed, told_error, returned, exited, mmap_file, handle_error, exe_cmd, read_lines,
  c_string,
}

unmappable :
    mmap_file (record { open_file = some 3; file_size = some 9; map_at = none }) []
    ≡ exited (told_error (codes "mmap") ∷ opened 3 ∷ [])
unfolding mmap_file handle_error
unmappable = refl

two_lines :
    exe_cmd
      (some 4)
      ((codes "a" ++ (10 ∷ 0 ∷ [])) ∷ (codes "b" ++ (0 ∷ 7 ∷ [])) ∷ [])
      (codes "ls")
      []
    ≡ returned (codes "a" ++ (10 ∷ codes "b")) (closed 4 ∷ opened 4 ∷ [])
unfolding exe_cmd read_lines c_string
two_lines = refl
