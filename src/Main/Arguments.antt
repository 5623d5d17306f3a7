-- ===== src/Main/Arguments.antt =====
-- What main makes of the command line.
use simpel_dateisystem.Base.{
  ◌+◌, ◌-◌, ◌<◌, ◌≡◌, refl, sym, ap, ◌∙◌, Bool, false, List, [], ◌∷◌, ◌++◌, ◌||◌, ltb,
  if◌then◌else◌, length, take, length-append, take-append, append_assoc, le→ltb_false, arith,
}
use simpel_dateisystem.Base.Outcome.{ok}
use simpel_dateisystem.Base.CString.{Text}
use simpel_dateisystem.Main.{
  World, Ended, aborted, enter_fuse, arg_at, set_arg, is_option, is_usage_error, log_open, start,
  main,
}

arg_at-append : (xs ys : List Text) (y : Text) → arg_at (xs ++ (y ∷ ys)) (length xs) ≡ ok y
unfolding arg_at
arg_at-append [] ys y = refl
arg_at-append (x ∷ xs) ys y = arg_at-append xs ys y

set_arg-append :
    (xs ys : List Text) (y z : Text) → set_arg (xs ++ (y ∷ ys)) (length xs) z ≡ ok (xs ++ (z ∷ ys))
unfolding set_arg
set_arg-append [] ys y z = refl
set_arg-append (x ∷ xs) ys y z = rw (set_arg-append xs ys y z) refl

-- What main should do with the arguments in front of the last two, and these two.
abbrev pub answer : World → List Text → Text → Text → Ended
answer world [] disk_file mount_point = aborted
answer world (program ∷ options) disk_file mount_point =
    if is_option disk_file || is_option mount_point
    then aborted
    else if world.malloc
    then enter_fuse world ((program ∷ options) ++ (mount_point ∷ [])) disk_file world.fopen
    else aborted

module _ (front : List Text) (disk_file mount_point : Text) where
  abbrev argv : List Text
  argv = front ++ (disk_file ∷ (mount_point ∷ []))

  argc : length argv ≡ length front + 2
  argc = length-append front (disk_file ∷ (mount_point ∷ []))

  arg_at-disk_file : arg_at argv (length argv - 2) ≡ ok disk_file
  arg_at-disk_file =
      let i : length argv - 2 ≡ length front = omega (arith, argc) in
      ap (arg_at argv) i ∙ arg_at-append front (mount_point ∷ []) disk_file

  arg_at-mount_point : arg_at argv (length argv - 1) ≡ ok mount_point
  arg_at-mount_point =
      let i : length argv - 1 ≡ length (front ++ (disk_file ∷ [])) =
        omega (arith, argc, length-append front (disk_file ∷ [])) in
      ap (arg_at argv) i
      ∙ ap (λ l. arg_at l (length (front ++ (disk_file ∷ []))))
          (sym (append_assoc front (disk_file ∷ []) (mount_point ∷ [])))
      ∙ arg_at-append (front ++ (disk_file ∷ [])) [] mount_point

  set_arg-mount_point :
      set_arg argv (length argv - 2) mount_point ≡ ok (front ++ (mount_point ∷ (mount_point ∷ [])))
  set_arg-mount_point =
      let i : length argv - 2 ≡ length front = omega (arith, argc) in
      ap (λ k. set_arg argv k mount_point) i
      ∙ set_arg-append front (mount_point ∷ []) disk_file mount_point

  arguments_left :
      take (length argv - 1) (front ++ (mount_point ∷ (mount_point ∷ [])))
      ≡ front ++ (mount_point ∷ [])
  arguments_left =
      let n : length argv - 1 ≡ length (front ++ (mount_point ∷ [])) =
        omega (arith, argc, length-append front (mount_point ∷ [])) in
      ap (λ k. take k (front ++ (mount_point ∷ (mount_point ∷ [])))) n
      ∙ ap (take (length (front ++ (mount_point ∷ []))))
          (sym (append_assoc front (mount_point ∷ []) (mount_point ∷ [])))
      ∙ take-append (front ++ (mount_point ∷ [])) (mount_point ∷ [])

  start_lem :
      (world : World)
      → start world argv ≡ ok (enter_fuse world (front ++ (mount_point ∷ [])) disk_file world.fopen)
  unfolding start log_open
  start_lem world =
      rw (arg_at-disk_file, arg_at-mount_point, set_arg-mount_point)
        (ap (λ l. ok (enter_fuse world l disk_file world.fopen)) arguments_left)

  is_usage_error_lem :
      0 < length front → is_usage_error argv ≡ ok (is_option disk_file || is_option mount_point)
  unfolding is_usage_error
  is_usage_error_lem h =
      let enough : ltb (length argv) 3 ≡ false = le→ltb_false _ _ (omega (arith, argc)) in
      rw (enough, arg_at-disk_file, arg_at-mount_point) refl

main_checked :
    (world : World) (front : List Text) (disk_file mount_point : Text)
    → 0 < length front
    → main world (front ++ (disk_file ∷ (mount_point ∷ []))) ≡ (
        if is_option disk_file || is_option mount_point
        then ok aborted
        else if world.malloc
        then ok (enter_fuse world (front ++ (mount_point ∷ [])) disk_file world.fopen)
        else ok aborted)
unfolding main
main_checked world front disk_file mount_point h =
    rw
      (
        is_usage_error_lem front disk_file mount_point h,
        start_lem front disk_file mount_point world,
      )
      refl

checked :
    (usage malloc : Bool) (e : Ended)
    → (if usage then ok aborted else if malloc then ok e else ok aborted)
      ≡ ok (if usage then aborted else if malloc then e else aborted)
checked usage malloc e = ground arith

-- main checks its arguments without leaving `argv`: with fewer than three, or where one of the last
-- two begins with '-', it aborts, as it does without memory. Otherwise it ends if the log cannot be
-- opened, and else returns what `fuse_main` does for the arguments without the last but one, which
-- becomes the disk file.
pub main_lem :
    (world : World) (front : List Text) (disk_file mount_point : Text)
    → (main world (front ++ (disk_file ∷ (mount_point ∷ [])))
        ≡ ok (answer world front disk_file mount_point))
      × (main world (mount_point ∷ []) ≡ ok aborted)
      × (main world [] ≡ ok aborted)
unfolding main is_usage_error
main_lem world [] disk_file mount_point = (refl, refl, refl)
main_lem world (program ∷ options) disk_file mount_point =
    let front = program ∷ options in
    (
      main_checked world front disk_file mount_point (omega arith)
          ∙ checked (is_option disk_file || is_option mount_point) world.malloc
              (enter_fuse world (front ++ (mount_point ∷ [])) disk_file world.fopen),
      refl,
      refl,
    )
