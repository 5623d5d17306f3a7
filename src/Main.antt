-- ===== src/Main.antt =====
-- The start of the program: main and sfs_usage of src/sfs.c, and log_open of src/log.c.
pub mod Arguments
use simpel_dateisystem.Base.{
  ℕ, zero, suc, ℤ, pos, ◌-◌, Bool, true, false, Option, none, some, List, [], ◌∷◌, ◌||◌, ltb, ◌==◌,
  if◌then◌else◌, length, take,
}
use simpel_dateisystem.Base.Outcome.{Outcome, ok, fault, ◌>>=◌}
use simpel_dateisystem.Base.CString.{Text}

-- `struct sfs_state`, with the stream of the log as a number
pub record SfsState : Type 0 where
  pub logfile : ℕ
  pub diskfile : Text

-- How main ends: by `abort`, by `exit(EXIT_FAILURE)`, or by a return.
pub data Ended : Type 0 where
  aborted : Ended
  exited : Ended
  returned : ℤ → Ended

-- What the libraries do in a run of main: whether `malloc` gives memory, the stream that `fopen`
-- returns, and the result of `fuse_main` for its arguments, the variable `diskFile` and the private
-- data.
pub record World : Type 0 where
  pub malloc : Bool
  pub fopen : Option ℕ
  pub fuse_main : List Text → Text → SfsState → ℤ

-- `argv[i]`, with `i` an `int` in 0 .. argc-1
unfoldable pub arg_at : List Text → ℕ → Outcome Text
arg_at [] i = fault
arg_at (a ∷ argv) zero = ok a
arg_at (a ∷ argv) (suc i) = arg_at argv i

-- `argv[i] = a`
unfoldable pub set_arg : List Text → ℕ → Text → Outcome (List Text)
set_arg [] i b = fault
set_arg (a ∷ argv) zero b = ok (b ∷ argv)
set_arg (a ∷ argv) (suc i) b = set_arg argv i b >>= (λ rest. ok (a ∷ rest))

-- `arg[0] == '-'`
abbrev pub is_option : Text → Bool
is_option [] = false
is_option (c ∷ rest) = c == b'-'

-- The test of the command line. The arguments are looked at only if there are enough.
unfoldable pub is_usage_error : List Text → Outcome Bool
is_usage_error argv = if ltb (length argv) 3 then ok true else do
  disk_file ← arg_at argv (length argv - 2)
  mount_point ← arg_at argv (length argv - 1)
  ok (is_option disk_file || is_option mount_point)

-- `none` is the exit of the program.
unfoldable pub log_open : World → Option ℕ
log_open world = world.fopen

-- The call of `fuse_main`, with the log that log_open has opened.
abbrev pub enter_fuse : World → List Text → Text → Option ℕ → Ended
enter_fuse world argv disk_file none = exited
enter_fuse world argv disk_file (some log) =
    returned (world.fuse_main argv disk_file (record { logfile = log; diskfile = disk_file }))

-- main behind its check. The last argument becomes NULL, and `argc` one less.
unfoldable pub start : World → List Text → Outcome Ended
start world argv = do
  disk_file ← arg_at argv (length argv - 2)
  mount_point ← arg_at argv (length argv - 1)
  moved ← set_arg argv (length argv - 2) mount_point
  ok (enter_fuse world (take (length argv - 1) moved) disk_file (log_open world))

-- sfs_usage prints and aborts.
abbrev pub sfs_usage : Ended
sfs_usage = aborted

-- `argv` is taken without the NULL at its end.
unfoldable pub main : World → List Text → Outcome Ended
main world argv = do
  usage ← is_usage_error argv
  if usage then ok sfs_usage else if world.malloc then start world argv else ok aborted
