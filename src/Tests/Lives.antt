-- ===== src/Tests/Lives.antt =====
-- An example of a life: "/a" is made, the program ends and starts again, and "/a" is opened.
use mathlib.Core.Path.{subst}
use simpel_dateisystem.Base.{pos, pos_part, ◌≡◌, refl, ap, arith, Option, none, some, List, [], ◌∷◌}
use simpel_dateisystem.Base.Outcome.{Outcome, ok, fault, Ensures, ◌>>=◌}
use simpel_dateisystem.Base.CString.{codes}
use simpel_dateisystem.Store.{Store, start_store}
use simpel_dateisystem.Inodes.{find_file_or_dir}
use simpel_dateisystem.Inodes.Safe.{IsSafe}
use simpel_dateisystem.Mount.{sfs_init}
use simpel_dateisystem.Mount.Sound.{IsMounted}
use simpel_dateisystem.Sfs.{lookup_result, sfs_open}
use simpel_dateisystem.Sfs.Requests.{Request, mkdir, open_file, plain, handle}
use simpel_dateisystem.Sfs.Restart.{FoundAt, restart-find, restart-IsMounted}
use simpel_dateisystem.Table.{view}
use simpel_dateisystem.Table.Runs.{Runs}
use simpel_dateisystem.Table.Lives.{Restarts, Lives, begin, ask, restart, Lives-Runs}
use simpel_dateisystem.Links.{IsLinked}
use simpel_dateisystem.Links.Lives.{Lives-IsLinked}
use simpel_dateisystem.Tests.Data.{calm, calm-HasMemory, ne-root}
use simpel_dateisystem.Tests.Media.{kept, kept-ReadsBack}
use simpel_dateisystem.Tests.Handlers.{fresh, fresh-IsFresh, with_a, with_a-Reach, top-Fits}
use simpel_dateisystem.Tests.Restarts.{with_a_end, plain_reply, with_a_facts}

-- The store after sfs_init.
abbrev started : Outcome (Option Store) → Store
started (ok (some s)) = s
started (ok none) = start_store
started fault = start_store

started_lem : (r : Outcome (Option Store)) → Ensures IsMounted r → r ≡ ok (some (started r))
started_lem (ok (some s)) h = refl
started_lem (ok none) h = elim h [ ]
started_lem fault h = elim h [ ]

abbrev reborn : Store
reborn = started (sfs_init (kept with_a_end.writes) calm start_store)

reborn_starts : sfs_init (kept with_a_end.writes) calm start_store ≡ ok (some reborn)
reborn_starts = started_lem (sfs_init (kept with_a_end.writes) calm start_store) (
    restart-IsMounted 2000000 fresh with_a with_a_end calm calm (kept with_a_end.writes) 5 7
      fresh-IsFresh with_a-Reach with_a_facts.count (omega arith) (omega arith)
      (λ before call. refl) with_a_facts.ends refl (kept-ReadsBack with_a_end.writes)
      (λ read. (with_a_facts.last read).sane))

reborn_finds : find_file_or_dir calm reborn (codes "/a") ≡ ok (some 1)
reborn_finds = subst (Ensures (FoundAt calm (codes "/a") 1)) reborn_starts (
    restart-find 2000000 fresh with_a with_a_end calm calm calm calm (kept with_a_end.writes) 5 8 1
      (codes "/a") fresh-IsFresh with_a-Reach with_a_facts.count (omega arith) calm-HasMemory
      calm-HasMemory (ne-root (codes "/a") (omega arith)) with_a_facts.found (omega arith)
      (λ before call. refl) with_a_facts.ends refl (kept-ReadsBack with_a_end.writes))

reborn_opens : handle calm reborn (open_file (codes "/a")) ≡ ok (plain_reply, reborn)
unfolding handle sfs_open
reborn_opens = ap (λ r. (r >>= (λ f. ok (lookup_result reborn f))) >>= plain) reborn_finds

abbrev reborn_restart : Restarts with_a reborn
reborn_restart = record {
  end_env = calm;
  start_env = calm;
  ended = with_a_end;
  disk = kept with_a_end.writes;
  descriptor = 5;
  last = 7;
  count = with_a_facts.count;
  some_before = omega arith;
  few = omega arith;
  unused = with_a_facts.unused;
  takes = λ before call. refl;
  ends = with_a_facts.ends;
  opens = refl;
  reads_back = kept-ReadsBack with_a_end.writes;
  free_end = with_a_facts.last;
  starts = reborn_starts;
}

abbrev requests : List Request
requests = open_file (codes "/a") ∷ mkdir (codes "/a") 493 ∷ []

abbrev life : Lives fresh requests (pos 0 ∷ pos 0 ∷ []) reborn
life =
    ask calm (open_file (codes "/a")) plain_reply
      (restart
        (ask calm (mkdir (codes "/a") 493) plain_reply begin calm-HasMemory top-Fits
          with_a_facts.made)
        reborn_restart)
      calm-HasMemory tt reborn_opens

Lives-Runs_example : IsSafe reborn × Runs (view fresh) requests (pos 0 ∷ pos 0 ∷ []) (view reborn)
Lives-Runs_example =
    let count : (view fresh).count ≡ 8 = ap pos_part with_a_facts.fresh_count in
    Lives-Runs 2000000 fresh-IsFresh (omega arith) life

Lives-IsLinked_example : IsLinked reborn
Lives-IsLinked_example =
    let count : (view fresh).count ≡ 8 = ap pos_part with_a_facts.fresh_count in
    Lives-IsLinked 2000000 fresh-IsFresh (omega arith) life
      (tt, (with_a_facts.bare, ((λ q. absurd (ground (arith, q))), tt)))
