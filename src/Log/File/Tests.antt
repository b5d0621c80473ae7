-- ===== src/Log/File/Tests.antt =====
-- A log file of two lines.
use myrpc.Base.{
  codes, beq, List, [], ◌∷◌, ◌++◌, none, some, Bool, true, false, ◌≡◌, refl, pos, Bytes, ℕ, decimal,
  has_prefix,
}
use myrpc.Log.File.{
  Files, put, FileBackend, Entry, log, logged, write, do_rotate, free_number, start_logger,
  new_default_file_backend, delete_old_log,
}
use myrpc.Log.File.Kept.{no_faults, IsOpen}
use myrpc.Log.File.Runs.{Event, logs, deletes, step, run, lines, run-Whole}
use myrpc.Log.File.Whole.{Whole}
use myrpc.Log.File.Old.{delete_old_log_keeps}

-- The first number of the day is taken.
abbrev files : Files
files =
    put (codes "log/a.log") (some (codes "one" ++ 10 ∷ []))
      (put (codes "log/a.2017-05-01.001.log") (some (codes "old")) (λ _. none))

abbrev backend : FileBackend
backend = record {
  running = true;
  filename = codes "log/a.log";
  file_writer = some (codes "log/a.log");
  max_lines = pos 2;
  cur_lines = 1;
  max_size = pos 0;
  cur_size = 4;
  daily = false;
  max_days = 7;
  daily_open_date = 1;
  rotate = true;
  file_name_only = codes "log/a";
  suffix = codes ".log";
  files = files;
  deleters = 0;
}

abbrev entry : Bytes → Entry
entry text = record { text = text; date = codes "2017-05-01"; day = 1; today = 1 }

abbrev every : Bytes → Bool
every _ = true

abbrev at_first : Bytes → ℕ
at_first _ = 0

-- The third line begins a new file, and the deletion that it starts runs before the fourth.
abbrev events : List Event
events =
    logs (entry (codes "two"))
    ∷ logs (entry (codes "three"))
    ∷ deletes 1000000 every at_first
    ∷ logs (entry (codes "four"))
    ∷ []

backend-IsOpen : IsOpen (codes "one" ++ 10 ∷ []) backend
unfolding put beq
backend-IsOpen = record { running = refl; file_writer = refl; file = refl; cur_size = refl }

archive_test :
    elim (run events backend) [ none ↦ none | some w ↦ w.files (codes "log/a.2017-05-01.002.log") ]
    ≡ some (codes "one" ++ (10 ∷ (codes "two" ++ 10 ∷ [])))
unfolding run step log logged write do_rotate free_number start_logger delete_old_log has_prefix put
    beq decimal
archive_test = refl

empty_test : log no_faults (entry []) backend ≡ none
unfolding log
empty_test = refl

name_test :
    elim (new_default_file_backend no_faults 1 (codes "log.d/a") files).1 [
      | none ↦ []
      | some w ↦ w.file_name_only ++ w.suffix
    ]
    ≡ codes "log.d/a.log"
unfolding new_default_file_backend start_logger beq put
name_test = refl

run-Whole_example :
    (w' : FileBackend) × (run events backend ≡ some w')
    × Whole (lines events) (codes "one" ++ 10 ∷ []) backend w'
run-Whole_example =
    run-Whole events (codes "one" ++ 10 ∷ []) backend backend-IsOpen refl
      (refl, (refl, (tt, (refl, tt))))

delete_old_log_keeps_example :
    (delete_old_log 1000000 every at_first backend).files (codes "log/a.2017-05-01.001.log")
    ≡ backend.files (codes "log/a.2017-05-01.001.log")
delete_old_log_keeps_example =
    delete_old_log_keeps 1000000 every at_first backend refl (codes "log/a.2017-05-01.001.log")
