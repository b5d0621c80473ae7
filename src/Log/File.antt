-- ===== src/Log/File.antt =====
-- log/logging/file.go: a log file that is renamed when it is full, without the channel of the asynchronous
-- mode. The operating system's files are a function from paths; its errors are given. A record comes as
-- its formatted text without colours.
pub mod Names
pub mod Kept
pub mod Whole
pub mod Runs
pub mod Old
mod Tests
use myrpc.Base.{
  ℕ, zero, suc, ◌+◌, ◌-◌, ◌*◌, Bytes, codes, decimal, beq, is_empty, has_prefix, List, [], ◌∷◌,
  ◌++◌, Option, none, some, Bool, true, false, not, ◌&&◌, ◌||◌, ◌==◌, ltb, leb, if◌then◌else◌,
  length, ℤ, is_positive, pos_part, pos,
}
use myrpc.Common.Errors.{Error, message, error_text}
use myrpc.Log.File.Names.{ext, trim_suffix, base_name, has_suffix}

abbrev pub Files : Type 0
Files = Bytes → Option Bytes

-- A file gets this content, or is gone.
unfoldable pub put : Bytes → Option Bytes → Files → Files
put f b files g = if beq f g then b else files g

pub record FileBackend : Type 0 where
  pub running : Bool
  pub filename : Bytes
  -- The file that is open, by its path; none where it was closed.
  pub file_writer : Option Bytes
  pub max_lines : ℤ
  pub cur_lines : ℕ
  pub max_size : ℤ
  pub cur_size : ℕ
  pub daily : Bool
  pub max_days : ℕ
  pub daily_open_date : ℕ
  pub rotate : Bool
  pub file_name_only : Bytes
  pub suffix : Bytes
  pub files : Files
  -- The goroutines of `deleteOldLog` that were started and are still to run.
  pub deleters : ℕ

-- The errors of the calls to come: opening the file, looking at it, reading its lines, renaming it,
-- writing to it.
pub record Faults : Type 0 where
  pub create : Option Error
  pub stat : Option Error
  pub lines : Option Error
  pub rename : Option Error
  pub write : Option Error

-- `bytes.Count(buf, '\n')`.
abbrev pub count_lines : Bytes → ℕ
count_lines [] = 0
count_lines (b ∷ bs) = if b == 10 then suc (count_lines bs) else count_lines bs

-- `initFd`, for a file with the content `b`; `today` is the day of the month.
abbrev pub lines_read : Option Error → Bytes → FileBackend → Option Error × FileBackend
lines_read none b w = (none, record w { cur_lines = count_lines b })
lines_read (some e) b w = (some e, w)

abbrev pub init_fd : Faults → ℕ → Bytes → FileBackend → Option Error × FileBackend
init_fd faults today b w = elim faults.stat [
  | some e ↦ (some (message (codes "get stat err: " ++ (error_text e ++ 10 ∷ []))), w)
  | none ↦
      let w' = record w { cur_size = length b; daily_open_date = today; cur_lines = 0 } in
      if ltb 0 (length b) then lines_read faults.lines b w' else (none, w')
]

abbrev pub content_of : Option Bytes → Bytes
content_of none = []
content_of (some b) = b

abbrev pub started : Option Error × FileBackend → Option Error × FileBackend
started (none, w) = (none, record w { running = true })
started (some e, w) = (some e, w)

-- `startLogger`.
unfoldable pub start_logger : Faults → ℕ → FileBackend → Option Error × FileBackend
start_logger faults today w = elim faults.create [
  | some e ↦ (some e, w)
  | none ↦
      let b = content_of (w.files w.filename) in
      started (
        init_fd faults today b
          (record w { file_writer = some w.filename; files = put w.filename (some b) w.files }))
]

-- `NewDefaultFileBackend`, over the files that there are, without the directories.
unfoldable pub new_default_file_backend :
    Faults → ℕ → Bytes → Files → Option Error × Option FileBackend
unfolding start_logger
new_default_file_backend faults today [] files =
    (some (message (codes "FileBackend must have filename")), none)
new_default_file_backend faults today (c ∷ cs) files =
    let suffix = ext (c ∷ cs) in
    let (e, w) = start_logger faults today (record {
      running = false;
      filename = c ∷ cs;
      file_writer = none;
      max_lines = pos 1000000;
      cur_lines = 0;
      max_size = pos 268435456;
      cur_size = 0;
      daily = true;
      max_days = 7;
      daily_open_date = 0;
      rotate = true;
      file_name_only = trim_suffix (c ∷ cs) suffix;
      suffix = if is_empty suffix then codes ".log" else suffix;
      files = files;
      deleters = 0;
    }) in
    (e, some w)

-- `needRotate`; the size of the message is not looked at.
abbrev pub need_rotate : ℕ → FileBackend → Bool
need_rotate day w =
    is_positive w.max_lines && leb (pos_part w.max_lines) w.cur_lines
    || (is_positive w.max_size && leb (pos_part w.max_size) w.cur_size
        || w.daily && not (day == w.daily_open_date))

-- `%03d`.
abbrev pub pad_3 : ℕ → Bytes
pad_3 n =
    if ltb n 10
    then codes "00" ++ decimal n
    else if ltb n 100
    then codes "0" ++ decimal n
    else decimal n

abbrev pub numbered : FileBackend → Bytes → ℕ → Bytes
numbered w date num =
    w.file_name_only ++ (codes "." ++ (date ++ (codes "." ++ (pad_3 num ++ w.suffix))))

abbrev pub is_there : Option Bytes → Bool
is_there none = false
is_there (some _) = true

-- The loop over the numbers, with `k` rounds left; it stops at the first name that no file has.
unfoldable pub free_number : FileBackend → Bytes → ℕ → ℕ → Option Bytes
free_number w date zero num = none
free_number w date (suc k) num =
    let later = free_number w date k (suc num) in
    if is_there (w.files (numbered w date num)) then later else some (numbered w date num)

abbrev pub dated : FileBackend → Bytes → Option Bytes
dated w date =
    let name = w.file_name_only ++ (codes "." ++ (date ++ w.suffix)) in
    if is_there (w.files name) then none else some name

-- The new name of the file, if there is one.
abbrev pub new_name : FileBackend → Bytes → Option Bytes
new_name w date =
    if is_positive w.max_lines || is_positive w.max_size
    then free_number w date 999 1
    else dated w date

-- The renaming of the file with the content `b`, and the start of the new one.
abbrev pub renamed : Option Error → Bytes → Bytes → FileBackend → FileBackend
renamed none name b w = record w {
  file_writer = none;
  files = put w.filename none (put name (some b) w.files);
}
renamed (some e) name b w = record w { file_writer = none }

abbrev pub restarted : Option Error → Option Error × FileBackend → Option Error × FileBackend
restarted rename (some e, w) =
    (some (message (codes "Rotate StartLogger: " ++ (error_text e ++ 10 ∷ []))), w)
restarted (some e) (none, w) = (some (message (codes "Rotate: " ++ (error_text e ++ 10 ∷ []))), w)
restarted none (none, w) = (none, w)

-- `go w.deleteOldLog()`, which comes whether or not the new file was started.
abbrev pub deleter_started : Option Error × FileBackend → Option Error × FileBackend
deleter_started (e, w) = (e, record w { deleters = suc w.deleters })

abbrev pub rotated : Faults → ℕ → Bytes → Option Bytes → FileBackend → Option Error × FileBackend
rotated faults today b none w = (
  some
      (message (codes "Rotate: Cannot find free log number to rename " ++ (w.filename ++ 10 ∷ []))),
  w,
)
rotated faults today b (some name) w =
    restarted faults.rename
      (deleter_started (start_logger faults today (renamed faults.rename name b w)))

-- `doRotate`; `date` is the formatted day of the record.
abbrev pub file_found : Faults → ℕ → Bytes → Option Bytes → FileBackend → Option Error × FileBackend
file_found faults today date none w =
    (some (message (codes "lstat " ++ (w.filename ++ codes ": no such file or directory"))), w)
file_found faults today date (some b) w = rotated faults today b (new_name w date) w

unfoldable pub do_rotate : Faults → ℕ → Bytes → FileBackend → Option Error × FileBackend
unfolding free_number start_logger
do_rotate faults today date w = file_found faults today date (w.files w.filename) w

-- `write`; a failed one is only reported.
abbrev pub written : Option Error → Bytes → Bytes → FileBackend → FileBackend
written (some e) f msg w = w
written none f msg w = record w {
  files = put f (some (content_of (w.files f) ++ msg)) w.files;
  cur_lines = suc w.cur_lines;
  cur_size = w.cur_size + length msg;
}

unfoldable pub write : Faults → Bytes → FileBackend → FileBackend
write faults msg w = elim w.file_writer [ none ↦ w | some f ↦ written faults.write f msg w ]

-- The message with the end of its line.
abbrev pub line_of : Bytes → Bytes
line_of [] = []
line_of (b ∷ []) = if b == 10 then b ∷ [] else b ∷ 10 ∷ []
line_of (b ∷ c ∷ s) = b ∷ line_of (c ∷ s)

-- A record: its formatted text, its date, its day of the month, and that of the clock.
pub record Entry : Type 0 where
  pub text : Bytes
  pub date : Bytes
  pub day : ℕ
  pub today : ℕ

-- `Log`; an empty text makes it panic, which is `none`.
unfoldable pub logged : Faults → Entry → FileBackend → FileBackend
unfolding write do_rotate
logged faults e w =
    let (_, w') = do_rotate faults e.today e.date w in
    write faults (line_of e.text) (if w.rotate && need_rotate e.day w then w' else w)

unfoldable pub log : Faults → Entry → FileBackend → Option FileBackend
unfolding logged
log faults e w =
    if w.running then (if is_empty e.text then none else some (logged faults e w)) else some w

-- `Close`.
unfoldable pub close : FileBackend → FileBackend
close w = if w.running then record w { running = false; file_writer = none } else w

-- `deleteOldLog`, where `walked` says which paths Walk visits and `modified` when, in seconds.
unfoldable pub delete_old_log : ℕ → (Bytes → Bool) → (Bytes → ℕ) → FileBackend → FileBackend
delete_old_log now walked modified w = record w {
  files = λ path.
      if walked path
        && ltb (modified path + 60 * 60 * 24 * w.max_days) now
        && has_prefix (base_name path) w.file_name_only
        && has_suffix (base_name path) w.suffix
      then none
      else w.files path;
}

-- A goroutine of `deleteOldLog` runs, if one was started.
abbrev pub deleter_runs : ℕ → ℕ → (Bytes → Bool) → (Bytes → ℕ) → FileBackend → FileBackend
deleter_runs zero now walked modified w = w
deleter_runs (suc n) now walked modified w =
    delete_old_log now walked modified (record w { deleters = n })
