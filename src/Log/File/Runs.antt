-- ===== src/Log/File/Runs.antt =====
-- What many records leave of the log files.
use myrpc.Base.{
  ℕ, zero, suc, Bool, true, Bytes, is_empty, List, [], ◌∷◌, ◌++◌, append-nil, Option, none, some,
  false, ◌≡◌, refl, sym, ap, ◌∙◌, All,
}
use myrpc.Log.File.{FileBackend, line_of, Entry, log, delete_old_log, deleter_runs}
use myrpc.Log.File.Names.{has_slash}
use myrpc.Log.File.Old.{delete_old_log_keeps}
use myrpc.Log.File.Kept.{no_faults, IsOpen, log-Logged}
use myrpc.Log.File.Whole.{Whole, Kept-Whole, spared-Whole}

-- A record is logged, or a goroutine of `deleteOldLog` runs at the time `now`, where Walk visits
-- `walked` and `modified` says when a file was changed last.
pub data Event : Type 0 where
  logs : Entry → Event
  deletes : ℕ → (Bytes → Bool) → (Bytes → ℕ) → Event

unfoldable pub step : Event → FileBackend → Option FileBackend
step (logs e) w = log no_faults e w
step (deletes now walked modified) w = some (deleter_runs w.deleters now walked modified w)

-- Events, one behind the other.
unfoldable pub run : List Event → FileBackend → Option FileBackend
run [] w = some w
run (e ∷ es) w = elim (step e w) [ none ↦ none | some w' ↦ run es w' ]

abbrev pub lines : List Event → Bytes
lines [] = []
lines (logs e ∷ es) = line_of e.text ++ lines es
lines (deletes now walked modified ∷ es) = lines es

abbrev pub HasText : Event → Type 0
HasText (logs e) = is_empty e.text ≡ false
HasText (deletes now walked modified) = Unit

-- What the run of a goroutine of `deleteOldLog` leaves for a log whose name has a directory.
record Spared (b : Bytes) (w w1 : FileBackend) : Type 0 where
  files : (f : Bytes) → w1.files f ≡ w.files f
  still : IsOpen b w1
  filename : w1.filename ≡ w.filename
  file_name_only : w1.file_name_only ≡ w.file_name_only

deleter_runs-Spared :
    (n now : ℕ) (walked : Bytes → Bool) (modified : Bytes → ℕ) (b : Bytes) (w : FileBackend)
    → IsOpen b w
    → has_slash w.file_name_only ≡ true
    → Spared b w (deleter_runs n now walked modified w)
deleter_runs-Spared zero now walked modified b w o deep = record {
  files = λ f. refl;
  still = o;
  filename = refl;
  file_name_only = refl;
}
deleter_runs-Spared (suc n) now walked modified b w o deep =
    let w0 : FileBackend = record w { deleters = n } in
    let same = delete_old_log_keeps now walked modified w0 deep in
    unfold delete_old_log in
    record {
      files = same;
      still = record {
        running = o.running;
        file_writer = o.file_writer;
        file = same w.filename ∙ o.file;
        cur_size = o.cur_size;
      };
      filename = refl;
      file_name_only = refl;
    }

-- Records that all have a text, logged one behind the other by an open backend while no call of the
-- system fails, where the name of the log has a directory, and the goroutines of deleteOldLog that the
-- renaming starts run at any time in between, over whatever Walk visits: `Log` never panics, and however
-- often the file is renamed, the contents that were put aside, oldest first, and the content of the file
-- are together the old content and the lines of the records, in order. Each of them was put under a name
-- that no file had, all these names are different, and every file that was there before, but for the log
-- itself, is as it was.
pub run-Whole :
    (es : List Event) (b : Bytes) (w : FileBackend)
    → IsOpen b w
    → has_slash w.file_name_only ≡ true
    → All HasText es
    → (w' : FileBackend) × (run es w ≡ some w') × Whole (lines es) b w w'
unfolding run step
run-Whole [] b w o deep full = (
  w,
  refl,
  record {
    content = b;
    still = o;
    archives = [];
    in_order = sym (append-nil b);
    there = tt;
    free = tt;
    apart = tt;
    others = λ f c off there. there;
  },
)
run-Whole (logs e ∷ es) b w o deep full =
    let (w1, ran, l) = log-Logged e b w o full.0 in
    let still_deep = ap has_slash l.file_name_only ∙ deep in
    let (w', rest, h) = run-Whole es l.content w1 l.still still_deep full.1 in
    (
      w',
      ap (λ o. elim o [ none ↦ none | some w' ↦ run es w' ]) ran ∙ rest,
      Kept-Whole b (line_of e.text) (lines es) l.content w w1 w' o.file l.filename l.kept h,
    )
run-Whole (deletes now walked modified ∷ es) b w o deep full =
    let w1 = deleter_runs w.deleters now walked modified w in
    let spared = deleter_runs-Spared w.deleters now walked modified b w o deep in
    let still_deep = ap has_slash spared.file_name_only ∙ deep in
    let (w', rest, h) = run-Whole es b w1 spared.still still_deep full.1 in
    (w', rest, spared-Whole b (lines es) w w1 w' spared.files spared.filename h)
