-- ===== src/Log/File/Kept.antt =====
-- What a record leaves of the log files.
use myrpc.Base.{
  ℕ, zero, suc, ◌+◌, Bytes, codes, beq, beq_refl, is_empty, [], ◌++◌, Option, none, some, true,
  false, ◌&&◌, ◌||◌, length, length-append, is_positive, ◌≡◌, refl, sym, ap, ◌∙◌, subst, arith,
  Bool-cases, inl, inr,
}
use myrpc.Log.File.{
  Files, put, FileBackend, Faults, start_logger, started, init_fd, content_of, need_rotate,
  numbered, is_there, free_number, dated, new_name, renamed, restarted, deleter_started, rotated,
  file_found, do_rotate, written, write, line_of, Entry, logged, log,
}

abbrev pub no_faults : Faults
no_faults = record { create = none; stat = none; lines = none; rename = none; write = none }

pub put_same : (f : Bytes) (b : Option Bytes) (files : Files) → put f b files f ≡ b
unfolding put
put_same f b files = rw (beq_refl f) refl

-- A backend that is open on its file, whose content is `b`.
pub record IsOpen (b : Bytes) (w : FileBackend) : Type 0 where
  pub running : w.running ≡ true
  pub file_writer : w.file_writer ≡ some w.filename
  pub file : w.files w.filename ≡ some b
  pub cur_size : w.cur_size ≡ length b

-- The message stands behind the content of the file, or alone in a new file, where the old one has got a
-- name that no file had.
pub data Kept (w : FileBackend) (b msg : Bytes) (w' : FileBackend) : Bytes → Type 0 where
  appended :
      ((f : Bytes) → w'.files f ≡ put w.filename (some (b ++ msg)) w.files f)
      → Kept w b msg w' (b ++ msg)
  archived :
      (name : Bytes)
      → w.files name ≡ none
      → ((f : Bytes) → w'.files f ≡ put w.filename (some msg) (put name (some b) w.files) f)
      → Kept w b msg w' msg

is_there-none : (o : Option Bytes) → is_there o ≡ false → o ≡ none
is_there-none none h = refl
is_there-none (some b) h = cc

free_number-free :
    (w : FileBackend) (date : Bytes) (k num : ℕ) (name : Bytes)
    → free_number w date k num ≡ some name
    → w.files name ≡ none
unfolding free_number
free_number-free w date zero num name h = cc
free_number-free w date (suc k) num name h =
    elim (Bool-cases (is_there (w.files (numbered w date num)))) [
      | inl there ↦ free_number-free w date k (suc num) name (rw there at h)
      | inr free ↦
          let same : some (numbered w date num) ≡ some name = rw free at h in
          subst (λ n. w.files n ≡ none) (cc same)
            (is_there-none (w.files (numbered w date num)) free)
    ]

dated-free : (w : FileBackend) (date name : Bytes) → dated w date ≡ some name → w.files name ≡ none
dated-free w date name h =
    let n = w.file_name_only ++ (codes "." ++ (date ++ w.suffix)) in
    elim (Bool-cases (is_there (w.files n))) [
      | inl there ↦ cc (rw there at h)
      | inr free ↦
          let same : some n ≡ some name = rw free at h in
          subst (λ n. w.files n ≡ none) (cc same) (is_there-none (w.files n) free)
    ]

-- A name that the file is given is no other file's.
pub new_name-free :
    (w : FileBackend) (date name : Bytes) → new_name w date ≡ some name → w.files name ≡ none
new_name-free w date name h =
    elim (Bool-cases (is_positive w.max_lines || is_positive w.max_size)) [
      | inl limited ↦ free_number-free w date 999 1 name (rw limited at h)
      | inr daily ↦ dated-free w date name (rw daily at h)
    ]

-- A backend whose file is gone starts a new one.
abbrev fresh_file : ℕ → FileBackend → FileBackend
fresh_file today w = record w {
  running = true;
  file_writer = some w.filename;
  files = put w.filename (some []) w.files;
  cur_size = 0;
  cur_lines = 0;
  daily_open_date = today;
}

-- It starts the deletion of old files too.
abbrev restart : ℕ → FileBackend → FileBackend
restart today w = record (fresh_file today w) { deleters = suc w.deleters }

start_lem :
    (today : ℕ) (w : FileBackend)
    → w.files w.filename ≡ none
    → start_logger no_faults today w ≡ (none, fresh_file today w)
unfolding start_logger
start_lem today w gone =
    ap
      (λ o. started (
        init_fd no_faults today (content_of o) (record w {
          file_writer = some w.filename;
          files = put w.filename (some (content_of o)) w.files;
        })))
      gone

rotated_lem :
    (today : ℕ) (b name : Bytes) (w : FileBackend)
    → rotated no_faults today b (some name) w ≡ (none, restart today (renamed none name b w))
rotated_lem today b name w =
    ap (λ r. restarted none (deleter_started r))
      (start_lem today (renamed none name b w)
        (put_same w.filename none (put name (some b) w.files)))

-- What the attempt to rotate leaves.
data Turned (b : Bytes) (w : FileBackend) : FileBackend → Type 0 where
  unchanged : Turned b w w
  turned :
      (today : ℕ) (name : Bytes)
      → w.files name ≡ none
      → Turned b w (restart today (renamed none name b w))

new_name-Turned :
    (today : ℕ) (date b : Bytes) (w : FileBackend) (o : Option Bytes)
    → new_name w date ≡ o
    → Turned b w (rotated no_faults today b o w).1
new_name-Turned today date b w none h = unchanged
new_name-Turned today date b w (some name) h =
    subst (λ t. Turned b w t.1) (sym (rotated_lem today b name w))
      (turned today name (new_name-free w date name h))

do_rotate-Turned :
    (today : ℕ) (date b : Bytes) (w : FileBackend)
    → w.files w.filename ≡ some b
    → Turned b w (do_rotate no_faults today date w).1
unfolding do_rotate
do_rotate-Turned today date b w there =
    subst (λ o. Turned b w (file_found no_faults today date o w).1) (sym there)
      (new_name-Turned today date b w (new_name w date) refl)

-- A message is written behind the content of the open file.
write_lem :
    (msg b : Bytes) (w : FileBackend)
    → IsOpen b w
    → write no_faults msg w ≡ record w {
      files = put w.filename (some (b ++ msg)) w.files;
      cur_lines = suc w.cur_lines;
      cur_size = w.cur_size + length msg;
    }
unfolding write
write_lem msg b w o =
    ap (λ f. elim f [ none ↦ w | some f ↦ written none f msg w ]) o.file_writer
    ∙ ap
        (λ c. record w {
          files = put w.filename (some (content_of c ++ msg)) w.files;
          cur_lines = suc w.cur_lines;
          cur_size = w.cur_size + length msg;
        })
        o.file

put_put :
    (f : Bytes) (a c : Option Bytes) (files : Files) (g : Bytes)
    → put f a (put f c files) g ≡ put f a files g
unfolding put
put_put f a c files g = elim (Bool-cases (beq f g)) [
  | inl same ↦ rw same refl
  | inr other ↦ rw other refl
]

-- What a message leaves of a backend that was open on the content `b`.
pub record Logged (b msg : Bytes) (w w' : FileBackend) : Type 0 where
  pub content : Bytes
  pub still : IsOpen content w'
  pub kept : Kept w b msg w' content
  pub filename : w'.filename ≡ w.filename
  pub file_name_only : w'.file_name_only ≡ w.file_name_only

written-Logged :
    (b msg : Bytes) (w : FileBackend) → IsOpen b w → Logged b msg w (write no_faults msg w)
written-Logged b msg w o = subst (Logged b msg w) (sym (write_lem msg b w o)) (record {
  content = b ++ msg;
  still = record {
    running = o.running;
    file_writer = o.file_writer;
    file = put_same w.filename (some (b ++ msg)) w.files;
    cur_size = omega (arith, o.cur_size, length-append b msg);
  };
  kept = appended (λ f. refl);
  filename = refl;
  file_name_only = refl;
})

turned-Logged :
    (b msg : Bytes) (today : ℕ) (name : Bytes) (w : FileBackend)
    → w.files name ≡ none
    → Logged b msg w (write no_faults msg (restart today (renamed none name b w)))
turned-Logged b msg today name w free =
    let fresh = restart today (renamed none name b w) in
    let moved = put name (some b) w.files in
    let gone = put w.filename none moved in
    subst (Logged b msg w)
      (sym (
        write_lem msg [] fresh (record {
          running = refl;
          file_writer = refl;
          file = put_same w.filename (some []) gone;
          cur_size = refl;
        })))
      (record {
        content = msg;
        still = record {
          running = refl;
          file_writer = refl;
          file = put_same w.filename (some msg) fresh.files;
          cur_size = omega arith;
        };
        kept = archived name free (λ f.
            put_put w.filename (some msg) (some []) gone f
            ∙ put_put w.filename (some msg) none moved f);
        filename = refl;
        file_name_only = refl;
      })

Turned-Logged :
    (b msg : Bytes) (w w1 : FileBackend)
    → IsOpen b w
    → Turned b w w1
    → Logged b msg w (write no_faults msg w1)
Turned-Logged b msg w w1 o unchanged = written-Logged b msg w o
Turned-Logged b msg w w1 o (turned today name free) = turned-Logged b msg today name w free

-- On an open backend, where no call of the system fails, a record with a text is logged: its line is
-- appended to the file; or the file keeps its content under a name that no file had, and the line
-- begins a new one. No other file changes, and the backend stays open, with the size that it counts
-- that of its file.
pub log-Logged :
    (e : Entry) (b : Bytes) (w : FileBackend)
    → IsOpen b w
    → is_empty e.text ≡ false
    → (w' : FileBackend) × (log no_faults e w ≡ some w') × Logged b (line_of e.text) w w'
unfolding log logged
log-Logged e b w o full =
    let msg = line_of e.text in
    let w1 = (do_rotate no_faults e.today e.date w).1 in
    let turned = do_rotate-Turned e.today e.date b w o.file in
    (
      logged no_faults e w,
      rw (o.running, full) refl,
      elim (Bool-cases (w.rotate && need_rotate e.day w)) [
        | inl due ↦ simp due (Turned-Logged b msg w w1 o turned)
        | inr early ↦ simp early (written-Logged b msg w o)
      ],
    )
