-- ===== src/Samples.antt =====
-- Concrete libraries for the tests: a database in a function, archives that put each field of an
-- inode in one element of the text, paths, and a code of one parity bit.
use mathlib.Core.Bool.{◌&&◌}
use undergraduate_project.Shared.{
  ℕ, ◌≡◌, refl, Text, TextMap, assign, text_eq, bytes, Bool, true, false, ◌==◌, if◌then◌else◌, none,
  some, List, [], ◌∷◌, ◌++◌, arith,
}
use undergraduate_project.External.{CacheDb, IsWritable, Archive, PathLib}
use undergraduate_project.Directory.Inode.{DirFields}
use undergraduate_project.File.Inode.{AccessFields, ContentFields}
use undergraduate_project.File.Store.{Archives}

abbrev remove_key : TextMap Text → Text → Bool × TextMap Text
remove_key d k = elim (d k) [
  | none ↦ (false, d)
  | some v ↦ (true, λ j. if text_eq k j then none else d j)
]

pub get-remove_key :
    (d : TextMap Text) (k j : Text)
    → (remove_key d k).1 j ≡ (if (remove_key d k).0 && text_eq k j then none else d j)
get-remove_key d k j = ground arith

pub remove_key_absent : (d : TextMap Text) (k : Text) → d k ≡ none → (remove_key d k).0 ≡ false
remove_key_absent d k h = rw (remove_key, h) refl

pub remove_key_present : (d : TextMap Text) (k v : Text) → d k ≡ some v → (remove_key d k).0 ≡ true
remove_key_present d k v h = rw (remove_key, h) refl

abbrev pub mem_db : CacheDb
mem_db = record {
  Db = TextMap Text;
  opened = λ k. none;
  get = λ d k. d k;
  set = λ d k v. (true, assign d k v);
  remove = remove_key;
  get-opened = λ k. refl;
  get-set = λ d k v j. refl;
  get-remove = get-remove_key;
  remove_absent = remove_key_absent;
}

pub mem_db-IsWritable : IsWritable mem_db
mem_db-IsWritable = record { set_done = λ d k v. refl; remove_done = remove_key_present }

abbrev load_dir : Text → DirFields
load_dir (a ∷ b ∷ c ∷ d ∷ e ∷ f ∷ t) = (a, b, c, d, e, t, f)
load_dir _ = (0, 0, 0, 0, 0, [], 0)

abbrev pub dir_archive : Archive DirFields
dir_archive = record {
  save = λ f. f.0 ∷ f.1 ∷ f.2 ∷ f.3 ∷ f.4 ∷ f.6 ∷ f.5;
  load = load_dir;
  load-save = λ f. refl;
}

abbrev load_access : Text → AccessFields
load_access (a ∷ b ∷ c ∷ d ∷ t) = (a, b, c, d)
load_access _ = (0, 0, 0, 0)

abbrev load_content : Text → ContentFields
load_content (a ∷ b ∷ c ∷ d ∷ e ∷ f ∷ t) = (a, b, c, d, t, e, f)
load_content _ = (0, 0, 0, 0, [], 0, 0)

abbrev pub file_archives : Archives
file_archives = record {
  access = record {
    save = λ f. f.0 ∷ f.1 ∷ f.2 ∷ f.3 ∷ [];
    load = load_access;
    load-save = λ f. refl;
  };
  content = record {
    save = λ f. f.0 ∷ f.1 ∷ f.2 ∷ f.3 ∷ f.5 ∷ f.6 ∷ f.4;
    load = load_content;
    load-save = λ f. refl;
  };
}

abbrev starts : ℕ → Text → Bool
starts sep [] = false
starts sep (c ∷ s) = c == sep

abbrev cons_first : ℕ → List Text → List Text
cons_first c [] = []
cons_first c (piece ∷ pieces) = (c ∷ piece) ∷ pieces

-- The pieces between the separators, adjacent ones taken as one.
abbrev split_by : ℕ → Text → List Text
split_by sep [] = [] ∷ []
split_by sep (c ∷ s) =
    let rest = split_by sep s in
    if c == sep then (if starts sep s then rest else [] ∷ rest) else cons_first c rest

abbrev join_by : List Text → Text → Text
join_by [] sep = []
join_by (x ∷ []) sep = x
join_by (x ∷ y ∷ xs) sep = x ++ sep ++ join_by (y ∷ xs) sep

-- The text behind the last slash, and whether there is a slash.
abbrev base_name : Text → Text → Text
base_name seen [] = seen
base_name seen (c ∷ s) =
    let after = base_name [] s in
    let more = base_name (seen ++ c ∷ []) s in if c == 0x2f then after else more

-- The text before the last slash that is not the first character, or that slash.
abbrev non_empty : Text → Text
non_empty [] = bytes "/"
non_empty (c ∷ s) = c ∷ s

abbrev dir_name : Text → Text → Text → Text
dir_name best seen [] = best
dir_name best seen (c ∷ s) =
    let cut = dir_name (non_empty seen) (seen ++ c ∷ []) s in
    let more = dir_name best (seen ++ c ∷ []) s in if c == 0x2f then cut else more

abbrev pub posix : PathLib
posix = record {
  split_slash = split_by 0x2f;
  split_colon = split_by 0x3a;
  split_tab = split_by 0x09;
  join = join_by;
  parent_path = dir_name [] [];
  filename = base_name [];
  join-nil = λ sep. refl;
}
