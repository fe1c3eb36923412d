-- ===== src/Audit/Retention.antt =====
-- qndb/security/audit/retention.py: tiers of age and what is done with the files of a directory. Times are
-- in seconds; a call reads the clock several times, for which `now` stands. A directory is its regular files
-- in the order of their names, each with its time; moving and removing them does not fail.
pub mod Tiers
use quantum_database.Prelude.{
  ℕ, suc, ◌+◌, ◌*◌, String, Bool, true, false, not, Option, none, some, List, [], ◌∷◌, ◌++◌,
  if◌then◌else◌, ltb, filter, ◌==◌, string_key,
}

-- The function for archiving, which nothing calls, is left out.
pub record RetentionPolicy : Type 0 where
  pub name : String
  pub duration_seconds : ℕ

abbrev pub Policies : Type 0
Policies = List RetentionPolicy

-- `now - event_timestamp > duration_seconds`
abbrev pub is_expired : (now event_timestamp : ℕ) → RetentionPolicy → Bool
is_expired now event_timestamp p = ltb (event_timestamp + p.duration_seconds) now

abbrev pub insert_policy : RetentionPolicy → Policies → Policies
insert_policy p [] = p ∷ []
insert_policy p (q ∷ qs) =
    let later = q ∷ insert_policy p qs in
    if ltb q.duration_seconds p.duration_seconds then later else p ∷ q ∷ qs

-- `sort(key=duration_seconds)`, which is stable
unfoldable pub sort_policies : Policies → Policies
sort_policies [] = []
sort_policies (p ∷ ps) = insert_policy p (sort_policies ps)

unfoldable pub add_policy : RetentionPolicy → Policies → Policies
unfolding sort_policies
add_policy p ps = sort_policies (ps ++ p ∷ [])

unfoldable pub remove_policy : String → Policies → Policies
remove_policy name ps = filter (λ p. not (p.name == name)) ps

-- 30 days, a year, seven years
unfoldable pub init_defaults : Policies
unfolding add_policy
init_defaults =
    let hot = add_policy (record { name = "hot"; duration_seconds = 30 * 86400 }) [] in
    let warm = add_policy (record { name = "warm"; duration_seconds = 365 * 86400 }) hot in
    add_policy (record { name = "cold"; duration_seconds = 7 * 365 * 86400 }) warm

unfoldable pub classify_event : (now event_timestamp : ℕ) → Policies → String
classify_event now event_timestamp [] = "expired"
classify_event now event_timestamp (p ∷ ps) =
    if is_expired now event_timestamp p then classify_event now event_timestamp ps else p.name

pub record Stats : Type 0 where
  pub skipped : ℕ
  pub archived : ℕ
  pub deleted : ℕ

abbrev pub File : Type 0
File = String × ℕ

-- The directory afterwards, the archive of each tier with its files, and the counts
pub record Applied : Type 0 where
  pub kept : List File
  pub moved : List (String × File)
  pub stats : Stats

abbrev pub skip : File → Applied → Applied
skip f a = record a {
  kept = f ∷ a.kept;
  stats = record (a.stats) { skipped = suc a.stats.skipped };
}

abbrev pub keep : File → Applied → Applied
keep f a = record a { kept = f ∷ a.kept }

abbrev pub archive : String → File → Applied → Applied
archive tier f a = record a {
  moved = (tier, f) ∷ a.moved;
  stats = record (a.stats) { archived = suc a.stats.archived };
}

abbrev pub delete : Applied → Applied
delete a = record a { stats = record (a.stats) { deleted = suc a.stats.deleted } }

-- What is done with a file of the tier
abbrev pub treat : (has_archive : Bool) → (tier : String) → File → Applied → Applied
treat has_archive tier f a =
    if tier == "hot"
    then skip f a
    else if tier == "warm"
    then if has_archive then archive tier f a else skip f a
    else if tier == "cold"
    then if has_archive then archive tier f a else skip f a
    else if tier == "expired"
    then delete a
    else keep f a

-- `apply_retention`, of a directory that is there
unfoldable pub apply_retention : (now : ℕ) → Policies → (has_archive : Bool) → List File → Applied
unfolding classify_event
apply_retention now ps has_archive [] = record {
  kept = [];
  moved = [];
  stats = record { skipped = 0; archived = 0; deleted = 0 };
}
apply_retention now ps has_archive (f ∷ fs) =
    treat has_archive (classify_event now f.1 ps) f (apply_retention now ps has_archive fs)
