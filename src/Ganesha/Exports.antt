-- ===== src/Ganesha/Exports.antt =====
-- The exports of an SVM: `add_export`, `remove_export`, `list_exports` and `sync`.
pub mod Ids
pub mod Changes
pub mod InStep
pub mod Listing
use arca_storage.Base.{
  ℕ, zero, suc, ◌+◌, ◌-◌, ◌≡◌, Bool, true, false, ◌&&◌, not, Option, none, some, List, [], ◌∷◌,
  ◌++◌, map, filter, Text, codes, is_empty, split, rstrip_slash, list_eqb, nat_order, leb,
  if◌then◌else◌,
}
use arca_storage.Results.{Checked, ok, err}
use arca_storage.Ganesha.{Export, Config, World, Outside}
use arca_storage.Ganesha.Render.{render_config, reload}

-- `c.upper()` of an ASCII letter
abbrev upper_char : ℕ → ℕ
upper_char c = if leb b'a' c && leb c b'z' then c - 32 else c

abbrev pub or_empty : Option (List Export) → List Export
or_empty none = []
or_empty (some es) = es

unfoldable pub load_exports : Text → World → List Export
load_exports svm_name w = or_empty (w.exports svm_name)

unfoldable pub save_exports : Text → List Export → World → World
save_exports svm_name es w = record w {
  exports = λ s. if list_eqb s svm_name then some es else w.exports s;
}

-- `max([e.get("export_id", 0) for e in exports], default=0)`
unfoldable pub max_id : List Export → ℕ
max_id [] = 0
max_id (e ∷ es) = let rest = max_id es in if leb rest e.export_id then e.export_id else rest

unfoldable pub export_path : Text → Text → Text → Text
export_path dir svm_name volume_name = dir ++ b'/' ∷ (svm_name ++ b'/' ∷ volume_name)

-- `sec or ["sys"]`
abbrev sec_or_sys : Option (List Text) → List Text
sec_or_sys none = codes "sys" ∷ []
sec_or_sys (some []) = codes "sys" ∷ []
sec_or_sys (some (t ∷ ts)) = t ∷ ts

-- The entry that is added behind the others.
unfoldable pub new_export :
    Config → List Export → Text → Text → Text → Text → Bool → Option (List Text) → Export
new_export cfg exports svm_name volume_name client access root_squash sec =
    let path = export_path (rstrip_slash cfg.export_dir) svm_name volume_name in
    record {
      export_id = max_id exports + 1;
      path = path;
      pseudo = path;
      access = map upper_char access;
      squash = if root_squash then codes "Root_Squash" else codes "No_Root_Squash";
      sec = sec_or_sys sec;
      client = client;
    }

-- `e.get("path") == path and e.get("client") == client`
abbrev pub is_export : Text → Text → Export → Bool
is_export path client e = list_eqb e.path path && list_eqb e.client client

-- What is left after the removal: the old default directory goes first, then the configured one.
unfoldable pub without_export : Config → Text → Text → Text → List Export → List Export
without_export cfg svm_name volume_name client exports =
    let old_path = export_path (codes "/exports") svm_name volume_name in
    let path = export_path (rstrip_slash cfg.export_dir) svm_name volume_name in
    filter (λ e. not (is_export path client e))
      (filter (λ e. not (is_export old_path client e)) exports)

module _ (o : Outside) (cfg : Config) where
  -- Save, render and reload; a reload that fails leaves what was saved.
  unfoldable pub store_exports : Text → List Export → World → Checked (Unit {0}) × World
  store_exports svm_name exports w =
      let (path, w') = render_config o cfg svm_name exports (save_exports svm_name exports w) in
      reload o svm_name w'

  unfoldable pub add_export :
      Text → Text → Text → Text → Bool → Option (List Text) → World → Checked (Unit {0}) × World
  add_export svm_name volume_name client access root_squash sec w =
      let exports = load_exports svm_name w in
      let export_entry =
        new_export cfg exports svm_name volume_name client access root_squash sec in
      store_exports svm_name (exports ++ export_entry ∷ []) w

  unfoldable pub remove_export : Text → Text → Text → World → Checked (Unit {0}) × World
  remove_export svm_name volume_name client w =
      store_exports svm_name
        (without_export cfg svm_name volume_name client (load_exports svm_name w)) w

  -- Renders from the saved exports, and reloads.
  unfoldable pub sync : Text → World → Checked Text × World
  sync svm_name w =
      let (path, w') = render_config o cfg svm_name (load_exports svm_name w) w in
      let (r, w'') = reload o svm_name w' in elim r [ ok u ↦ (ok path, w'') | err e ↦ (err e, w'') ]

abbrev pub last_or : Text → List Text → Text
last_or d [] = d
last_or d (t ∷ ts) = last_or t ts

-- `_volume_from_path`
unfoldable pub volume_from_path : Text → Text
volume_from_path path = last_or [] (filter (λ p. not (is_empty p)) (split b'/' path))

-- An export with the SVM and the volume that it belongs to.
pub record Listed : Type 0 where
  pub svm : Text
  pub volume : Text
  pub entry : Export

unfoldable pub listed_of : Text → World → List Listed
listed_of svm_name w =
    map (λ e. record { svm = svm_name; volume = volume_from_path e.path; entry = e })
      (load_exports svm_name w)

unfoldable pub listed_of_all : List Text → World → List Listed
listed_of_all [] w = []
listed_of_all (name ∷ names) w = listed_of name w ++ listed_of_all names w

abbrev pub of_volume : Option Text → List Listed → List Listed
of_volume none ls = ls
of_volume (some v) ls = if is_empty v then ls else filter (λ l. list_eqb l.volume v) ls

abbrev pub of_svm : Option Text → List Text → World → List Listed
of_svm none names w = listed_of_all names w
of_svm (some s) names w = if is_empty s then listed_of_all names w else listed_of s w

-- `names` are the SVMs whose files the state directory's `glob` finds.
unfoldable pub list_exports : List Text → Option Text → Option Text → World → List Listed
list_exports names svm_name volume_name w = of_volume volume_name (of_svm svm_name names w)
