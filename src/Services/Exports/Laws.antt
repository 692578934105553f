-- ===== src/Services/Exports/Laws.antt =====
-- Which entry the answer to a request for an export describes.
use arca_storage.Base.{
  ◌≡◌, refl, Bool, true, Option, none, some, List, [], ◌∷◌, ◌++◌, rstrip_slash, find?, list_eqb_iff,
  nat_order, &&-intro, arith,
}
use arca_storage.Results.{ok}
use arca_storage.Ganesha.{Export, Config, World, Outside}
use arca_storage.Ganesha.Exports.{load_exports, max_id, new_export, is_export, export_path}
use arca_storage.Ganesha.Exports as G
use arca_storage.Ganesha.Exports.Ids.{load-store_self}
use arca_storage.Services.Exports.{ExportCreate, ExportAnswer, add_export}

abbrev pub or_else {ℓ} : {A : Type ℓ} → Option A → A → A
or_else none d = d
or_else (some a) d = a

find?-snoc :
    (p : Export → Bool) (es : List Export) (f : Export)
    → p f ≡ true
    → find? p (es ++ f ∷ []) ≡ some (or_else (find? p es) f)
find?-snoc p [] f h = rw h refl
find?-snoc p (e ∷ es) f h = ground (arith, find?-snoc p es f h)

module _ (o : Outside) (cfg : Config) where
  -- The entry that the request adds.
  abbrev pub added : ExportCreate → World → Export
  added d w =
      new_export cfg (load_exports d.svm w) d.svm d.volume d.client d.access d.root_squash
        (some d.sec)

  added-matches :
      (d : ExportCreate) (w : World)
      → is_export (export_path (rstrip_slash cfg.export_dir) d.svm d.volume) d.client (added d w)
        ≡ true
  unfolding new_export
  added-matches d w = &&-intro _ _ ((list_eqb_iff _ _).1 refl) ((list_eqb_iff _ _).1 refl)

  found_after :
      (d : ExportCreate) (w : World)
      → let p = is_export (export_path (rstrip_slash cfg.export_dir) d.svm d.volume) d.client in
        find? p (
          load_exports d.svm
            (G.add_export o cfg d.svm d.volume d.client d.access d.root_squash (some d.sec) w).1)
        ≡ some (or_else (find? p (load_exports d.svm w)) (added d w))
  unfolding G.add_export
  found_after d w =
      let es = load_exports d.svm w in
      rw (load-store_self o cfg d.svm (es ++ added d w ∷ []) w) (
        find?-snoc (is_export (export_path (rstrip_slash cfg.export_dir) d.svm d.volume) d.client)
          es (added d w) (added-matches d w))

  -- A successful answer has the id of the first entry for the same client and path: the new entry's
  -- id where there was none before, and otherwise the id of the older entry.
  pub add_export-answer :
      (d : ExportCreate) (w : World) (a : ExportAnswer)
      → (add_export o cfg d w).0 ≡ ok a
      → let p = is_export (export_path (rstrip_slash cfg.export_dir) d.svm d.volume) d.client in
        a.export_id ≡ (or_else (find? p (load_exports d.svm w)) (added d w)).export_id
  unfolding add_export
  add_export-answer d w a done = ground (arith, found_after d w)
