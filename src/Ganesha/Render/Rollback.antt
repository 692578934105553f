-- ===== src/Ganesha/Render/Rollback.antt =====
-- Rendering again writes nothing, and a rollback brings an earlier configuration back.
use mathlib.Core.List.{append_cancel_left, append_cancel_right}
use arca_storage.Base.{
  ◌≡◌, ◌≢◌, refl, sym, ◌∙◌, ap, some, List, [], ◌∷◌, ◌++◌, ℕ, Text, codes, list_eqb, list_eqb_iff,
  nat_order, inl, inr, Option-cases, arith, if◌then◌else◌,
}
use arca_storage.Ganesha.{Export, Config, World, Outside}
use arca_storage.Ganesha.Render.{
  in_dir, conf_name, meta_name, write_if_changed, config_path, snapshot_path, snapshot_meta_path,
  latest, reload, versioned_args, render_config, rollback_config,
}
use arca_storage.Ganesha.Render.Writes.{texts-write, write-same, reload_keeps}

abbrev tail_of : Text → Text
tail_of [] = []
tail_of (c ∷ t) = t

last_code : ℕ → Text → ℕ
last_code d [] = d
last_code d (c ∷ t) = last_code c t

last_code-append : (d c : ℕ) (s t : Text) → last_code d (s ++ c ∷ t) ≡ last_code c t
unfolding last_code
last_code-append d c [] t = refl
last_code-append d c (x ∷ s) t = last_code-append x c s t

last_code-file :
    (dir s : Text) (c : ℕ) (t : Text) → last_code 0 (in_dir dir (s ++ c ∷ t)) ≡ last_code c t
last_code-file dir s c t = last_code-append 0 b'/' dir (s ++ c ∷ t) ∙ last_code-append b'/' c s t

f_not_n : last_code b'.' (codes "conf") ≢ last_code b'.' (codes "json")
unfolding last_code
f_not_n = omega arith

-- The names end in ".conf" and in ".json".
conf-ne-meta :
    (dir dir' stem stem' : Text) → in_dir dir (conf_name stem) ≢ in_dir dir' (meta_name stem')
conf-ne-meta dir dir' stem stem' e =
    let ends = ap (last_code 0) e in
    let conf = last_code-file dir (codes "ganesha." ++ stem) b'.' (codes "conf") in
    let meta = last_code-file dir' (codes "ganesha." ++ stem') b'.' (codes "json") in
    f_not_n (sym conf ∙ ends ∙ meta)

-- The five writes of a rendering, for any paths of which the first kind differs from the second.
module _ (a b c d e content meta : Text) (w : World) where
  abbrev write_five_at : World → World
  write_five_at u = write_if_changed e content (
      write_if_changed d meta
        (write_if_changed c meta (write_if_changed b content (write_if_changed a content u))))

  abbrev write_five : World
  write_five = write_five_at w

  texts-five :
      (p : Text)
      → write_five.texts p ≡ (
          if list_eqb p e
          then some content
          else if list_eqb p d
          then some meta
          else if list_eqb p c
          then some meta
          else if list_eqb p b
          then some content
          else if list_eqb p a
          then some content
          else w.texts p)
  texts-five p = simp texts-write

  skip_five : (p : Text) → p ≢ a → p ≢ b → p ≢ c → p ≢ d → p ≢ e → write_five.texts p ≡ w.texts p
  skip_five p pa pb pc pd pe = rw (texts-five p) (
      ground (
        arith,
        list_eqb_iff p a,
        list_eqb_iff p b,
        list_eqb_iff p c,
        list_eqb_iff p d,
        list_eqb_iff p e,
      ))

  module _ (ac : a ≢ c) (ad : a ≢ d) (bc : b ≢ c) (bd : b ≢ d) (ec : e ≢ c) (ed : e ≢ d) where
    five_a : write_five.texts a ≡ some content
    five_a =
        rw (texts-five a) (ground (arith, list_eqb_iff a a, list_eqb_iff a c, list_eqb_iff a d))

    five_b : write_five.texts b ≡ some content
    five_b =
        rw (texts-five b) (ground (arith, list_eqb_iff b b, list_eqb_iff b c, list_eqb_iff b d))

    five_c : write_five.texts c ≡ some meta
    five_c = rw (texts-five c) (ground (arith, list_eqb_iff c c, list_eqb_iff c e))

    five_d : write_five.texts d ≡ some meta
    five_d = rw (texts-five d) (ground (arith, list_eqb_iff d d, list_eqb_iff d e))

    five_e : write_five.texts e ≡ some content
    five_e = rw (texts-five e) (ground (arith, list_eqb_iff e e))

    five_again : write_five_at write_five ≡ write_five
    five_again =
        rw
          (
            write-same a content write_five five_a,
            write-same b content write_five five_b,
            write-same c meta write_five five_c,
            write-same d meta write_five five_d,
            write-same e content write_five five_e,
          )
          refl

module _ (o : Outside) (cfg : Config) (svm_name : Text) where
  abbrev version_of : List Export → Text
  version_of exports = (versioned_args o cfg svm_name exports).config_version

  conf_meta :
      (version version' : Text)
      → snapshot_path cfg svm_name version ≢ snapshot_meta_path cfg svm_name version'
  unfolding snapshot_path snapshot_meta_path
  conf_meta version version' = conf-ne-meta _ _ _ _

  config_meta :
      (version : Text) → config_path cfg svm_name ≢ snapshot_meta_path cfg svm_name version
  unfolding config_path snapshot_meta_path
  config_meta version = conf-ne-meta _ _ _ _

  snapshots-ne :
      (version version' : Text)
      → version ≢ version'
      → snapshot_path cfg svm_name version ≢ snapshot_path cfg svm_name version'
  unfolding snapshot_path
  snapshots-ne version version' differ e =
      let name = append_cancel_left (in_dir cfg.state_dir (codes "config")) _ _ e in
      let stem =
        append_cancel_right (codes "ganesha." ++ (svm_name ++ b'.' ∷ version))
          (codes "ganesha." ++ (svm_name ++ b'.' ∷ version')) (codes ".conf") (ap tail_of name) in
      let tail =
        append_cancel_left svm_name (b'.' ∷ version) (b'.' ∷ version')
          (append_cancel_left (codes "ganesha.") _ _ stem) in
      differ (ap tail_of tail)

  rollback-writes :
      (version content : Text) (w : World)
      → w.texts (snapshot_path cfg svm_name version) ≡ some content
      → (rollback_config o cfg svm_name version w).1
        ≡ write_if_changed (config_path cfg svm_name) content w
  unfolding rollback_config reload
  rollback-writes version content w h =
      elim (Option-cases
        (o.reload svm_name (write_if_changed (config_path cfg svm_name) content w))) [
          | inl e ↦ rw (h, rollback_config, e, reload) (reload_keeps o cfg svm_name _)
          | inr (stderr, e) ↦ rw (h, rollback_config, e, reload) (reload_keeps o cfg svm_name _)
        ]

  rolled_back :
      (version content : Text) (w : World)
      → w.texts (snapshot_path cfg svm_name version) ≡ some content
      → (rollback_config o cfg svm_name version w).1.texts (config_path cfg svm_name) ≡ some content
  rolled_back version content w h =
      let path = config_path cfg svm_name in
      let self = (list_eqb_iff path path).1 refl in
      rw (rollback-writes version content w h, texts-write path content w path, self) refl

  -- Rendering the same exports a second time changes no file and writes none.
  pub render_config-again :
      (exports : List Export) (w : World)
      → let w1 = (render_config o cfg svm_name exports w).1 in
        (render_config o cfg svm_name exports w1).1 ≡ w1
  unfolding render_config
  render_config-again exports w =
      let args = versioned_args o cfg svm_name exports in
      let v = args.config_version in
      five_again (snapshot_path cfg svm_name v) (snapshot_path cfg svm_name latest)
        (snapshot_meta_path cfg svm_name v) (snapshot_meta_path cfg svm_name latest)
        (config_path cfg svm_name) (o.render args) (o.meta_json args) w (conf_meta v v)
        (conf_meta v latest) (conf_meta latest v) (conf_meta latest latest) (config_meta v)
        (config_meta latest)

  -- A rollback to a version brings back the text that was rendered for it, whether or not the reload
  -- succeeds and whatever was rendered since under another version, where the two files differ and
  -- the version is not spelled "latest".
  pub rollback-restores :
      (exports exports' : List Export) (w : World)
      → version_of exports ≢ version_of exports'
      → version_of exports ≢ latest
      → config_path cfg svm_name ≢ snapshot_path cfg svm_name (version_of exports)
      → let w1 = (render_config o cfg svm_name exports w).1 in
        let w2 = (render_config o cfg svm_name exports' w1).1 in
        (rollback_config o cfg svm_name (version_of exports) w2).1.texts (config_path cfg svm_name)
        ≡ some (o.render (versioned_args o cfg svm_name exports))
  unfolding render_config rollback_config
  rollback-restores exports exports' w differ plain apart =
      let args = versioned_args o cfg svm_name exports in
      let args' = versioned_args o cfg svm_name exports' in
      let v = version_of exports in
      let v' = version_of exports' in
      let w1 = (render_config o cfg svm_name exports w).1 in
      let w2 = (render_config o cfg svm_name exports' w1).1 in
      let first =
        five_a (snapshot_path cfg svm_name v) (snapshot_path cfg svm_name latest)
          (snapshot_meta_path cfg svm_name v) (snapshot_meta_path cfg svm_name latest)
          (config_path cfg svm_name) (o.render args) (o.meta_json args) w (conf_meta v v)
          (conf_meta v latest) (conf_meta latest v) (conf_meta latest latest) (config_meta v)
          (config_meta latest) in
      let skipped =
        skip_five (snapshot_path cfg svm_name v') (snapshot_path cfg svm_name latest)
          (snapshot_meta_path cfg svm_name v') (snapshot_meta_path cfg svm_name latest)
          (config_path cfg svm_name) (o.render args') (o.meta_json args') w1
          (snapshot_path cfg svm_name v) (snapshots-ne v v' differ) (snapshots-ne v latest plain)
          (conf_meta v v') (conf_meta v latest) (λ q. apart (sym q)) in
      rolled_back v (o.render args) w2 (skipped ∙ first)
