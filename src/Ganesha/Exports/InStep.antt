-- ===== src/Ganesha/Exports/InStep.antt =====
-- The configuration on disk follows the exports on disk.
use arca_storage.Base.{
  ◌≡◌, refl, ◌∙◌, ap, Bool, Option, some, List, ◌∷◌, [], ◌++◌, Text, list_eqb_iff, nat_order, arith,
}
use arca_storage.Ganesha.{Export, Config, World, Outside}
use arca_storage.Ganesha.Render.{config_path, versioned_args, render_config, reload}
use arca_storage.Ganesha.Render.Writes.{texts-write, exports-render, reload_keeps}
use arca_storage.Ganesha.Exports.{
  or_empty, load_exports, save_exports, new_export, without_export, store_exports, add_export,
  remove_export, sync,
}
use arca_storage.Ganesha.Exports.Ids.{load-store_self}

module _ (o : Outside) (cfg : Config) (svm_name : Text) where
  -- The configuration of the SVM is what its saved exports render to.
  abbrev pub IsInStep : World → Type 0
  IsInStep w =
      w.texts (config_path cfg svm_name)
      ≡ some (o.render (versioned_args o cfg svm_name (load_exports svm_name w)))

  config-render :
      (exports : List Export) (w : World)
      → (render_config o cfg svm_name exports w).1.texts (config_path cfg svm_name)
        ≡ some (o.render (versioned_args o cfg svm_name exports))
  unfolding render_config
  config-render exports w =
      texts-write (config_path cfg svm_name) _ _ (config_path cfg svm_name)
      ∙ rw ((list_eqb_iff (config_path cfg svm_name) (config_path cfg svm_name)).1 refl) refl

  world-store :
      (es : List Export) (w : World)
      → (store_exports o cfg svm_name es w).1
        ≡ (render_config o cfg svm_name es (save_exports svm_name es w)).1
  unfolding store_exports
  world-store es w = reload_keeps o cfg svm_name _

  store-IsInStep : (es : List Export) (w : World) → IsInStep (store_exports o cfg svm_name es w).1
  store-IsInStep es w = rw (load-store_self o cfg svm_name es w) (
      ap (λ (u : World). u.texts (config_path cfg svm_name)) (world-store es w)
      ∙ config-render es (save_exports svm_name es w))

  world-sync :
      (w : World)
      → (sync o cfg svm_name w).1 ≡ (render_config o cfg svm_name (load_exports svm_name w) w).1
  unfolding sync reload
  world-sync w = ground arith

  load-render :
      (es : List Export) (w : World)
      → load_exports svm_name (render_config o cfg svm_name es w).1 ≡ load_exports svm_name w
  unfolding load_exports
  load-render es w =
      ap (λ (f : Text → Option (List Export)). or_empty (f svm_name))
        (exports-render o cfg svm_name es w)

  sync-IsInStep : (w : World) → IsInStep (sync o cfg svm_name w).1
  sync-IsInStep w =
      rw (world-sync w, load-render (load_exports svm_name w) w)
        (config-render (load_exports svm_name w) w)

  -- After an addition, a removal or a synchronisation, whatever the outcome of the reload, the
  -- configuration file of the SVM is what its saved exports render to.
  pub export_requests-IsInStep :
      (volume_name client access : Text) (root_squash : Bool) (sec : Option (List Text)) (w : World)
      → IsInStep (add_export o cfg svm_name volume_name client access root_squash sec w).1
        × IsInStep (remove_export o cfg svm_name volume_name client w).1
        × IsInStep (sync o cfg svm_name w).1
  unfolding add_export remove_export
  export_requests-IsInStep volume_name client access root_squash sec w = (
    store-IsInStep
        (load_exports svm_name w
          ++ new_export cfg (load_exports svm_name w) svm_name volume_name client access root_squash
              sec
            ∷ [])
        w,
    store-IsInStep (without_export cfg svm_name volume_name client (load_exports svm_name w)) w,
    sync-IsInStep w,
  )
