-- ===== src/Cinder/Files/Atomic.antt =====
-- A copy is there whole, or not at all.
use arca_storage.Base.{
  some, ℕ, ◌≡◌, ◌≢◌, sym, inl, inr, refl, Bool, true, false, not, ◌||◌, none, Text, nat_order,
  if◌then◌else◌, arith,
}
use arca_storage.Results.{Result, Result-cases, ok, err}
use arca_storage.Cinder.{
  Fault, storage_error, timeout_expired, called_process, os_error, backend_error, other_error, Node,
}
use arca_storage.Cinder.Paths.{dirname}
use arca_storage.Cinder.Files.{
  temp_path_of, remove_temp, link_to, copy_to_temp, copy_and_place, clean_up_after,
  copy_sparse_file,
}
use arca_storage.Cinder.Files.Disk.{Disk}
use arca_storage.Cinder.Files.Temp.{temp_path_of-dest}
use arca_storage.Cinder.Paths.Components.{IsComponent}
use arca_storage.Cinder.Files.Placed.{
  Apart, Whole, remove-file, copy_to_temp-file, copy_to_temp-whole, link_to-Placed,
}

module _ {W C : Type 0} {n : Node W} (k : Disk n C) where
  -- The same of a copy of the file at a path.
  abbrev pub Copied : Text → Text → Text → W → Result Fault (Unit {0}) × W → Type 0
  Copied s t d w r =
      Apart k d t w r.1
      × Whole k (k.file w s) d w r.1
      × ((r.0 ≡ ok tt) → (k.file r.1 d ≡ k.file w s) × (k.file r.1 t ≡ none))

  copy_and_place-Copied :
      (s t d : Text) (timeout : ℕ) (w : W) (c : C)
      → k.file w s ≡ some c
      → s ≢ t
      → t ≢ d
      → Copied s t d w (copy_and_place n s t d timeout w)
  unfolding copy_and_place
  copy_and_place-Copied s t d timeout w c there st td =
      let w1 = (copy_to_temp n s t timeout w).1 in
      let other = λ (q : Text) (h : q ≢ t). copy_to_temp-file k s t timeout w q h in
      let w2 = (link_to n t d w1).1 in
      elim (Result-cases (copy_to_temp n s t timeout w).0) [
        | inr (x, e) ↦ (
          λ q a b. grind (arith, e, other q b),
          inl (grind (arith, e, other d (λ z. td (sym z)))),
          λ done. absurd (grind (arith, e, done)),
        )
        | inl (u, e) ↦
            let whole = copy_to_temp-whole k s t timeout w c there e in
            let p = link_to-Placed k t d w1 c whole td in
            let d_same = other d (λ z. td (sym z)) in
            elim (Result-cases (link_to n t d w1).0) [
              | inr (x, f) ↦ (
                λ q a b. grind (arith, e, f, p.0 q a b, other q b),
                grind (arith, e, f, p.1, whole, there, d_same),
                λ done. absurd (grind (arith, e, f, done)),
              )
              | inl (v, f) ↦ (
                λ q a b. grind (arith, e, f, p.0 q a b, other q b, k.synced_dir w2 (dirname d) q),
                grind (arith, e, f, p.1, whole, there, d_same, k.synced_dir w2 (dirname d) d),
                λ done. (
                  grind (arith, e, f, p.2 f, whole, there, k.synced_dir w2 (dirname d) d),
                  grind (arith, e, f, p.2 f, k.synced_dir w2 (dirname d) t),
                ),
              )
            ]
      ]

  remove_temp-file : (t q : Text) (w : W) → q ≢ t → k.file (remove_temp n t w) q ≡ k.file w q
  unfolding remove_temp
  remove_temp-file t q w h = grind (arith, remove-file k w t q h)

  remove_temp-Copied :
      (s t d : Text) (w w' : W) (x y : Fault)
      → t ≢ d
      → Copied s t d w (err x, w')
      → Copied s t d w (err y, remove_temp n t w')
  remove_temp-Copied s t d w w' x y td (apart, whole, _) = (
    λ q a b. grind (arith, apart q a b, remove_temp-file t q w' b),
    grind (arith, whole, remove_temp-file t d w' (λ z. td (sym z))),
    λ done. absurd (grind (arith, done)),
  )

  clean_up_after-Copied :
      (s t d : Text) (w : W) (r : Result Fault (Unit {0}) × W)
      → t ≢ d
      → Copied s t d w r
      → Copied s t d w (clean_up_after n t r)
  unfolding clean_up_after
  clean_up_after-Copied s t d w (ok u, w') td c = c
  clean_up_after-Copied s t d w (err timeout_expired, w') td c =
      remove_temp-Copied s t d w w' timeout_expired storage_error td c
  clean_up_after-Copied s t d w (err called_process, w') td c =
      remove_temp-Copied s t d w w' called_process storage_error td c
  clean_up_after-Copied s t d w (err os_error, w') td c =
      remove_temp-Copied s t d w w' os_error storage_error td c
  clean_up_after-Copied s t d w (err storage_error, w') td c = c
  clean_up_after-Copied s t d w (err backend_error, w') td c = c
  clean_up_after-Copied s t d w (err other_error, w') td c = c

  if-Copied :
      (s t d : Text) (w : W) (b : Bool) (r r' : Result Fault (Unit {0}) × W)
      → Copied s t d w r
      → (b ≡ false → Copied s t d w r')
      → Copied s t d w (if b then r else r')
  if-Copied s t d w true r r' c c' = c
  if-Copied s t d w false r r' c c' = c' refl

  refused-Copied : (s t d : Text) (w : W) → Copied s t d w (err storage_error, w)
  refused-Copied s t d w = (λ q a b. refl, inl refl, λ done. absurd (grind (arith, done)))

  pub copy_sparse_file-Copied :
      (random_suffix source_path dest_path : Text) (timeout : ℕ) (w : W)
      → IsComponent random_suffix
      → source_path ≢ temp_path_of dest_path random_suffix
      → Copied source_path
          (temp_path_of dest_path random_suffix)
          dest_path
          w
          (copy_sparse_file n random_suffix source_path dest_path timeout w)
  unfolding copy_sparse_file
  copy_sparse_file-Copied random_suffix source_path dest_path timeout w solid st =
      let t = temp_path_of dest_path random_suffix in
      let s = source_path in
      let d = dest_path in
      let td = temp_path_of-dest dest_path random_suffix solid in
      let no = refused-Copied s t d w in
      if-Copied s t d w (not (n.exists s w)) _ _ no λ _.
        if-Copied s t d w (n.is_link s w || not (n.is_file s w)) _ _ no λ regular.
          let (c, there) = k.is_regular w s (file_of (n.is_link s w) (n.is_file s w) regular) in
          if-Copied s t d w (n.exists d w) _ _ no (λ _.
            clean_up_after-Copied s t d w _ td
              (copy_and_place-Copied s t d timeout w c there st td))
    where
      file_of : (link file : Bool) → (link || not file) ≡ false → file ≡ true
      file_of link file h = ground arith

  -- What a copy has made, where it returns.
  abbrev pub Made : Text → Text → Text → W → Result Fault (Unit {0}) → W → Type 0
  Made s t d w (ok _) w' = (k.file w' d ≡ k.file w s) × (k.file w' t ≡ none)
  Made s t d w (err _) w' = Unit {0}

  -- Nothing but two paths is touched, one of which has its whole new content or none of it.
  abbrev pub IsAtomic : Text → Text → Text → W → Result Fault (Unit {0}) × W → Type 0
  IsAtomic s t d w r = Apart k d t w r.1 × Whole k (k.file w s) d w r.1 × Made s t d w r.0 r.1

  Made-of :
      (s t d : Text) (w : W) (r : Result Fault (Unit {0})) (w' : W)
      → (r ≡ ok tt → (k.file w' d ≡ k.file w s) × (k.file w' t ≡ none))
      → Made s t d w r w'
  Made-of s t d w (ok _) w' h = h refl
  Made-of s t d w (err _) w' h = tt

  -- A copy is atomic, whatever fails in it. Where the random suffix has no slash and the temporary
  -- file is not the source, no file but the temporary one and the destination is changed, and the
  -- destination is as it was, or was not there and has the whole content of the source. A copy that
  -- returns has made the destination with that content and has left no temporary file.
  pub copy_sparse_file-IsAtomic :
      (random_suffix source_path dest_path : Text) (timeout : ℕ) (w : W)
      → IsComponent random_suffix
      → source_path ≢ temp_path_of dest_path random_suffix
      → IsAtomic source_path
          (temp_path_of dest_path random_suffix)
          dest_path
          w
          (copy_sparse_file n random_suffix source_path dest_path timeout w)
  copy_sparse_file-IsAtomic random_suffix source_path dest_path timeout w solid st =
      let r = copy_sparse_file n random_suffix source_path dest_path timeout w in
      let (apart, whole, done) =
        copy_sparse_file-Copied random_suffix source_path dest_path timeout w solid st in
      (
        apart,
        whole,
        Made-of source_path (temp_path_of dest_path random_suffix) dest_path w r.0 r.1 done,
      )
