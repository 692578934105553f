-- ===== src/Host/Netns/Listing.antt =====
-- A namespace is looked up as a part of the listing's text.
use arca_storage.Base.{◌≡◌, refl, ◌++◌, Text, has_text-append, nat_order}
use arca_storage.Results.{ok}
use arca_storage.Host.{Host}
use arca_storage.Host.Netns.{netns_list, create_namespace}

module _ {W : Type 0} (h : Host W) where
  -- Where the name stands anywhere in the output of `ip netns list`, also inside a longer name, the
  -- creation succeeds and runs no command but the listing, so it adds no namespace.
  pub create_namespace-substring :
      (name before after : Text) (w : W)
      → (h.run netns_list w).0.stdout ≡ before ++ (name ++ after)
      → create_namespace h name w ≡ (ok tt, (h.run netns_list w).1)
  unfolding create_namespace
  create_namespace-substring name before after w e =
      rw (e, has_text-append before name after, create_namespace) refl
