-- ===== src/Host/Logged.antt =====
-- A machine together with the commands that it was given.
use arca_storage.Base.{List, ◌∷◌, Text}
use arca_storage.Host.{Host}

-- The last command comes first.
abbrev pub logged : {W : Type 0} → Host W → Host (W × List (List Text))
logged h = record {
  run = λ cmd s. let (r, w) = h.run cmd s.0 in (r, (w, cmd ∷ s.1));
  exists = λ path s. h.exists path s.0;
  makedirs = λ path s. (h.makedirs path s.0, s.1);
}
