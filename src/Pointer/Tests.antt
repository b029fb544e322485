-- ===== src/Pointer/Tests.antt =====
-- Concrete nested dicts.
use notifyr.Base.{ℕ, ◌≡◌, refl, [], ◌∷◌}
use notifyr.Pointer.{leaf, dict, Entries, no_more, entry, get_entry, set_entry, next_ptr, set_val}

abbrev profile : Entries ℕ
profile = entry "smtp" (dict (entry "port" (leaf 25) no_more)) no_more

-- A path that stops early writes beside the key at which it stopped.
beside :
    set_val ("imap" ∷ []) "port" (leaf 993) profile
    ≡ entry "smtp" (dict (entry "port" (leaf 25) no_more)) (entry "port" (leaf 993) no_more)
unfolding set_val next_ptr get_entry set_entry
beside = refl
