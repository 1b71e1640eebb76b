-- ===== src/Site/Outages.antt =====
-- What a series of answers makes of the settings of frontend/src/hooks/useSiteSettings.ts.
use locketgoldhuydev.Prelude.{
  ◌≡◌, refl, inl, inr, Bool, true, false, Option, none, some, List, [], ◌∷◌, String, str_eq,
  Bool-cases,
}
use locketgoldhuydev.Site.Types.{Settings}
use locketgoldhuydev.Site.{
  Site, Answer, answered, thrown, failure_text, check_settings, poll, is_backend_offline,
}

-- The settings that the last answer with settings brought; an exception brings none.
abbrev pub latest : Option Settings → List Answer → Option Settings
latest c [] = c
latest c (answered res ∷ rest) = latest res rest
latest c (thrown m ∷ rest) = latest c rest

-- The last answer is an exception, or has no settings.
abbrev pub failed_last : List Answer → Bool
failed_last [] = false
failed_last (answered none ∷ []) = true
failed_last (answered (some c) ∷ []) = false
failed_last (thrown m ∷ []) = true
failed_last (a ∷ b ∷ rest) = failed_last (b ∷ rest)

poll-settings : (rest : List Answer) (s : Site) → (poll rest s).settings ≡ latest s.settings rest
unfolding poll check_settings
poll-settings [] s = refl
poll-settings (answered res ∷ rest) s = poll-settings rest _
poll-settings (thrown m ∷ rest) s = poll-settings rest _

failure_text-filled : (m : String) → str_eq (failure_text m) "" ≡ false
failure_text-filled m = elim (Bool-cases (str_eq m "")) [
  | inl empty ↦ rw empty refl
  | inr full ↦ rw (full, full) refl
]

poll-offline :
    (a : Answer) (rest : List Answer) (s : Site)
    → is_backend_offline (poll (a ∷ rest) s) ≡ failed_last (a ∷ rest)
unfolding poll check_settings is_backend_offline
poll-offline (answered none) [] s = refl
poll-offline (answered (some c)) [] s = refl
poll-offline (thrown m) [] s = rw (failure_text-filled m) refl
poll-offline a (b ∷ rest) s = poll-offline b rest (check_settings a s)

-- After any answers, the page counts the server as unreachable exactly if the last answer was an
-- exception or had no settings; a maintenance stays as the last answer with settings told it.
pub poll-tells :
    (a : Answer) (rest : List Answer) (s : Site)
    → (is_backend_offline (poll (a ∷ rest) s) ≡ failed_last (a ∷ rest))
      × ((poll (a ∷ rest) s).settings ≡ latest s.settings (a ∷ rest))
poll-tells a rest s = (poll-offline a rest s, poll-settings (a ∷ rest) s)
