-- ===== src/Audio/Runs/Spec.antt =====
-- What SourceInterface.cpp has to do over a run, described by its inputs alone.
use linux_learning_by_doing.Prelude.{ℕ, zero, suc, Bool, true, false, List, [], ◌∷◌, ◌++◌}
use linux_learning_by_doing.Audio.{
  Attribute, treble, mid, bass, balance, fade, avc_mode, Property, str_activeaudiosource,
  str_entsourcelist, str_treble, str_midrange, str_bass, str_balance, str_fade, str_scv, Value,
  number, entries, no_entries, Request, set_value, get_active_ent_src, set_entertainment_src,
  src_usb1, src_audio_aux, collect,
}
use linux_learning_by_doing.Audio.Session.{
  controls_status, settings_status, ent_source_list, active_audio_source, changed_to, Input, notice,
  set, request_information, set_entertainment,
}

-- The name under which a setting is reported
abbrev pub name_of : Attribute → Property
name_of treble = str_treble
name_of mid = str_midrange
name_of bass = str_bass
name_of balance = str_balance
name_of fade = str_fade
name_of avc_mode = str_scv

abbrev pub copies : {A : Type 0} → ℕ → A → List A
copies zero x = []
copies (suc n) x = x ∷ copies n x

abbrev pub when : {A : Type 0} → Bool → A → List A
when true x = x ∷ []
when false x = []

-- What an input emits, where the settings proxy has been reported available `n` times.
abbrev pub emitted : Bool → ℕ → Input → List (Property × Value)
emitted controls n (notice (ent_source_list l)) =
    when controls (str_entsourcelist, entries (collect l no_entries))
emitted controls n (notice (active_audio_source i)) =
    when controls (str_activeaudiosource, entries no_entries)
emitted controls n (notice (changed_to a v)) = copies n (name_of a, number v)
emitted controls n _ = []

-- How often the settings proxy has been reported available, after an input.
abbrev pub reports : Input → Bool → ℕ → ℕ
reports (notice (settings_status true)) true n = suc n
reports _ settings n = n

abbrev pub reports_of : List Input → Bool → ℕ → ℕ
reports_of [] settings n = n
reports_of (i ∷ is) settings n = reports_of is settings (reports i settings n)

abbrev pub updates_of : Bool → Bool → ℕ → List Input → List (Property × Value)
updates_of controls settings n [] = []
updates_of controls settings n (i ∷ is) =
    emitted controls n i ++ updates_of controls settings (reports i settings n) is

-- What an input asks of the service: the proxies decide, and no report does.
abbrev pub asked : Bool → Bool → Input → List Request
asked controls settings (notice e) = []
asked controls settings (set a v) = when settings (set_value a v)
asked true settings request_information = get_active_ent_src ∷ set_entertainment_src src_usb1 ∷ []
asked false settings request_information = []
asked controls settings set_entertainment = when controls (set_entertainment_src src_audio_aux)

abbrev pub requests_of : Bool → Bool → List Input → List Request
requests_of controls settings [] = []
requests_of controls settings (i ∷ is) =
    asked controls settings i ++ requests_of controls settings is

-- The last report on a proxy that is there, from the flag before the inputs on
abbrev pub last_controls : List Input → Bool → Bool → Bool
last_controls [] controls b = b
last_controls (notice (controls_status b') ∷ is) true b = last_controls is true b'
last_controls (_ ∷ is) controls b = last_controls is controls b

abbrev pub last_settings : List Input → Bool → Bool → Bool
last_settings [] settings b = b
last_settings (notice (settings_status b') ∷ is) true b = last_settings is true b'
last_settings (_ ∷ is) settings b = last_settings is settings b
