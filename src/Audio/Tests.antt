-- ===== src/Audio/Tests.antt =====
-- A session with two reports that the settings are available, and a map of two sources.
use mathlib.Core.List.{Pairwise, Memᴰ, Permᴰ}
use mathlib.Core.List.{not-mem-nil}
use mathlib.Core.Quot
use mathlib.Core.Logic.{∥∥₁_elim}
use mathlib.Core.HLevel.{⊥_prop}
use mathlib.Core.List.Memᴰ
use linux_learning_by_doing.Prelude.{
  ℕ, ◌≡◌, refl, ap, ◌≢◌, true, false, some, List, [], ◌∷◌, pos, arith,
}
use linux_learning_by_doing.Audio.{
  bass, str_bass, str_entsourcelist, number, entries, no_entries, set_value, collect,
  on_ent_source_list,
}
use linux_learning_by_doing.Audio.Session.{
  settings_status, changed_to, Input, notice, set, run, nothing, started,
}
use linux_learning_by_doing.Audio.Runs.{updates_after_run, requests_after_run, flags_after_run}
use linux_learning_by_doing.Audio.Sources.{Iteration, source_list_reported}

-- Set before any report; then two reports, a change, and the end of the service.
abbrev session : List Input
session =
    set bass (pos 3)
    ∷ notice (settings_status true)
    ∷ notice (changed_to bass (pos 3))
    ∷ notice (settings_status false)
    ∷ notice (settings_status true)
    ∷ notice (changed_to bass (pos 4))
    ∷ []

-- The change after the second report is emitted twice.
updates_after_run_example :
    (run session (started false true)).updates
    ≡ (str_bass, number (pos 3)) ∷ (str_bass, number (pos 4)) ∷ (str_bass, number (pos 4)) ∷ []
updates_after_run_example = updates_after_run false true session

requests_after_run_example :
    (run session (started false true)).requests ≡ set_value bass (pos 3) ∷ []
requests_after_run_example = requests_after_run false true session

flags_after_run_test :
    ((run session (started false true)).controls_available ≡ false)
    × ((run session (started false true)).settings_available ≡ true)
flags_after_run_test = flags_after_run false true session

aux_has_other_key : (a : ℕ × ℕ) → Memᴰ a ((2, 1) ∷ []) → 1 ≢ a.0
aux_has_other_key a (Memᴰ.head e) e' = omega (arith, ap (λ (c : ℕ × ℕ). c.0) e)
aux_has_other_key a (Memᴰ.tail m) e' = Memᴰ.not-nil m

usb_has_other_key : (a : ℕ × ℕ) → Memᴰ a ((1, 0) ∷ []) → 2 ≢ a.0
usb_has_other_key a (Memᴰ.head e) e' = omega (arith, ap (λ (c : ℕ × ℕ). c.0) e)
usb_has_other_key a (Memᴰ.tail m) e' = Memᴰ.not-nil m

abbrev usb_first : Iteration
usb_first = (
  (1, 0) ∷ (2, 1) ∷ [],
  Pairwise.cons (λ a m e. ∥∥₁_elim m ⊥_prop (λ d. aux_has_other_key a d e))
      (Pairwise.cons (λ a m e. not-mem-nil m) Pairwise.nil),
)

abbrev aux_first : Iteration
aux_first = (
  (2, 1) ∷ (1, 0) ∷ [],
  Pairwise.cons (λ a m e. ∥∥₁_elim m ⊥_prop (λ d. usb_has_other_key a d e))
      (Pairwise.cons (λ a m e. not-mem-nil m) Pairwise.nil),
)

source_list_reported_example :
    (on_ent_source_list aux_first.0 nothing ≡ on_ent_source_list usb_first.0 nothing)
    × ((on_ent_source_list usb_first.0 nothing).updates
        ≡ (str_entsourcelist, entries (collect usb_first.0 no_entries)) ∷ [])
    × ((c : ℕ × ℕ) → Memᴰ c usb_first.0 → collect usb_first.0 no_entries c.0 ≡ some c.1)
source_list_reported_example =
    source_list_reported usb_first aux_first nothing (Quot.sound (Permᴰ.swap refl refl))
