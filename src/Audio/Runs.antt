-- ===== src/Audio/Runs.antt =====
-- What SourceInterface.cpp does over a run.
pub mod Spec
pub mod Shape
use linux_learning_by_doing.Prelude.{
  ℕ, zero, suc, ◌+◌, ◌≡◌, refl, sym, ap, ◌∙◌, arith, Bool, true, false, ◌&&◌, List, [], ◌∷◌, ◌++◌,
  append-nil, append_assoc, ℤ,
}
use linux_learning_by_doing.Audio.{
  Attribute, treble, mid, bass, balance, fade, avc_mode, Event, changed, Listener, Property,
  str_activeaudiosource, str_entsourcelist, str_treble, str_midrange, str_bass, str_balance,
  str_fade, str_scv, Value, number, entries, no_entries, Interface, Request, init, collect,
  on_controls_status, on_settings_status, on_ent_source_list, on_active_audio_source, send_set,
  send_request_information_source, send_set_entertainment_source,
}
use linux_learning_by_doing.Audio.Session.{
  Notice, controls_status, settings_status, ent_source_list, active_audio_source, changed_to, Input,
  notice, set, request_information, set_entertainment, call, notify, step, run, nothing, started,
}
use linux_learning_by_doing.Audio.Runs.Spec.{
  reports_of, name_of, copies, when, emitted, reports, updates_of, asked, requests_of,
  last_controls, last_settings,
}
use linux_learning_by_doing.Audio.Runs.Shape.{shape, step-shape}

last_controls_step :
    (i : Input) (is : List Input) (controls b : Bool)
    → last_controls is controls (last_controls (i ∷ []) controls b)
      ≡ last_controls (i ∷ is) controls b
last_controls_step (notice (controls_status r)) is true b = refl
last_controls_step (notice (controls_status r)) is false b = refl
last_controls_step (notice (settings_status r)) is c b = refl
last_controls_step (notice (ent_source_list l)) is c b = refl
last_controls_step (notice (active_audio_source x)) is c b = refl
last_controls_step (notice (changed_to a v)) is c b = refl
last_controls_step (set a v) is c b = refl
last_controls_step request_information is c b = refl
last_controls_step set_entertainment is c b = refl

last_settings_step :
    (i : Input) (is : List Input) (settings b : Bool)
    → last_settings is settings (last_settings (i ∷ []) settings b)
      ≡ last_settings (i ∷ is) settings b
last_settings_step (notice (settings_status r)) is true b = refl
last_settings_step (notice (settings_status r)) is false b = refl
last_settings_step (notice (controls_status r)) is c b = refl
last_settings_step (notice (ent_source_list l)) is c b = refl
last_settings_step (notice (active_audio_source x)) is c b = refl
last_settings_step (notice (changed_to a v)) is c b = refl
last_settings_step (set a v) is c b = refl
last_settings_step request_information is c b = refl
last_settings_step set_entertainment is c b = refl

run-shape :
    (is : List Input) (n : ℕ) (b b' : Bool) (asks : List Request) (us : List (Property × Value))
    (c s : Bool)
    → run is (shape c s n b b' asks us)
      ≡ shape c s
          (reports_of is s n)
          (last_controls is c b)
          (last_settings is s b')
          (asks ++ requests_of c s is)
          (us ++ updates_of c s n is)
unfolding run
run-shape [] n b b' asks us c s = simp (append-nil)
run-shape (i ∷ is) n b b' asks us c s =
    ap (run is) (step-shape n b b' asks us c s i)
    ∙ run-shape is (reports i s n) (last_controls (i ∷ []) c b) (last_settings (i ∷ []) s b')
        (asks ++ asked c s i) (us ++ emitted c n i) c s
    ∙ simp (append_assoc, last_controls_step, last_settings_step)

shape-started : (c s : Bool) → started c s ≡ shape c s 0 false false [] []
unfolding init
shape-started true true = refl
shape-started true false = refl
shape-started false true = refl
shape-started false false = refl

run-started :
    (c s : Bool) (is : List Input)
    → run is (started c s)
      ≡ shape c s
          (reports_of is s 0)
          (last_controls is c false)
          (last_settings is s false)
          (requests_of c s is)
          (updates_of c s 0 is)
run-started c s is = ap (run is) (shape-started c s) ∙ run-shape is 0 false false [] [] c s

-- Over any run after `Init`, whichever proxies are there, exactly the described updates are emitted in
-- their order: one update for each source list and for each active source if the controls proxy is
-- there, and for each changed setting one for EVERY report so far that the settings proxy is available,
-- each of which has subscribed again.
pub updates_after_run :
    (controls settings : Bool) (is : List Input)
    → (run is (started controls settings)).updates ≡ updates_of controls settings 0 is
updates_after_run c s is = ap Interface.updates (run-started c s is)

-- Over any run after `Init`, exactly the described calls are made on the proxies in their order: those
-- of each call of the user on a proxy that is there, whether or not it has been reported available.
pub requests_after_run :
    (controls settings : Bool) (is : List Input)
    → (run is (started controls settings)).requests ≡ requests_of controls settings is
requests_after_run c s is = ap Interface.requests (run-started c s is)

-- After any run from `Init`, each availability flag is the last report on its proxy, and false before the
-- first one or without the proxy.
pub flags_after_run :
    (controls settings : Bool) (is : List Input)
    → ((run is (started controls settings)).controls_available ≡ last_controls is controls false)
      × ((run is (started controls settings)).settings_available ≡ last_settings is settings false)
flags_after_run c s is = (
  ap Interface.controls_available (run-started c s is),
  ap Interface.settings_available (run-started c s is),
)
