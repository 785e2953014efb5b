-- ===== src/Audio/Runs/Shape.antt =====
-- The class of SourceInterface.cpp as it stands after `Init` and some events, and one input from there.
use linux_learning_by_doing.Prelude.{
  ℕ, zero, suc, ◌≡◌, refl, sym, ap, ◌∙◌, Bool, true, false, List, [], ◌∷◌, ◌++◌, append-nil,
  append_assoc,
}
use linux_learning_by_doing.Audio.{
  treble, mid, bass, balance, fade, avc_mode, Event, changed, Listener, Property, Value, number,
  Interface, Request, on_controls_status, on_settings_status, on_ent_source_list,
  on_active_audio_source, send_set, send_request_information_source, send_set_entertainment_source,
}
use linux_learning_by_doing.Audio.Session.{
  Notice, controls_status, settings_status, ent_source_list, active_audio_source, changed_to, Input,
  notice, set, request_information, set_entertainment, call, notify, step,
}
use linux_learning_by_doing.Audio.Runs.Spec.{
  name_of, copies, emitted, reports, asked, last_controls, last_settings,
}

-- The subscriptions of `Init`, and those of one report
abbrev pub base : Bool → Bool → List (Event × Listener)
base controls settings =
    elim controls [
      | true ↦
          (Event.controls_status, Listener.status_event_listener_audio_control)
          ∷ (Event.ent_source_list, Listener.receive_ent_source_list)
          ∷ (Event.active_audio_source, Listener.receive_active_audio_source)
          ∷ []
      | false ↦ []
    ]
    ++ elim settings [
      | true ↦ (Event.settings_status, Listener.status_event_listener_audio_settings) ∷ []
      | false ↦ []
    ]

abbrev pub six : List (Event × Listener) → List (Event × Listener)
six ls =
    (changed treble, Listener.receive_treble)
    ∷ (changed mid, Listener.receive_midrange)
    ∷ (changed bass, Listener.receive_bass)
    ∷ (changed balance, Listener.receive_balance)
    ∷ (changed fade, Listener.receive_fade)
    ∷ (changed avc_mode, Listener.receive_scv)
    ∷ ls

abbrev pub blocks : ℕ → List (Event × Listener)
blocks zero = []
blocks (suc n) = six (blocks n)

blocks_end : (n : ℕ) → blocks n ++ six [] ≡ blocks (suc n)
blocks_end zero = refl
blocks_end (suc n) = ap six (blocks_end n)

notify-append :
    (ls ms : List (Event × Listener)) (n : Notice) (s : Interface)
    → notify (ls ++ ms) n s ≡ notify ms n (notify ls n s)
unfolding notify
notify-append [] ms n s = refl
notify-append ((e, l) ∷ ls) ms n s = notify-append ls ms n _

abbrev settings_updates : ℕ → Notice → List (Property × Value)
settings_updates n (changed_to a v) = copies n (name_of a, number v)
settings_updates n _ = []

abbrev more : Interface → List (Property × Value) → Interface
more s us = record s { updates = s.updates ++ us }

more_none : (s : Interface) → s ≡ more s []
more_none s = ap (λ u. record s { updates = u }) (sym (append-nil s.updates))

more_assoc :
    (s : Interface) (u : Property × Value) (us : List (Property × Value))
    → more (more s (u ∷ [])) us ≡ more s (u ∷ us)
more_assoc s u us = ap (λ w. record s { updates = w }) (append_assoc s.updates (u ∷ []) us)

-- The listeners of the settings keep everything but the updates.
notify-blocks :
    (n : ℕ) (e : Notice) (s : Interface) → notify (blocks n) e s ≡ more s (settings_updates n e)
unfolding notify call
notify-blocks zero (controls_status b) s = more_none s
notify-blocks zero (settings_status b) s = more_none s
notify-blocks zero (ent_source_list l) s = more_none s
notify-blocks zero (active_audio_source i) s = more_none s
notify-blocks zero (changed_to a v) s = more_none s
notify-blocks (suc n) (controls_status b) s = notify-blocks n (controls_status b) s
notify-blocks (suc n) (settings_status b) s = notify-blocks n (settings_status b) s
notify-blocks (suc n) (ent_source_list l) s = notify-blocks n (ent_source_list l) s
notify-blocks (suc n) (active_audio_source i) s = notify-blocks n (active_audio_source i) s
notify-blocks (suc n) (changed_to treble v) s =
    notify-blocks n (changed_to treble v) _ ∙ more_assoc s _ (copies n (name_of treble, number v))
notify-blocks (suc n) (changed_to mid v) s =
    notify-blocks n (changed_to mid v) _ ∙ more_assoc s _ (copies n (name_of mid, number v))
notify-blocks (suc n) (changed_to bass v) s =
    notify-blocks n (changed_to bass v) _ ∙ more_assoc s _ (copies n (name_of bass, number v))
notify-blocks (suc n) (changed_to balance v) s =
    notify-blocks n (changed_to balance v) _ ∙ more_assoc s _ (copies n (name_of balance, number v))
notify-blocks (suc n) (changed_to fade v) s =
    notify-blocks n (changed_to fade v) _ ∙ more_assoc s _ (copies n (name_of fade, number v))
notify-blocks (suc n) (changed_to avc_mode v) s =
    notify-blocks n (changed_to avc_mode v) _
    ∙ more_assoc s _ (copies n (name_of avc_mode, number v))

-- The class after `Init` and `n` reports, with what else it has come to.
abbrev pub shape :
    Bool → Bool → ℕ → Bool → Bool → List Request → List (Property × Value) → Interface
shape controls settings n b b' asks us = record {
  controls_proxy = controls;
  settings_proxy = settings;
  controls_available = b;
  settings_available = b';
  listeners = base controls settings ++ blocks n;
  requests = asks;
  updates = us;
}

module _ (n : ℕ) (b b' : Bool) (asks : List Request) (us : List (Property × Value)) where
  more-shape :
      (controls settings : Bool) (e : Notice)
      → more
          (notify (base controls settings) e (shape controls settings n b b' asks us))
          (settings_updates n e)
        ≡ shape controls settings
            (reports (notice e) settings n)
            (last_controls (notice e ∷ []) controls b)
            (last_settings (notice e ∷ []) settings b')
            (asks ++ asked controls settings (notice e))
            (us ++ emitted controls n (notice e))
  unfolding notify call on_controls_status on_settings_status on_ent_source_list
      on_active_audio_source
  more-shape true true (controls_status r) = simp (append-nil, append_assoc)
  more-shape true false (controls_status r) = simp (append-nil, append_assoc)
  more-shape false true (controls_status r) = simp (append-nil, append_assoc)
  more-shape false false (controls_status r) = simp (append-nil, append_assoc)
  more-shape true true (settings_status true) = simp (append-nil, append_assoc, blocks_end n)
  more-shape true false (settings_status true) = simp (append-nil, append_assoc)
  more-shape false true (settings_status true) = simp (append-nil, append_assoc, blocks_end n)
  more-shape false false (settings_status true) = simp (append-nil, append_assoc)
  more-shape true true (settings_status false) = simp (append-nil, append_assoc)
  more-shape true false (settings_status false) = simp (append-nil, append_assoc)
  more-shape false true (settings_status false) = simp (append-nil, append_assoc)
  more-shape false false (settings_status false) = simp (append-nil, append_assoc)
  more-shape true true (ent_source_list l) = simp (append-nil, append_assoc)
  more-shape true false (ent_source_list l) = simp (append-nil, append_assoc)
  more-shape false true (ent_source_list l) = simp (append-nil, append_assoc)
  more-shape false false (ent_source_list l) = simp (append-nil, append_assoc)
  more-shape true true (active_audio_source i) = simp (append-nil, append_assoc)
  more-shape true false (active_audio_source i) = simp (append-nil, append_assoc)
  more-shape false true (active_audio_source i) = simp (append-nil, append_assoc)
  more-shape false false (active_audio_source i) = simp (append-nil, append_assoc)
  more-shape true true (changed_to a v) = simp (append-nil, append_assoc)
  more-shape true false (changed_to a v) = simp (append-nil, append_assoc)
  more-shape false true (changed_to a v) = simp (append-nil, append_assoc)
  more-shape false false (changed_to a v) = simp (append-nil, append_assoc)

  pub step-shape :
      (controls settings : Bool) (i : Input)
      → step i (shape controls settings n b b' asks us)
        ≡ shape controls settings
            (reports i settings n)
            (last_controls (i ∷ []) controls b)
            (last_settings (i ∷ []) settings b')
            (asks ++ asked controls settings i)
            (us ++ emitted controls n i)
  unfolding step send_set send_request_information_source send_set_entertainment_source
  step-shape true true (set a v) = simp (append-nil, append_assoc)
  step-shape true false (set a v) = simp (append-nil, append_assoc)
  step-shape false true (set a v) = simp (append-nil, append_assoc)
  step-shape false false (set a v) = simp (append-nil, append_assoc)
  step-shape true s request_information = simp (append-nil, append_assoc)
  step-shape false s request_information = simp (append-nil, append_assoc)
  step-shape true s set_entertainment = simp (append-nil, append_assoc)
  step-shape false s set_entertainment = simp (append-nil, append_assoc)
  step-shape c s (notice e) =
      notify-append (base c s) (blocks n) e (shape c s n b b' asks us)
      ∙ notify-blocks n e (notify (base c s) e (shape c s n b b' asks us))
      ∙ more-shape c s e
